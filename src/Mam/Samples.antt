-- ===== src/Mam/Samples.antt =====
-- Runs of the memory manager on small memories, and its theorems at concrete inputs.
use uvm_systemc.Common.{
  ℕ, ◌-◌, ◌^◌, ◌≤◌, ◌≡◌, refl, true, false, ◌||◌, ◌&&◌, not, none, some, [], ◌∷◌, arith,
}
use uvm_systemc.Mam.{
  Config, Region, Mam, region, greedy, broad, new_mam, reserve_region, release_region,
  insert_region,
}
use uvm_systemc.Mam.Layout.{IsValid, covers, taken}
use uvm_systemc.Mam.Reserve.{last, reserve_region_grants}
use uvm_systemc.Mam.Release.{find_region, release_region_frees, release_region-reserve_region}
use uvm_systemc.Mam.Iterate.{collect, collect-in_use}

-- Locations 0x10 to 0x4f, of 4 bytes each.
abbrev words : Config
words = record {
  n_bytes = 4;
  start_offset = 0x10;
  end_offset = 0x4f;
  mode = greedy;
  locality = broad;
}

abbrev empty : Mam
empty = record {
  cfg = words;
  in_use = [];
  default_alloc = record { len = 0; start_offset = 0; min_offset = 0; max_offset = 0; in_use = [] };
  for_each_next = 0;
  next_handle = 0;
}

new_mam-empty : new_mam words ≡ empty
unfolding new_mam
new_mam-empty = refl

abbrev low_region : Region
low_region = record { handle = 0; start_offset = 0x20; end_offset = 0x22; len = 3; n_bytes = 12 }

-- One region, for 10 bytes from 0x20.
abbrev one : Mam
one = record empty { in_use = low_region ∷ []; next_handle = 1 }

reserves_ten_bytes : reserve_region empty 0x20 10 ≡ (one, region low_region)
unfolding reserve_region insert_region
reserves_ten_bytes = refl

empty-IsValid : IsValid empty
empty-IsValid = omega arith

one-IsValid : IsValid one
one-IsValid = omega arith

one_free : (a : ℕ) → 0x30 ≤ a → a ≤ last one 0x30 8 → taken one.in_use a ≡ false
unfolding taken
one_free a h k = ground arith

reserve_region_grants_example :
    (m' : Mam) × (r : Region) × (reserve_region one 0x30 8 ≡ (m', region r))
    × IsValid m'
    × (r.start_offset ≡ 0x30)
    × (r.end_offset ≡ 0x31)
    × ((a : ℕ) → taken m'.in_use a ≡ (covers r a || taken one.in_use a))
reserve_region_grants_example =
    reserve_region_grants one 0x30 8 one-IsValid (omega arith) (omega arith) (omega arith)
      (omega arith) one_free

release_region_frees_example :
    (m' : Mam) × (release_region one (some 0) ≡ (m', none))
    × IsValid m'
    × ((a : ℕ) → taken m'.in_use a ≡ (taken one.in_use a && not (covers low_region a)))
unfolding find_region
release_region_frees_example = release_region_frees one 0 low_region one-IsValid refl

release_region-reserve_region_example :
    release_region one (some 0) ≡ (record empty { next_handle = 1 }, none)
release_region-reserve_region_example =
    release_region-reserve_region empty one 0x20 10 low_region empty-IsValid reserves_ten_bytes

abbrev narrow : Config
narrow = record words { end_offset = 0x22 }

collect-in_use_example : collect 2 one true ≡ some (low_region ∷ [])
collect-in_use_example = collect-in_use one 2 (omega arith)

-- All of the 64-bit space, one byte to a location.
abbrev whole : Mam
whole = record empty {
  cfg = record {
    n_bytes = 1;
    start_offset = 0;
    end_offset = 2 ^ 64 - 1;
    mode = greedy;
    locality = broad;
  };
}
