-- ===== src/Mam/Release.antt =====
-- What `uvm_mem_mam::release_region`, `release_all_regions` and `reconfigure` promise.
use uvm_systemc.Common.{
  ℕ, suc, ◌≤◌, ◌<◌, ◌≡◌, refl, true, ◌&&◌, not, none, some, List, arith, Option-cases, Bool-cases,
  inl, inr, ◌⊎◌, ◌==◌, All, [], ◌∷◌, Option, if◌then◌else◌,
}
use uvm_systemc.Mam.{
  Config, Region, Mam, region, make_region, insert_region, reserve_region, erase_region,
  release_region, all_within, reconfigure, last_offset, region_outside,
}
use uvm_systemc.Mam.Layout.{Packed, IsValid, covers, taken, taken_below, Packed-mono}

-- The region that a pointer stands for.
unfoldable pub find_region : ℕ → List Region → Option Region
find_region h [] = none
find_region h (x ∷ xs) = if x.handle == h then some x else find_region h xs

find_region-erase :
    (h : ℕ) (rs : List Region) (r : Region)
    → find_region h rs ≡ some r
    → (out : List Region) × (erase_region h rs ≡ some out)
unfolding find_region erase_region
find_region-erase h [] r f = cc
find_region-erase h (x ∷ xs) r f = elim (Bool-cases (x.handle == h)) [
  | inl hit ↦ (xs, ground arith)
  | inr miss ↦ let (out, e) = find_region-erase h xs r (ground arith) in (x ∷ out, ground arith)
]

erase_region-Packed :
    (lo hi h : ℕ) (rs out : List Region)
    → Packed lo hi rs
    → erase_region h rs ≡ some out
    → Packed lo hi out
unfolding erase_region
erase_region-Packed lo hi h [] out p e = cc
erase_region-Packed lo hi h (x ∷ xs) out (a, b, c, d) e = elim (Option-cases (erase_region h xs)) [
  | inl lost ↦ ground (arith, Packed-mono lo x.start_offset lo hi xs)
  | inr (ys, go) ↦
      ground (
        arith,
        Packed-mono lo x.start_offset lo hi xs,
        erase_region-Packed lo x.start_offset h xs ys,
      )
]

erase_region-fresh :
    (n h : ℕ) (rs out : List Region)
    → All (λ x. x.handle < n) rs
    → erase_region h rs ≡ some out
    → All (λ x. x.handle < n) out
unfolding erase_region
erase_region-fresh n h [] out f e = cc
erase_region-fresh n h (x ∷ xs) out f e = elim (Option-cases (erase_region h xs)) [
  | inl lost ↦ ground arith
  | inr (ys, go) ↦ ground (arith, erase_region-fresh n h xs ys)
]

find_region-below :
    (lo hi h : ℕ) (rs : List Region) (r : Region)
    → Packed lo hi rs
    → find_region h rs ≡ some r
    → r.end_offset < hi
unfolding find_region
find_region-below lo hi h [] r p f = cc
find_region-below lo hi h (x ∷ xs) r (b, c, d, q) f =
    ground (arith, find_region-below lo x.start_offset h xs r q)

-- Releasing gives back the addresses of the region and no others.
erase_region-taken :
    (lo hi h a : ℕ) (rs out : List Region) (r : Region)
    → Packed lo hi rs
    → find_region h rs ≡ some r
    → erase_region h rs ≡ some out
    → taken out a ≡ (taken rs a && not (covers r a))
unfolding erase_region find_region taken
erase_region-taken lo hi h a [] out r p f e = cc
erase_region-taken lo hi h a (x ∷ xs) out r (b, c, d, q) f e =
    elim (Option-cases (erase_region h xs)) [
      | inl lost ↦ ground (arith, taken_below lo x.start_offset a xs q)
      | inr (ys, go) ↦ ground (
        arith,
        taken_below lo x.start_offset a xs q,
        find_region-below lo x.start_offset h xs r q,
        erase_region-taken lo x.start_offset h a xs ys r q,
      )
    ]

-- In a valid manager, releasing a region that it holds succeeds: the addresses of the region become
-- free, all others stay as they were, and the manager stays valid.
pub release_region_frees :
    (m : Mam) (h : ℕ) (r : Region)
    → IsValid m
    → find_region h m.in_use ≡ some r
    → (m' : Mam) × (release_region m (some h) ≡ (m', none))
      × IsValid m'
      × ((a : ℕ) → taken m'.in_use a ≡ (taken m.in_use a && not (covers r a)))
unfolding release_region
release_region_frees m h r v f =
    let (out, e) = find_region-erase h m.in_use r f in
    (
      record m { in_use = out },
      ground arith,
      record {
        unit = v.unit;
        packed = erase_region-Packed _ _ h m.in_use out v.packed e;
        fresh = erase_region-fresh m.next_handle h m.in_use out v.fresh e;
      },
      λ a.
          erase_region-taken m.cfg.start_offset (suc m.cfg.end_offset) h a m.in_use out r v.packed f
            e,
    )

erase_region-insert_region :
    (r : Region) (rs out : List Region)
    → All (λ x. x.handle < r.handle) rs
    → insert_region r rs ≡ some out
    → erase_region r.handle out ≡ some rs
unfolding erase_region insert_region
erase_region-insert_region r [] out f e = ground arith
erase_region-insert_region r (x ∷ xs) out f e = elim (Option-cases (insert_region r xs)) [
  | inl stop ↦ ground arith
  | inr (ys, go) ↦ ground (arith, erase_region-insert_region r xs ys f.1 go)
]

-- A region just reserved can be released, and then the manager holds what it held before, in the same
-- order.
pub release_region-reserve_region :
    (m m' : Mam) (start n : ℕ) (r : Region)
    → IsValid m
    → reserve_region m start n ≡ (m', region r)
    → release_region m' (some r.handle) ≡ (record m { next_handle = suc m.next_handle }, none)
unfolding release_region reserve_region
release_region-reserve_region m m' start n r v e =
    elim (Option-cases (insert_region (make_region m start (last_offset m.cfg start n)) m.in_use)) [
      | inl clash ↦ ground arith
      | inr (out, i) ↦ ground (
        arith,
        v.fresh,
        erase_region-insert_region (make_region m start (last_offset m.cfg start n)) m.in_use out
            v.fresh i,
      )
    ]

all_within-Packed :
    (cfg : Config) (lo hi : ℕ) (rs : List Region)
    → all_within cfg rs ≡ true
    → Packed lo hi rs
    → Packed cfg.start_offset hi rs
unfolding all_within
all_within-Packed cfg lo hi [] w p = tt
all_within-Packed cfg lo hi (x ∷ xs) w (a, b, c, d) =
    (ground arith, b, c, all_within-Packed cfg lo x.start_offset xs (ground arith) d)

all_within-below :
    (cfg : Config) (lo hi : ℕ) (rs : List Region)
    → all_within cfg rs ≡ true
    → Packed lo hi rs
    → Packed lo (suc cfg.end_offset) rs
unfolding all_within
all_within-below cfg lo hi [] w p = tt
all_within-below cfg lo hi (x ∷ xs) w (a, b, c, d) = (a, b, ground arith, d)

-- A valid manager stays valid whatever configuration it is offered.
pub reconfigure-IsValid :
    (m : Mam) (cfg : Option Config) → IsValid m → IsValid (reconfigure m cfg).0
unfolding reconfigure
reconfigure-IsValid m none v = v
reconfigure-IsValid m (some cfg) v = elim (Bool-cases (cfg.n_bytes == m.cfg.n_bytes)) [
  | inr differ ↦ rw differ v
  | inl same ↦ rw same (elim (Bool-cases (all_within cfg m.in_use)) [
    | inr w ↦ rw w v
    | inl w ↦ rw w (record {
      unit = ground (arith, v.unit);
      packed = all_within-below cfg _ _ m.in_use w (all_within-Packed cfg _ _ m.in_use w v.packed);
      fresh = v.fresh;
    })
  ])
]

taken-all_within :
    (cfg : Config) (lo hi : ℕ) (rs : List Region)
    → Packed lo hi rs
    → ((a : ℕ) → taken rs a ≡ true → (cfg.start_offset ≤ a) × (a ≤ cfg.end_offset))
    → all_within cfg rs ≡ true
unfolding all_within taken
taken-all_within cfg lo hi [] p w = refl
taken-all_within cfg lo hi (x ∷ xs) (a, b, c, d) w = ground (
  arith,
  w x.start_offset,
  w x.end_offset,
  taken-all_within cfg lo x.start_offset xs d (λ k t. w k (ground arith)),
)

all_within-taken :
    (cfg : Config) (rs : List Region) (a : ℕ)
    → all_within cfg rs ≡ true
    → taken rs a ≡ true
    → (cfg.start_offset ≤ a) × (a ≤ cfg.end_offset)
unfolding all_within taken
all_within-taken cfg [] a w t = cc
all_within-taken cfg (x ∷ xs) a w t = ground (arith, all_within-taken cfg xs a)

-- In a valid manager, a configuration with the same size of a location is adopted, and the previous
-- one returned without an error, exactly when every taken address lies in its range. Otherwise the
-- manager is unchanged, and its own configuration is returned with an error.
pub reconfigure_adopts_iff :
    (m : Mam) (cfg : Config)
    → IsValid m
    → cfg.n_bytes ≡ m.cfg.n_bytes
    → ((reconfigure m (some cfg) ≡ (record m { cfg = cfg }, m.cfg, none))
        × ((a : ℕ) → taken m.in_use a ≡ true → (cfg.start_offset ≤ a) × (a ≤ cfg.end_offset)))
      ⊎ ((reconfigure m (some cfg) ≡ (m, m.cfg, some region_outside))
          × ¬ ((a : ℕ) → taken m.in_use a ≡ true → (cfg.start_offset ≤ a) × (a ≤ cfg.end_offset)))
unfolding reconfigure
reconfigure_adopts_iff m cfg v same = elim (Bool-cases (all_within cfg m.in_use)) [
  | inl w ↦ inl (ground arith, λ a. all_within-taken cfg m.in_use a w)
  | inr w ↦
      inr (ground arith, λ h. absurd (ground (arith, taken-all_within cfg _ _ m.in_use v.packed h)))
]
