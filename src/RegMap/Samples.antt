-- ===== src/RegMap/Samples.antt =====
-- Addresses of small hierarchies of maps.
use uvm_systemc.Common.{
  List, All, ◌==◌, if◌then◌else◌, ℕ, ◌≡◌, ◌≢◌, ◌≤◌, ◌*◌, refl, Bool, true, false, some, [], ◌∷◌,
  arith, get_elem?,
}
use uvm_systemc.RegMap.{Endianness, RegMap, local_addrs, get_physical_addresses}
use uvm_systemc.Common.Maps.{find, insert}
use uvm_systemc.RegMap.Tables.{
  RegAccess, read_only, write_only, read_write, same_address, share, put, place, place_all,
  memories_at,
}
use uvm_systemc.RegMap.Entries.{no_registers}
use uvm_systemc.RegMap.Decoding.{Decoded, place_all-decodes}
use uvm_systemc.RegMap.Consecutive.{consecutive, get_physical_addresses-consecutive}
use uvm_systemc.RegMap.Order.{get_physical_addresses-place}

abbrev bus : ℕ → Bool → Endianness → RegMap
bus n bytes e = record {
  base_addr = 0x1000;
  n_bytes = n;
  endian = e;
  byte_addressing = bytes;
  submap_offset = 0x40;
}

abbrev block : RegMap
block = bus 4 true Endianness.big_endian

abbrev top : RegMap
top = bus 2 true Endianness.little_endian

abbrev words : ℕ → RegMap
words n = bus n false Endianness.little_endian

get_physical_addresses-consecutive_example :
    ((get_physical_addresses (words 4) (words 2 ∷ []) 4 0 8).0 ≡ consecutive 4 0x1048)
    × ((get_physical_addresses (words 4) (words 2 ∷ []) 4 0 8).1 ≡ 2)
    × (8 ≤ (get_physical_addresses (words 4) (words 2 ∷ []) 4 0 8).1 * 4)
get_physical_addresses-consecutive_example =
    get_physical_addresses-consecutive (words 4) (words 2 ∷ []) 4 0 8 (omega arith)
      ((omega arith, refl, refl), ((omega arith, refl, refl), tt))

big_is_known : Endianness.big_endian ≢ Endianness.no_endian
big_is_known e = absurd (cc)

get_physical_addresses-place_example :
    get_elem? (get_physical_addresses block [] 8 1 8).0 0 ≡ some 0x1014
get_physical_addresses-place_example =
    get_physical_addresses-place block 8 1 8 0 (omega arith) big_is_known (omega arith)

-- A register at byte 4 of a block is found at byte 8 of the parent's bus, which is half as wide.
scaled_bytes : (get_physical_addresses block (top ∷ []) 4 0 4).0 ≡ 0x1048 ∷ 0x104a ∷ []
unfolding get_physical_addresses local_addrs
scaled_bytes = refl

-- The words 0 and 1 of a block with word addresses are one byte apart on a parent with byte addresses.
words_overlap :
    (get_physical_addresses (bus 4 false Endianness.little_endian) (block ∷ []) 1 0 4).0
    ≡ 0x1041 ∷ []
unfolding get_physical_addresses local_addrs
words_overlap = refl

-- A read-only register shares an address with a write-only one; a third has its own.
abbrev kinds : ℕ → RegAccess
kinds rg = if rg == 1 then read_only else if rg == 2 then write_only else read_write

abbrev at_addresses : List (ℕ × ℕ)
at_addresses = (2, 0x10) ∷ (1, 0x10) ∷ (3, 0x14) ∷ []

at_addresses_silent : (place_all kinds [] no_registers at_addresses).1 ≡ []
unfolding place_all place put share memories_at find insert
at_addresses_silent = refl

place_all-decodes_example :
    All (Decoded kinds (place_all kinds [] no_registers at_addresses).0) at_addresses
place_all-decodes_example = place_all-decodes kinds [] at_addresses at_addresses_silent

-- A read-write register cannot share an address: the second is refused with a warning.
a_second_register :
    (place_all kinds [] no_registers ((3, 0x10) ∷ (4, 0x10) ∷ [])).1 ≡ same_address 4 3 ∷ []
unfolding place_all place put share memories_at find insert
a_second_register = refl
