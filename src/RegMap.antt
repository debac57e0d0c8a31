-- ===== src/RegMap.antt =====
-- The addresses of a register map: src/uvmsc/reg/uvm_reg_map.cpp. A map is given with the maps above it,
-- from its parent to the top; each has the offset that its parent keeps for it in `m_submaps`. Addresses
-- are words of 64 bits. Bus widths are from 1 up; sizes and counts stay below 2^31. Reports are left out.
pub mod Coverage
pub mod Addresses
pub mod Order
pub mod Consecutive
pub mod Tables
pub mod Entries
pub mod Decoding
mod Samples
use mathlib.Core.List.{map}
use uvm_systemc.Common.{
  ℕ, zero, suc, ◌+◌, ◌-◌, ◌*◌, ◌/◌, ◌%◌, ◌^◌, Bool, true, false, List, [], ◌∷◌, ◌++◌, ◌==◌, ltb,
  leb, if◌then◌else◌, replicate,
}

pub data Endianness : Type 0 where
  no_endian : Endianness
  little_endian : Endianness
  big_endian : Endianness
  little_fifo : Endianness
  big_fifo : Endianness

pub record RegMap : Type 0 where
  pub base_addr : ℕ
  pub n_bytes : ℕ
  pub endian : Endianness
  pub byte_addressing : Bool
  pub submap_offset : ℕ

abbrev pub word : ℕ → ℕ
word a = a % 2 ^ 64

abbrev pub multiplier : RegMap → ℕ
multiplier m = if m.byte_addressing then m.n_bytes else 1

abbrev pub ascending : ℕ → ℕ → ℕ → ℕ → List ℕ
ascending zero base step i = []
ascending (suc n) base step i = word (base + i * step) ∷ ascending n base step (suc i)

abbrev pub descending : ℕ → ℕ → ℕ → List ℕ
descending zero base step = []
descending (suc n) base step = word (base + n * step) ∷ descending n base step

-- The accesses of more than one address. Without an endianness the addresses stay as they were made.
abbrev pub spread : Endianness → ℕ → ℕ → ℕ → List ℕ
spread Endianness.little_endian n base step = ascending n base step 0
spread Endianness.big_endian n base step = descending n base step
spread Endianness.little_fifo n base step = replicate n base
spread Endianness.big_fifo n base step = replicate n base
spread Endianness.no_endian n base step = replicate n 0

-- The addresses within the map.
unfoldable pub local_addrs : RegMap → ℕ → ℕ → ℕ → List ℕ
local_addrs m base mem_offset n_bytes =
    let n = (n_bytes - 1) / m.n_bytes + 1 in
    if leb n_bytes m.n_bytes
    then word (base + mem_offset * multiplier m) ∷ []
    else spread m.endian n (word (base + mem_offset * (n * multiplier m))) (multiplier m)

-- The loop over the local addresses: the addresses above, and the width that the last call answered.
abbrev pub each : (ℕ → List ℕ × ℕ) → List ℕ → ℕ → List ℕ × ℕ
each above [] w = ([], w)
each above (a ∷ rest_of) w =
    let r = above a in let rest = each above rest_of r.1 in (r.0 ++ rest.0, rest.1)

-- The scale of a local address in the parent.
abbrev pub scale : RegMap → RegMap → ℕ
scale m up = if leb up.n_bytes m.n_bytes then (m.n_bytes - 1) / up.n_bytes + 1 else 1

-- The physical addresses, and the number of bytes of each access.
unfoldable pub get_physical_addresses : RegMap → List RegMap → ℕ → ℕ → ℕ → List ℕ × ℕ
unfolding local_addrs
get_physical_addresses m [] base mem_offset n_bytes =
    if n_bytes == 0
    then ([], 0)
    else (map (λ a. word (a + m.base_addr)) (local_addrs m base mem_offset n_bytes), m.n_bytes)
get_physical_addresses m (up ∷ ups) base mem_offset n_bytes =
    let r =
      each
        (λ a. get_physical_addresses up ups (word (m.submap_offset + a * scale m up)) 0 m.n_bytes)
        (local_addrs m base mem_offset n_bytes) m.n_bytes in
    if n_bytes == 0 then ([], 0) else (r.0, if ltb r.1 m.n_bytes then r.1 else m.n_bytes)

-- `get_base_addr` over the hierarchy.
unfoldable pub get_base_addr : RegMap → List RegMap → ℕ
get_base_addr m [] = m.base_addr
get_base_addr m (up ∷ ups) = word (m.submap_offset + get_base_addr up ups)

abbrev pub get_addr_unit_bytes : RegMap → ℕ
get_addr_unit_bytes m = if m.byte_addressing then 1 else m.n_bytes
