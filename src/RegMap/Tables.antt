-- ===== src/RegMap/Tables.antt =====
-- The tables by address of the top map: m_init_address_map, m_set_reg_offset, get_reg_by_offset and
-- get_mem_by_offset of src/uvmsc/reg/uvm_reg_map.cpp. A register is a number, and its access in the map
-- is a function of it; the addresses of a register or memory are given, as get_physical_addresses
-- answers them. A warning is a value. The tables that the program orders by pointer stand in the order
-- in which they were filled. The callbacks that a shared address installs are left out.
use uvm_systemc.Common.{
  ℕ, ◌+◌, ◌-◌, ◌/◌, ◌%◌, ◌^◌, Bool, ◌&&◌, ◌||◌, Option, none, some, List, [], ◌∷◌, ◌++◌, ◌==◌, ltb,
  leb, if◌then◌else◌,
}
use uvm_systemc.Common.Maps.{Map, find, insert, erase, nat_key}

-- What `m_get_fields_access` answers: "RO", "WO", or something else.
pub data RegAccess : Type 0 where
  read_only write_only read_write : RegAccess

-- `uvm_reg_map_addr_range`
pub record Range : Type 0 where
  pub min : ℕ
  pub max : ℕ
  pub stride : ℕ

pub record Tables : Type 0 where
  pub regs_by_offset : Map ℕ ℕ
  pub regs_by_offset_wo : Map ℕ ℕ
  pub mems_by_offset : List (Range × ℕ)

pub data Warning : Type 0 where
  same_address : ℕ → ℕ → Warning
  in_memory : ℕ → ℕ → Warning

-- The register that is at the address already, and the one that comes.
unfoldable pub share : RegAccess → RegAccess → Tables → ℕ → ℕ → ℕ → Tables × List Warning
share write_only read_only t there rg a = (
  record t {
    regs_by_offset = insert a rg t.regs_by_offset;
    regs_by_offset_wo = insert a there t.regs_by_offset_wo;
  },
  [],
)
share read_only write_only t there rg a =
    (record t { regs_by_offset_wo = insert a rg t.regs_by_offset_wo }, [])
share _ _ t there rg a = (t, same_address rg there ∷ [])

-- The memories in whose range an address is.
unfoldable pub memories_at : List (Range × ℕ) → ℕ → ℕ → List Warning
memories_at [] rg a = []
memories_at ((range, mem) ∷ ms) rg a =
    let rest = memories_at ms rg a in
    if leb range.min a && leb a range.max then in_memory rg mem ∷ rest else rest

-- The register that comes, with the one that stands at the address, if one does.
unfoldable pub put : (ℕ → RegAccess) → Option ℕ → Tables → ℕ → ℕ → Tables × List Warning
unfolding share
put access none t rg a = (record t { regs_by_offset = insert a rg t.regs_by_offset }, [])
put access (some there) t rg a = share (access there) (access rg) t there rg a

-- A register is put at one address; `mems` are the memories that are looked through.
unfoldable pub place : (ℕ → RegAccess) → List (Range × ℕ) → Tables → ℕ → ℕ → Tables × List Warning
unfolding put memories_at
place access mems t rg a =
    let (t', warnings) = put access (find a t.regs_by_offset) t rg a in
    (t', warnings ++ memories_at mems rg a)

-- The registers, each at its addresses, one address after another.
unfoldable pub place_all :
    (ℕ → RegAccess) → List (Range × ℕ) → Tables → List (ℕ × ℕ) → Tables × List Warning
unfolding place
place_all access mems t [] = (t, [])
place_all access mems t ((rg, a) ∷ rest) =
    let (t', warnings) = place access mems t rg a in
    let (last, more) = place_all access mems t' rest in (last, warnings ++ more)

-- `get_reg_by_offset`, in a block that is locked or not.
unfoldable pub get_reg_by_offset : Tables → Bool → ℕ → Bool → Option ℕ
get_reg_by_offset t locked a read =
    let anyway = find a t.regs_by_offset in
    let written : Option ℕ = elim (find a t.regs_by_offset_wo) [
      | some rg ↦ some rg
      | none ↦ anyway
    ] in
    if locked then if read then anyway else written else none

-- The loop of `get_mem_by_offset`.
unfoldable pub mem_at : List (Range × ℕ) → ℕ → Option ℕ
mem_at [] a = none
mem_at ((range, mem) ∷ ms) a = if leb range.min a && leb a range.max then some mem else mem_at ms a

unfoldable pub get_mem_by_offset : Tables → Bool → ℕ → Option ℕ
unfolding mem_at
get_mem_by_offset t locked a = if locked then mem_at t.mems_by_offset a else none

-- `m_set_reg_offset` takes a register from one of its addresses: the table for reads loses the address
-- whatever register it has there, unless the address is shared. A shared address has a register for reads.
unfoldable pub take_from : Tables → ℕ → ℕ → Tables
take_from t rg a = elim (find a t.regs_by_offset_wo) [
  | none ↦ record t { regs_by_offset = erase a t.regs_by_offset }
  | some writer ↦
      let given_back = record t {
        regs_by_offset = insert a writer t.regs_by_offset;
        regs_by_offset_wo = erase a t.regs_by_offset_wo;
      } in
      let kept = record t { regs_by_offset_wo = erase a t.regs_by_offset_wo } in
      elim (find a t.regs_by_offset) [
        | none ↦ kept
        | some there ↦ if there == rg then given_back else kept
      ]
]

unfoldable pub take_from_all : Tables → ℕ → List ℕ → Tables
unfolding take_from
take_from_all t rg [] = t
take_from_all t rg (a ∷ as_left) = take_from_all (take_from t rg a) rg as_left

-- Each of the addresses with the register.
abbrev pub each_with : ℕ → List ℕ → List (ℕ × ℕ)
each_with rg [] = []
each_with rg (a ∷ rest) = (rg, a) ∷ each_with rg rest

-- `m_set_reg_offset` in a locked block, on the table of the top map: the register is taken from its
-- addresses unless it was unmapped, and put at the new ones unless it is to be unmapped.
unfoldable pub m_set_reg_offset :
    (ℕ → RegAccess) → Tables → ℕ → List ℕ → Bool → List ℕ → Bool → Tables × List Warning
unfolding take_from_all place_all
m_set_reg_offset access t rg addrs was_unmapped new_addrs unmapped =
    let removed = if was_unmapped then t else take_from_all t rg addrs in
    if unmapped
    then (removed, [])
    else place_all access removed.mems_by_offset removed (each_with rg new_addrs)

-- The first and the last of the addresses of a memory; there is one at least.
abbrev pub front : List ℕ → ℕ
front [] = 0
front (a ∷ rest) = a

abbrev pub back : List ℕ → ℕ
back [] = 0
back (a ∷ []) = a
back (a ∷ b ∷ rest) = back (b ∷ rest)

-- The registers within a range, in the order of the table.
unfoldable pub registers_in : Map ℕ ℕ → ℕ → ℕ → ℕ → List Warning
registers_in [] mem low high = []
registers_in ((a, rg) ∷ rest) mem low high =
    let more = registers_in rest mem low high in
    if leb low a && leb a high then in_memory rg mem ∷ more else more

-- The memories whose ranges overlap.
abbrev pub overlaps : Range → ℕ → ℕ → Bool
overlaps r low high =
    (leb low r.max && leb r.max high)
    || (leb low r.min && leb r.min high)
    || (leb r.min low && leb high r.max)

unfoldable pub memories_over : List (Range × ℕ) → ℕ → ℕ → ℕ → List Warning
memories_over [] mem low high = []
memories_over ((range, other) ∷ ms) mem low high =
    let more = memories_over ms mem low high in
    if overlaps range low high then same_address mem other ∷ more else more

-- A memory of `size` words is entered: the addresses of its first word and of its last. The stride
-- divides by `size - 1`, so a memory of one word ends the program: `none`.
unfoldable pub place_mem :
    List (Range × ℕ) → Tables → ℕ → ℕ → List ℕ → List ℕ → Option (Tables × List Warning)
unfolding registers_in memories_over
place_mem mems t mem size addrs addrs_max =
    let low = if ltb (front addrs) (back addrs) then front addrs else back addrs in
    let high = if ltb (back addrs_max) (front addrs_max) then front addrs_max else back addrs_max in
    let apart = (front addrs_max + 2 ^ 64 - front addrs) % 2 ^ 64 in
    let range : Range = record { min = low; max = high; stride = apart / (size - 1) % 2 ^ 32 } in
    if size == 1
    then none
    else some (
      record t { mems_by_offset = t.mems_by_offset ++ (range, mem) ∷ [] },
      registers_in t.regs_by_offset mem low high ++ memories_over mems mem low high,
    )
