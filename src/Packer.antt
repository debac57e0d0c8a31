-- ===== src/Packer.antt =====
-- The packer: src/uvmsc/policy/uvm_packer.cpp. A value of n bits is a list of n bits, the lowest first,
-- and a character is eight of them. `bits` are those of `m_bits`, which has `max_size` of them and is
-- null if that is 0; a new vector is zero, and an assignment between vectors extends with zeros. Sizes
-- and indices stay below 2^31. Reports are left out, and so are real numbers and times, which are packed
-- as their 64 bits, the objects' own `do_pack`, and vectors of four-valued logic.
pub mod Storage
pub mod Queue
pub mod Fields
pub mod Strings
pub mod Items
pub mod Packing
pub mod Refinement
pub mod Transfer
mod Samples
use uvm_systemc.Common.{
  ℕ, zero, suc, ◌+◌, ◌-◌, ◌*◌, ◌/◌, Bool, true, false, not, ◌&&◌, ◌||◌, Option, none, some, List,
  [], ◌∷◌, ◌++◌, ◌==◌, ltb, leb, if◌then◌else◌, length, get_elem?, take, replicate,
}
use mathlib.Core.List.{reverse}

pub record Packer : Type 0 where
  pub big_endian : Bool
  pub use_metadata : Bool
  pub bits : ℕ → Bool
  pub size : ℕ
  pub max_size : ℕ
  pub pack_index : ℕ
  pub unpack_index : ℕ

abbrev pub no_bits : ℕ → Bool
no_bits i = false

abbrev pub new_packer : Packer
new_packer = record {
  big_endian = false;
  use_metadata = false;
  bits = no_bits;
  size = 0;
  max_size = 0;
  pack_index = 0;
  unpack_index = 0;
}

abbrev pub block_size : ℕ
block_size = 4096

-- The bits of a vector, extended to a larger one.
abbrev pub extended : ℕ → (ℕ → Bool) → ℕ → Bool
extended old bits i = if ltb i old then bits i else false

unfoldable pub m_allocate : Packer → ℕ → Bool → Packer
m_allocate p nbits copy =
    let size = ((p.pack_index + nbits - 1) / block_size + 1) * block_size in
    if ltb p.max_size size
    then record p {
      size = size;
      max_size = size;
      bits = if copy then extended p.max_size p.bits else no_bits;
    }
    else record p { size = size }

unfoldable pub m_check_size : Packer → ℕ → Packer
m_check_size p nbits = if leb (p.size - p.pack_index) nbits then m_allocate p nbits true else p

-- A vector after a write of bits from an index on.
unfoldable pub write : (ℕ → Bool) → ℕ → List Bool → ℕ → Bool
write bits k vs i =
    if ltb i k then bits i else elim (get_elem? vs (i - k)) [ none ↦ bits i | some b ↦ b ]

-- The bits of a range, from an index on.
abbrev pub read : (ℕ → Bool) → ℕ → ℕ → List Bool
read bits k zero = []
read bits k (suc n) = bits k ∷ read bits (suc k) n

-- `m_check_size`, the write at `pack_index`, and the step of the index.
unfoldable pub pack_bits : Packer → List Bool → Packer
pack_bits p vs =
    let q = m_check_size p (length vs) in
    record q { bits = write q.bits q.pack_index vs; pack_index = q.pack_index + length vs }

abbrev pub swap : Packer → List Bool → List Bool
swap p vs = if p.big_endian then reverse vs else vs

-- `pack_field_int` and `pack_field`, of a value of 64 bits; the size is from 1 to 64.
unfoldable pub pack_field_int : Packer → List Bool → ℕ → Packer
pack_field_int p value size = pack_bits p (swap p (take size value))

unfoldable pub pack_char : Packer → List Bool → Packer
pack_char p c = pack_bits p (swap p c)

abbrev pub null_char : List Bool
null_char = replicate 8 false

abbrev pub pack_chars : Packer → List (List Bool) → Packer
pack_chars p [] = p
pack_chars p (c ∷ cs) = pack_chars (pack_char p c) cs

unfoldable pub pack_string : Packer → List (List Bool) → Packer
pack_string p cs = let q = pack_chars p cs in if q.use_metadata then pack_char q null_char else q

unfoldable pub pack_bool : Packer → Bool → Packer
pack_bool p b = pack_bits p (b ∷ [])

unfoldable pub pack_sc_bv_base : Packer → List Bool → Packer
pack_sc_bv_base p vs = pack_bits p vs

-- The loop of `pack_sc_int_base`, `pack_sc_uint_base`, `pack_sc_signed` and `pack_sc_unsigned`.
abbrev pub set_bits : Packer → List Bool → Packer
set_bits p [] = p
set_bits p (b ∷ bs) =
    set_bits (record p { bits = write p.bits p.pack_index (b ∷ []); pack_index = p.pack_index + 1 })
      bs

unfoldable pub pack_sc_int_base : Packer → List Bool → Packer
pack_sc_int_base p vs = set_bits (m_check_size p (length vs)) vs

unfoldable pub m_enough_bits : Packer → ℕ → Bool
m_enough_bits p needed = leb needed (p.pack_index - p.unpack_index)

abbrev pub inc_unpack_index : Packer → ℕ → Packer
inc_unpack_index p n = record p { unpack_index = p.unpack_index + n }

abbrev pub pad : ℕ → List Bool → List Bool
pad n vs = vs ++ replicate (n - length vs) false

-- `unpack_field_int` and `unpack_field`, into a value of 64 bits.
unfoldable pub unpack_field_int : Packer → ℕ → Packer × List Bool
unfolding m_enough_bits
unpack_field_int p size =
    if m_enough_bits p size
    then (inc_unpack_index p size, pad 64 (swap p (read p.bits p.unpack_index size)))
    else (p, replicate 64 false)

unfoldable pub unpack_char : Packer → Packer × List Bool
unpack_char p = (inc_unpack_index p 8, swap p (read p.bits p.unpack_index 8))

unfoldable pub unpack_bool : Packer → Packer × Bool
unpack_bool p = (inc_unpack_index p 1, p.bits p.unpack_index)

unfoldable pub unpack_sc_bv_base : Packer → ℕ → Packer × List Bool
unpack_sc_bv_base p n = (inc_unpack_index p n, read p.bits p.unpack_index n)

-- The loop of `unpack_sc_int_base` and its three companions, which does not check the index.
unfoldable pub unpack_sc_int_base : Packer → ℕ → Packer × List Bool
unpack_sc_int_base p zero = (p, [])
unpack_sc_int_base p (suc n) =
    let (q, bs) = unpack_sc_int_base (inc_unpack_index p 1) n in (q, p.bits p.unpack_index ∷ bs)

abbrev pub any : List Bool → Bool
any [] = false
any (b ∷ bs) = if b then true else any bs

-- The loop of `unpack_string`; `chars` are those that may still be taken, if they are counted. The fuel
-- is one more than the number of characters that there can be.
unfoldable pub unpack_chars : ℕ → Packer → Option ℕ → Packer × List (List Bool)
unfolding m_enough_bits
unpack_chars zero p chars = (p, [])
unpack_chars (suc fuel) p none =
    let (q, cs) = unpack_chars fuel (inc_unpack_index p 8) none in
    if m_enough_bits p 8 && any (read p.bits p.unpack_index 8)
    then (q, swap p (read p.bits p.unpack_index 8) ∷ cs)
    else (p, [])
unpack_chars (suc fuel) p (some zero) = (p, [])
unpack_chars (suc fuel) p (some (suc n)) =
    let (q, cs) = unpack_chars fuel (inc_unpack_index p 8) (some n) in
    if m_enough_bits p 8 then (q, swap p (read p.bits p.unpack_index 8) ∷ cs) else (p, [])

-- `num_chars` is `none` for -1.
unfoldable pub unpack_string : Packer → Option ℕ → Packer × List (List Bool)
unfolding m_enough_bits
unpack_string p num_chars =
    let (q, cs) = unpack_chars (suc ((p.pack_index - p.unpack_index) / 8)) p num_chars in
    if q.use_metadata && m_enough_bits q 8 then (inc_unpack_index q 8, cs) else (q, cs)

unfoldable pub reset : Packer → Packer
reset p = record p { pack_index = 0; unpack_index = 0; size = 0 }

-- `put_bits`; the two orders of its loop write the same.
unfoldable pub put_bits : Packer → List Bool → Packer
unfolding reset m_allocate
put_bits p vs =
    let q = m_allocate (reset p) (length vs) false in
    record q { bits = write q.bits 0 vs; pack_index = length vs }

unfoldable pub get_remaining_unpacked_bits : Packer → ℕ
get_remaining_unpacked_bits p = p.pack_index - p.unpack_index

-- `get_bits` reads from the start of the vector, wherever the unpacking stands.
unfoldable pub get_bits : Packer → List Bool
unfolding get_remaining_unpacked_bits
get_bits p = read p.bits 0 (get_remaining_unpacked_bits p)

unfoldable pub get_packed_size : Packer → ℕ
get_packed_size p = p.pack_index

abbrev pub in_chunks : ℕ → ℕ → (ℕ → Bool) → ℕ → List (List Bool)
in_chunks zero width bits k = []
in_chunks (suc n) width bits k = read bits k width ∷ in_chunks n width bits (k + width)

abbrev pub swap_all : Packer → List (List Bool) → List (List Bool)
swap_all p [] = []
swap_all p (c ∷ cs) = swap p c ∷ swap_all p cs

abbrev pub concat : List (List Bool) → List Bool
concat [] = []
concat (c ∷ cs) = c ++ concat cs

-- `put_bytes` with chunks of 8 bits and `put_ints` with chunks of 32.
unfoldable pub put_chunks : ℕ → Packer → List (List Bool) → Packer
unfolding reset m_allocate
put_chunks width p cs =
    let q = m_allocate (reset p) (length cs * width) false in
    record q { bits = write q.bits 0 (concat (swap_all q cs)); pack_index = width * length cs }

-- `get_bytes` and `get_ints`. With nothing left, `n - 1` wraps to 2^32 - 1.
unfoldable pub get_chunks : ℕ → Packer → List (List Bool)
unfolding get_remaining_unpacked_bits
get_chunks width p =
    let n = get_remaining_unpacked_bits p in
    swap_all p (in_chunks (1 + (if n == 0 then 0xffffffff else n - 1) / width) width p.bits 0)
