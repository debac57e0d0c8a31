-- ===== src/Packer/Storage.antt =====
-- The storage of a packer as a queue of bits: what is packed and not yet unpacked.
use uvm_systemc.Common.{
  ℕ, zero, suc, ◌+◌, ◌-◌, ◌*◌, ◌/◌, ◌≤◌, ◌<◌, ◌≡◌, refl, ap, ◌∙◌, Bool, true, some, List, [], ◌∷◌,
  ◌++◌, arith, leb, length, get_elem?, Bool-cases, inl, inr,
}
use uvm_systemc.Packer.{Packer, write, read, m_allocate, m_check_size, pack_bits}

-- The bits that are packed lie within the vector, and what is unpacked has been packed.
pub record IsValid (p : Packer) : Type 0 where
  pub ordered : p.unpack_index ≤ p.pack_index
  pub sized : p.pack_index ≤ p.size
  pub stored : p.size ≤ p.max_size

-- The bits packed and not yet unpacked, in their order.
unfoldable pub contents : Packer → List Bool
contents p = read p.bits p.unpack_index (p.pack_index - p.unpack_index)

read_congr :
    (f g : ℕ → Bool) (k n : ℕ) → ((i : ℕ) → i < k + n → f i ≡ g i) → read f k n ≡ read g k n
read_congr f g k zero e = refl
read_congr f g k (suc n) e =
    cc (e k (omega arith), read_congr f g (suc k) n (λ i h. e i (omega (arith, h))))

pub read-append : (f : ℕ → Bool) (k n m : ℕ) → read f k (n + m) ≡ read f k n ++ read f (k + n) m
read-append f k zero m =
    let e : 0 + m ≡ m = omega arith in let e' : k + 0 ≡ k = omega arith in rw (e, e') refl
read-append f k (suc n) m =
    let e : suc n + m ≡ suc (n + m) = omega arith in
    let e' : k + suc n ≡ suc k + n = omega arith in
    rw (e, e') (ap (λ xs. f k ∷ xs) (read-append f (suc k) n m))

pub length-read : (f : ℕ → Bool) (k n : ℕ) → length (read f k n) ≡ n
length-read f k zero = refl
length-read f k (suc n) = ap suc (length-read f (suc k) n)

write_at :
    (f : ℕ → Bool) (k i : ℕ) (vs : List Bool) (b : Bool)
    → k ≤ i
    → get_elem? vs (i - k) ≡ some b
    → write f k vs i ≡ b
unfolding write
write_at f k i vs b le e = ground arith

-- A list is read back from where its elements stand.
read_there :
    (f : ℕ → Bool) (j : ℕ) (vs : List Bool)
    → ((i : ℕ) (b : Bool) → get_elem? vs i ≡ some b → f (j + i) ≡ b)
    → read f j (length vs) ≡ vs
read_there f j [] h = refl
read_there f j (v ∷ vs) h =
    let here : f j ≡ v = ap f (omega arith) ∙ h 0 v refl in
    cc (here, read_there f (suc j) vs (λ i b e. ap f (omega arith) ∙ h (suc i) b e))

pub read-write_below :
    (f : ℕ → Bool) (k : ℕ) (vs : List Bool) (j n : ℕ)
    → j + n ≤ k
    → read (write f k vs) j n ≡ read f j n
unfolding write
read-write_below f k vs j n below = read_congr (write f k vs) f j n (λ i h. ground arith)

pub read-write : (f : ℕ → Bool) (k : ℕ) (vs : List Bool) → read (write f k vs) k (length vs) ≡ vs
read-write f k vs =
    read_there (write f k vs) k vs
      (λ i b e. write_at f k (k + i) vs b (omega arith) (ap (get_elem? vs) (omega arith) ∙ e))

allocate_room : (total : ℕ) → total ≤ ((total - 1) / 4096 + 1) * 4096
allocate_room total = omega arith

-- Allocation makes room for as many bits as are asked for, and keeps those that are packed.
m_allocate_lem :
    (p : Packer) (n : ℕ)
    → p.pack_index ≤ p.max_size
    → (p.pack_index + n ≤ Packer.size (m_allocate p n true))
      × (Packer.size (m_allocate p n true) ≤ Packer.max_size (m_allocate p n true))
      × ((i : ℕ) → i < p.pack_index → Packer.bits (m_allocate p n true) i ≡ p.bits i)
unfolding m_allocate
m_allocate_lem p n stored =
    (ground (arith, allocate_room (p.pack_index + n)), ground arith, λ i h. ground arith)

m_check_size_lem :
    (p : Packer) (n : ℕ)
    → IsValid p
    → (p.pack_index + n ≤ Packer.size (m_check_size p n))
      × (Packer.size (m_check_size p n) ≤ Packer.max_size (m_check_size p n))
      × ((i : ℕ) → i < p.pack_index → Packer.bits (m_check_size p n) i ≡ p.bits i)
unfolding m_check_size
m_check_size_lem p n v = elim (Bool-cases (leb (p.size - p.pack_index) n)) [
  | inl full ↦ rw full (m_allocate_lem p n (omega arith))
  | inr room ↦ rw room (ground arith, v.stored, λ i h. refl)
]

m_check_size_keeps :
    (p : Packer) (n : ℕ)
    → (Packer.pack_index (m_check_size p n) ≡ p.pack_index)
      × (Packer.unpack_index (m_check_size p n) ≡ p.unpack_index)
      × (Packer.big_endian (m_check_size p n) ≡ p.big_endian)
      × (Packer.use_metadata (m_check_size p n) ≡ p.use_metadata)
unfolding m_check_size m_allocate
m_check_size_keeps p n = ground arith

read_written :
    (f : ℕ → Bool) (u k : ℕ) (vs : List Bool)
    → u ≤ k
    → read (write f k vs) u (k + length vs - u) ≡ read f u (k - u) ++ vs
read_written f u k vs le =
    let e : k + length vs - u ≡ (k - u) + length vs = omega arith in
    let e' : u + (k - u) ≡ k = omega arith in
    ap (read (write f k vs) u) e
    ∙ read-append (write f k vs) u (k - u) (length vs)
    ∙ cc (
      read-write_below f k vs u (k - u) (omega arith),
      ap (λ j. read (write f k vs) j (length vs)) e',
      read-write f k vs,
    )

-- What packing does, written on the fields of the packer after the size check.
contents_written :
    (p q : Packer) (vs : List Bool)
    → q.pack_index ≡ p.pack_index
    → q.unpack_index ≡ p.unpack_index
    → ((i : ℕ) → i < p.pack_index → q.bits i ≡ p.bits i)
    → p.unpack_index ≤ p.pack_index
    → read (write q.bits q.pack_index vs) q.unpack_index (q.pack_index + length vs - q.unpack_index)
      ≡ read p.bits p.unpack_index (p.pack_index - p.unpack_index) ++ vs
contents_written p q vs e e' same le =
    read_written q.bits q.unpack_index q.pack_index vs (omega (arith, e, e'))
    ∙ cc (
      e,
      e',
      read_congr q.bits p.bits p.unpack_index (p.pack_index - p.unpack_index)
          (λ i h. same i (omega (arith, h))),
    )

-- Packing appends to the queue, for any bits.
pub contents-pack_bits :
    (p : Packer) (vs : List Bool) → IsValid p → contents (pack_bits p vs) ≡ contents p ++ vs
unfolding contents pack_bits
contents-pack_bits p vs v =
    let keeps = m_check_size_keeps p (length vs) in
    contents_written p (m_check_size p (length vs)) vs keeps.0 keeps.1
      (m_check_size_lem p (length vs) v).2 v.ordered

pub pack_bits-IsValid : (p : Packer) (vs : List Bool) → IsValid p → IsValid (pack_bits p vs)
unfolding pack_bits
pack_bits-IsValid p vs v =
    let keeps = m_check_size_keeps p (length vs) in
    let room = m_check_size_lem p (length vs) v in
    record {
      ordered = omega (arith, keeps.0, keeps.1, v.ordered);
      sized = omega (arith, keeps.0, room.0);
      stored = room.1;
    }

pub pack_bits_keeps :
    (p : Packer) (vs : List Bool)
    → (Packer.big_endian (pack_bits p vs) ≡ p.big_endian)
      × (Packer.use_metadata (pack_bits p vs) ≡ p.use_metadata)
      × (Packer.unpack_index (pack_bits p vs) ≡ p.unpack_index)
unfolding pack_bits
pack_bits_keeps p vs = let keeps = m_check_size_keeps p (length vs) in (keeps.2, keeps.3, keeps.1)
