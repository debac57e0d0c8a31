-- ===== src/Packer/Transfer.antt =====
-- What one packer holds is handed to another as bits, bytes or words.
use uvm_systemc.Common.{
  ℕ, suc, ◌+◌, ◌-◌, ◌*◌, ◌/◌, ◌≤◌, ◌<◌, ◌≡◌, refl, ap, sym, ◌∙◌, subst, Bool, true, false, List, [],
  ◌∷◌, ◌++◌, arith, ◌==◌, if◌then◌else◌, ◌⊎◌, inl, inr, length, All, map, length-append,
}
use mathlib.Core.List.{append-nil, reverse}
use uvm_systemc.Packer.{
  Packer, reset, read, write, swap, swap_all, concat, in_chunks, m_allocate, put_bits, get_bits,
  put_chunks, get_chunks, get_remaining_unpacked_bits,
}
use uvm_systemc.Packer.Storage.{IsValid, contents, read-write, read-append, length-read}
use uvm_systemc.Packer.Queue.{append_cancel}
use uvm_systemc.Packer.Fields.{swap-swap, length-swap}
use uvm_systemc.Packer.Items.{Item, shape, trimmed, IsItem, pack_all, unpack_all, all_bits}
use uvm_systemc.Packer.Packing.{all_bits_same, pack_all-Put, unpack_all-Took}

reset-IsValid : (p : Packer) → IsValid (reset p)
unfolding reset
reset-IsValid p = record { ordered = omega arith; sized = omega arith; stored = omega arith }

meta_reset : (p : Packer) → Packer.use_metadata (reset p) ≡ p.use_metadata
unfolding reset
meta_reset p = refl

order_reset : (p : Packer) → Packer.big_endian (reset p) ≡ p.big_endian
unfolding reset
order_reset p = refl

front_reset : (p : Packer) → Packer.unpack_index (reset p) ≡ 0
unfolding reset
front_reset p = refl

swap_twice : (p q : Packer) (c : List Bool) → q.big_endian ≡ p.big_endian → swap q (swap p c) ≡ c
swap_twice p q c e = ap (λ b. if b then reverse (swap p c) else swap p c) e ∙ swap-swap p c

contents-reset : (p : Packer) → contents (reset p) ≡ []
unfolding reset contents
contents-reset p = refl

allocate_room : (n : ℕ) → n ≤ ((0 + n - 1) / 4096 + 1) * 4096
allocate_room n = omega arith

put_bits-IsValid : (p : Packer) (vs : List Bool) → IsValid (put_bits p vs)
unfolding put_bits reset m_allocate
put_bits-IsValid p vs = record {
  ordered = ground arith;
  sized = ground (arith, allocate_room (length vs));
  stored = ground arith;
}

put_bits_keeps :
    (p : Packer) (vs : List Bool)
    → (Packer.unpack_index (put_bits p vs) ≡ 0)
      × (Packer.pack_index (put_bits p vs) ≡ length vs)
      × (Packer.big_endian (put_bits p vs) ≡ p.big_endian)
      × (Packer.use_metadata (put_bits p vs) ≡ p.use_metadata)
unfolding put_bits reset m_allocate
put_bits_keeps p vs = ground arith

put_bits_there :
    (p : Packer) (vs : List Bool) → read (Packer.bits (put_bits p vs)) 0 (length vs) ≡ vs
unfolding put_bits
put_bits_there p vs = read-write (Packer.bits (m_allocate (reset p) (length vs) false)) 0 vs

contents-put_bits : (p : Packer) (vs : List Bool) → contents (put_bits p vs) ≡ vs
unfolding contents
contents-put_bits p vs =
    let k = put_bits_keeps p vs in
    ap (λ u. read (Packer.bits (put_bits p vs)) u (Packer.pack_index (put_bits p vs) - u)) k.0
    ∙ ap (read (Packer.bits (put_bits p vs)) 0) (omega (arith, k.1))
    ∙ put_bits_there p vs

-- Before anything is unpacked, `get_bits` gives what is queued.
get_bits_fresh : (p : Packer) → p.unpack_index ≡ 0 → get_bits p ≡ contents p
unfolding get_bits contents get_remaining_unpacked_bits
get_bits_fresh p e = ap (λ u. read p.bits u (p.pack_index - p.unpack_index)) (sym e)

-- Items packed into a packer that has been reset, handed to any other with the same options by `get_bits`
-- and `put_bits`, are unpacked there as they were, each integral value with the bits that were packed, and
-- no bit is left.
pub unpack_all-put_bits :
    (p q : Packer) (is : List Item)
    → p.use_metadata ≡ true
    → q.use_metadata ≡ true
    → q.big_endian ≡ p.big_endian
    → All IsItem is
    → ((unpack_all (put_bits q (get_bits (pack_all (reset p) is))) (map shape is)).1
        ≡ map trimmed is)
      × (contents (unpack_all (put_bits q (get_bits (pack_all (reset p) is))) (map shape is)).0
          ≡ [])
unpack_all-put_bits p q is meta meta' order ok =
    let r = pack_all (reset p) is in
    let put = pack_all-Put (reset p) is (reset-IsValid p) (meta_reset p ∙ meta) in
    let keeps = put_bits_keeps q (get_bits r) in
    let sent : get_bits r ≡ all_bits (reset p) is =
      get_bits_fresh r (put.same_front ∙ front_reset p)
      ∙ put.appended
      ∙ ap (λ vs. vs ++ all_bits (reset p) is) (contents-reset p) in
    let queued : contents (put_bits q (get_bits r)) ≡ all_bits (put_bits q (get_bits r)) is ++ [] =
      contents-put_bits q (get_bits r)
      ∙ sent
      ∙ sym (
          all_bits_same (reset p) (put_bits q (get_bits r)) is
            (keeps.2 ∙ order ∙ sym (order_reset p)))
      ∙ sym (append-nil _) in
    let t =
      unpack_all-Took (put_bits q (get_bits r)) is [] (put_bits-IsValid q (get_bits r))
        (keeps.3 ∙ meta') ok queued in
    (t.value, t.left)

swap_all-swap_all :
    (p q : Packer) (cs : List (List Bool))
    → q.big_endian ≡ p.big_endian
    → swap_all q (swap_all p cs) ≡ cs
swap_all-swap_all p q [] e = refl
swap_all-swap_all p q (c ∷ cs) e = cc (swap_twice p q c e, swap_all-swap_all p q cs e)

length-swap_all : (p : Packer) (cs : List (List Bool)) → length (swap_all p cs) ≡ length cs
length-swap_all p [] = refl
length-swap_all p (c ∷ cs) = ap suc (length-swap_all p cs)

HasWidth-swap_all :
    (w : ℕ) (p : Packer) (cs : List (List Bool))
    → All (λ c. length c ≡ w) cs
    → All (λ c. length c ≡ w) (swap_all p cs)
HasWidth-swap_all w p [] ok = tt
HasWidth-swap_all w p (c ∷ cs) ok = (length-swap p c ∙ ok.0, HasWidth-swap_all w p cs ok.1)

-- A vector that holds chunks one after the other is cut into them.
in_chunks_there :
    (w : ℕ) (f : ℕ → Bool) (k : ℕ) (cs : List (List Bool))
    → All (λ c. length c ≡ w) cs
    → read f k (length (concat cs)) ≡ concat cs
    → in_chunks (length cs) w f k ≡ cs
in_chunks_there w f k [] ok e = refl
in_chunks_there w f k (c ∷ cs) ok e =
    let split : read f k (length c) ++ read f (k + length c) (length (concat cs)) ≡ c ++ concat cs =
      sym (read-append f k (length c) (length (concat cs)))
      ∙ ap (read f k) (sym (length-append c (concat cs)))
      ∙ e in
    let parts = append_cancel _ c _ (concat cs) (length-read f k (length c)) split in
    cc (
      parts.0,
      ok.0,
      in_chunks_there w f (k + w) cs ok.1
          (subst (λ j. read f (k + j) (length (concat cs)) ≡ concat cs) ok.0 parts.1),
    )

-- The number of chunks that `get_bytes` and `get_ints` read.
abbrev chunk_count : ℕ → ℕ → ℕ
chunk_count w n = 1 + (if n == 0 then 0xffffffff else n - 1) / w

chunk_count_whole : (w n : ℕ) → (w ≡ 8) ⊎ (w ≡ 32) → 0 < n → chunk_count w (w * n - 0) ≡ n
chunk_count_whole w n (inl e) h = rw e (ground (arith, h))
chunk_count_whole w n (inr e) h = rw e (ground (arith, h))

-- The stored chunks are read back, on the fields of the packer after the allocation.
stored_chunks :
    (w : ℕ) (p : Packer) (q : Packer) (cs : List (List Bool))
    → (w ≡ 8) ⊎ (w ≡ 32)
    → 0 < length cs
    → All (λ c. length c ≡ w) cs
    → p.unpack_index ≡ 0
    → q.big_endian ≡ p.big_endian
    → swap_all q (
        in_chunks
          (chunk_count w (w * length cs - p.unpack_index))
          w
          (write p.bits 0 (concat (swap_all p cs)))
          0)
      ≡ cs
stored_chunks w p q cs kind some_chunk ok front order =
    let f = write p.bits 0 (concat (swap_all p cs)) in
    let count : chunk_count w (w * length cs - p.unpack_index) ≡ length (swap_all p cs) =
      ap (λ u. chunk_count w (w * length cs - u)) front
      ∙ chunk_count_whole w (length cs) kind some_chunk
      ∙ sym (length-swap_all p cs) in
    ap (λ n. swap_all q (in_chunks n w f 0)) count
    ∙ ap (swap_all q) (
        in_chunks_there w f 0 (swap_all p cs) (HasWidth-swap_all w p cs ok)
          (read-write p.bits 0 (concat (swap_all p cs))))
    ∙ swap_all-swap_all p q cs order

m_allocate-reset : (p : Packer) (n : ℕ) → Packer.unpack_index (m_allocate (reset p) n false) ≡ 0
unfolding m_allocate reset
m_allocate-reset p n = ground arith

-- `get_bytes` gives back the bytes that `put_bytes` stored, and `get_ints` the words of `put_ints`, at least
-- one of them and in either order of bits, whatever the packer held.
pub get_chunks-put_chunks :
    (w : ℕ) (p : Packer) (cs : List (List Bool))
    → (w ≡ 8) ⊎ (w ≡ 32)
    → 0 < length cs
    → All (λ c. length c ≡ w) cs
    → get_chunks w (put_chunks w p cs) ≡ cs
unfolding get_chunks put_chunks get_remaining_unpacked_bits
get_chunks-put_chunks w p cs kind some_chunk ok =
    let q = m_allocate (reset p) (length cs * w) false in
    stored_chunks w q (put_chunks w p cs) cs kind some_chunk ok (m_allocate-reset p (length cs * w))
      refl
