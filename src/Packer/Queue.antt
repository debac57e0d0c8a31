-- ===== src/Packer/Queue.antt =====
-- The front of the queue of bits, and the bit by bit loops of the packer.
use uvm_systemc.Common.{
  ℕ, zero, suc, ◌+◌, ◌-◌, ◌≤◌, ◌<◌, ◌≡◌, refl, ap, sym, ◌∙◌, Bool, false, List, [], ◌∷◌, ◌++◌,
  arith, ltb, length, get_elem?, length-append, Bool-cases, Option-cases, inl, inr,
}
use mathlib.Core.Path.{fun_ext}
use uvm_systemc.Packer.{
  Packer, write, read, m_check_size, pack_bits, inc_unpack_index, set_bits, pack_sc_int_base,
  unpack_sc_int_base, pack_sc_bv_base, unpack_sc_bv_base,
}
use uvm_systemc.Packer.Storage.{IsValid, contents, read-append, length-read}

pub append_cancel :
    (xs bs cs ds : List Bool) → length xs ≡ length bs → xs ++ cs ≡ bs ++ ds → (xs ≡ bs) × (cs ≡ ds)
append_cancel [] [] cs ds l e = (refl, e)
append_cancel [] (b ∷ bs) cs ds l e = absurd (omega (arith, l))
append_cancel (a ∷ xs) [] cs ds l e = absurd (omega (arith, l))
append_cancel (a ∷ xs) (b ∷ bs) cs ds l e =
    let rest = append_cancel xs bs cs ds (omega (arith, l)) (cc) in (cc (rest.0), rest.1)

-- What stands at the front of the queue is read from `unpack_index` on, and gone after the step.
pub record Front (p : Packer) (vs rest : List Bool) : Type 0 where
  pub enough : length vs ≤ p.pack_index - p.unpack_index
  pub here : read p.bits p.unpack_index (length vs) ≡ vs
  pub then_rest : contents (inc_unpack_index p (length vs)) ≡ rest
  pub keeps : IsValid (inc_unpack_index p (length vs))

pub contents-Front :
    (p : Packer) (vs rest : List Bool) → IsValid p → contents p ≡ vs ++ rest → Front p vs rest
unfolding contents
contents-Front p vs rest v e = record {
  enough = omega (arith, total);
  here = parts.0;
  then_rest = ap (read p.bits (p.unpack_index + length vs)) (omega (arith, total)) ∙ parts.1;
  keeps = record { ordered = omega (arith, total, v.ordered); sized = v.sized; stored = v.stored };
}
  where
    total : p.pack_index - p.unpack_index ≡ length vs + length rest
    total =
        sym (length-read p.bits p.unpack_index (p.pack_index - p.unpack_index))
        ∙ ap length e
        ∙ length-append vs rest

    split :
        read p.bits p.unpack_index (length vs)
          ++ read p.bits (p.unpack_index + length vs) (length rest)
        ≡ vs ++ rest
    split =
        sym (read-append p.bits p.unpack_index (length vs) (length rest))
        ∙ ap (read p.bits p.unpack_index) (sym total)
        ∙ e

    parts :
        (read p.bits p.unpack_index (length vs) ≡ vs)
        × (read p.bits (p.unpack_index + length vs) (length rest) ≡ rest)
    parts = append_cancel _ vs _ rest (length-read p.bits p.unpack_index (length vs)) split

write_one_past : (f : ℕ → Bool) (k : ℕ) (b : Bool) (i : ℕ) → k < i → write f k (b ∷ []) i ≡ f i
unfolding write
write_one_past f k b i h =
    let later : ltb i k ≡ false = ground (arith, h) in
    let e : i - k ≡ suc (i - k - 1) = omega (arith, h) in rw (later, e) refl

write_step :
    (f : ℕ → Bool) (k : ℕ) (b : Bool) (bs : List Bool) (i : ℕ)
    → write (write f k (b ∷ [])) (k + 1) bs i ≡ write f k (b ∷ bs) i
unfolding write
write_step f k b bs i = elim (Bool-cases (ltb i (k + 1))) [
  | inl early ↦ elim (Bool-cases (ltb i k)) [
    | inl below ↦ rw (early, below) refl
    | inr there ↦ let e : i - k ≡ 0 = ground arith in rw (early, there, e) refl
  ]
  | inr late ↦
      let later : ltb i k ≡ false = ground arith in
      let e : i - k ≡ suc (i - (k + 1)) = ground arith in
      elim (Option-cases (get_elem? bs (i - (k + 1)))) [
        | inl past ↦ rw (late, later, e, past) (write_one_past f k b i (ground arith))
        | inr (c, hit) ↦ rw (late, later, e, hit) refl
      ]
]

write_more :
    (f : ℕ → Bool) (k : ℕ) (b : Bool) (bs : List Bool)
    → write (write f k (b ∷ [])) (k + 1) bs ≡ write f k (b ∷ bs)
write_more f k b bs = fun_ext (write_step f k b bs)

no_write : (f : ℕ → Bool) (k : ℕ) → write f k [] ≡ f
unfolding write
no_write f k = fun_ext λ i. ground arith

add_zero : (n : ℕ) → n + 0 ≡ n
add_zero n = omega arith

add_one : (n : ℕ) → n + 1 ≡ suc n
add_one n = omega arith

add_suc : (n m : ℕ) → n + 1 + m ≡ n + suc m
add_suc n m = omega arith

set_bits_lem :
    (p : Packer) (vs : List Bool)
    → set_bits p vs
      ≡ record p { bits = write p.bits p.pack_index vs; pack_index = p.pack_index + length vs }
set_bits_lem p [] = cc (no_write p.bits p.pack_index, add_zero p.pack_index)
set_bits_lem p (b ∷ bs) =
    set_bits_lem
      (record p { bits = write p.bits p.pack_index (b ∷ []); pack_index = p.pack_index + 1 }) bs
    ∙ cc (write_more p.bits p.pack_index b bs, add_suc p.pack_index (length bs))

unpack_sc_int_base_loop :
    (p : Packer) (n : ℕ)
    → unpack_sc_int_base p n ≡ (inc_unpack_index p n, read p.bits p.unpack_index n)
unfolding unpack_sc_int_base
unpack_sc_int_base_loop p zero = cc (add_zero p.unpack_index)
unpack_sc_int_base_loop p (suc n) = cc (
  unpack_sc_int_base_loop (inc_unpack_index p 1) n,
  add_suc p.unpack_index n,
  add_one p.unpack_index,
)

-- The loops of `pack_sc_int_base` and its companions, bit by bit, leave the packer as one range write does,
-- and their unpacking loops take what one range read takes.
pub pack_sc_int_base-eq :
    (p : Packer) (vs : List Bool) (n : ℕ)
    → (pack_sc_int_base p vs ≡ pack_sc_bv_base p vs)
      × (unpack_sc_int_base p n ≡ unpack_sc_bv_base p n)
unfolding pack_sc_int_base pack_sc_bv_base unpack_sc_bv_base pack_bits
pack_sc_int_base-eq p vs n =
    (set_bits_lem (m_check_size p (length vs)) vs, unpack_sc_int_base_loop p n)
