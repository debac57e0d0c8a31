-- ===== src/Packer/Fields.antt =====
-- What each unpacking function takes from the front of the queue of bits.
use uvm_systemc.Common.{
  ℕ, zero, suc, ◌≤◌, ◌≡◌, refl, ap, sym, ◌∙◌, subst, Bool, true, false, List, [], ◌∷◌, ◌++◌, arith,
  if◌then◌else◌, length, take, length-append, Bool-cases, inl, inr,
}
use mathlib.Core.List.{reverse, reverse-reverse, reverse-cons}
use uvm_systemc.Packer.{
  Packer, read, swap, pad, any, inc_unpack_index, m_enough_bits, unpack_field_int, unpack_char,
  unpack_bool, unpack_sc_bv_base,
}
use uvm_systemc.Packer.Storage.{IsValid, contents}
use uvm_systemc.Packer.Queue.{contents-Front}

-- A step returned the value `a`, left `rest` in the queue and kept the packer's options.
pub record Took {A : Type 0} (p : Packer) (r : Packer × A) (a : A) (rest : List Bool) : Type 0 where
  pub value : r.1 ≡ a
  pub left : contents r.0 ≡ rest
  pub valid : IsValid r.0
  pub same_order : Packer.big_endian r.0 ≡ p.big_endian
  pub same_metadata : Packer.use_metadata r.0 ≡ p.use_metadata

length-reverse : (vs : List Bool) → length (reverse vs) ≡ length vs
length-reverse [] = refl
length-reverse (v ∷ vs) =
    ap length (reverse-cons v vs)
    ∙ length-append (reverse vs) (v ∷ [])
    ∙ omega (arith, length-reverse vs)

pub length-swap : (p : Packer) (vs : List Bool) → length (swap p vs) ≡ length vs
length-swap p vs = elim (Bool-cases p.big_endian) [
  | inl big ↦ rw big (length-reverse vs)
  | inr little ↦ rw little refl
]

pub swap-swap : (p : Packer) (vs : List Bool) → swap p (swap p vs) ≡ vs
swap-swap p vs = elim (Bool-cases p.big_endian) [
  | inl big ↦ rw big (reverse-reverse vs)
  | inr little ↦ rw little refl
]

any-append : (xs ys : List Bool) → any (xs ++ ys) ≡ (if any xs then true else any ys)
any-append [] ys = refl
any-append (true ∷ xs) ys = refl
any-append (false ∷ xs) ys = any-append xs ys

any-reverse : (vs : List Bool) → any (reverse vs) ≡ any vs
any-reverse [] = refl
any-reverse (true ∷ vs) =
    ap any (reverse-cons true vs) ∙ any-append (reverse vs) (true ∷ []) ∙ ground arith
any-reverse (false ∷ vs) =
    ap any (reverse-cons false vs)
    ∙ any-append (reverse vs) (false ∷ [])
    ∙ ground (arith, any-reverse vs)

pub any-swap : (p : Packer) (vs : List Bool) → any (swap p vs) ≡ any vs
any-swap p vs = elim (Bool-cases p.big_endian) [
  | inl big ↦ rw big (any-reverse vs)
  | inr little ↦ rw little refl
]

pub length-take : {A : Type 0} (n : ℕ) (vs : List A) → n ≤ length vs → length (take n vs) ≡ n
length-take zero vs h = refl
length-take (suc n) [] h = absurd (omega arith)
length-take (suc n) (v ∷ vs) h = ap suc (length-take n vs (omega arith))

-- The front of the queue, when it is as long as the step takes.
pub front_of :
    (p : Packer) (vs rest : List Bool) (n : ℕ)
    → IsValid p
    → contents p ≡ swap p vs ++ rest
    → length vs ≡ n
    → (m_enough_bits p n ≡ true)
      × (swap p (read p.bits p.unpack_index n) ≡ vs)
      × (contents (inc_unpack_index p n) ≡ rest)
      × IsValid (inc_unpack_index p n)
unfolding m_enough_bits
front_of p vs rest n v e l =
    let f = contents-Front p (swap p vs) rest v e in
    let l' : length (swap p vs) ≡ n = length-swap p vs ∙ l in
    (
      ground (arith, f.enough, l'),
      ap (λ k. swap p (read p.bits p.unpack_index k)) (sym l')
          ∙ ap (swap p) f.here
          ∙ swap-swap p vs,
      ap (λ k. contents (inc_unpack_index p k)) (sym l') ∙ f.then_rest,
      subst (λ k. IsValid (inc_unpack_index p k)) l' f.keeps,
    )

pub unpack_field_int-Took :
    (p : Packer) (v : List Bool) (n : ℕ) (rest : List Bool)
    → IsValid p
    → n ≤ length v
    → contents p ≡ swap p (take n v) ++ rest
    → Took p (unpack_field_int p n) (pad 64 (take n v)) rest
unfolding unpack_field_int
unpack_field_int-Took p v n rest valid h e =
    let f = front_of p (take n v) rest n valid e (length-take n v h) in
    rw (f.0) record {
      value = ap (pad 64) f.1;
      left = f.2;
      valid = f.3;
      same_order = refl;
      same_metadata = refl;
    }

pub unpack_char-Took :
    (p : Packer) (c rest : List Bool)
    → IsValid p
    → length c ≡ 8
    → contents p ≡ swap p c ++ rest
    → Took p (unpack_char p) c rest
unfolding unpack_char
unpack_char-Took p c rest valid l e =
    let f = front_of p c rest 8 valid e l in
    record { value = f.1; left = f.2; valid = f.3; same_order = refl; same_metadata = refl }

pub unpack_bool-Took :
    (p : Packer) (b : Bool) (rest : List Bool)
    → IsValid p
    → contents p ≡ b ∷ rest
    → Took p (unpack_bool p) b rest
unfolding unpack_bool
unpack_bool-Took p b rest valid e =
    let f = contents-Front p (b ∷ []) rest valid e in
    record {
      value = ap any_of f.here;
      left = f.then_rest;
      valid = f.keeps;
      same_order = refl;
      same_metadata = refl;
    }
  where
    any_of : List Bool → Bool
    any_of [] = b
    any_of (c ∷ cs) = c

pub unpack_sc_bv_base-Took :
    (p : Packer) (vs rest : List Bool)
    → IsValid p
    → contents p ≡ vs ++ rest
    → Took p (unpack_sc_bv_base p (length vs)) vs rest
unfolding unpack_sc_bv_base
unpack_sc_bv_base-Took p vs rest valid e =
    let f = contents-Front p vs rest valid e in
    record {
      value = f.here;
      left = f.then_rest;
      valid = f.keeps;
      same_order = refl;
      same_metadata = refl;
    }
