-- ===== src/Reg/Image.antt =====
-- The word that a register makes of its fields, bit by bit, and the slice that a field gets of a word:
-- `get`, `get_mirrored_value`, `get_reset`, `set` and `update` of src/uvmsc/reg/uvm_reg.cpp.
use Prim.Native.Nat.{bit_or}
use uvm_systemc.Common.{
  ℕ, ◌+◌, ◌-◌, ◌/◌, ◌^◌, ◌≤◌, ◌<◌, ◌≡◌, refl, ap, ◌∙◌, Bool, true, ◌&&◌, ◌||◌, List, [], ◌∷◌, map,
  leb, ltb, arith, inl, inr, Bool-cases, All,
}
use uvm_systemc.Common.Bits.{test_bit, test_bit-zero, test_bit-bit_or, test_bit-above}
use uvm_systemc.Common.Words.{shift_left}
use uvm_systemc.Common.Shifts.{shift_right, test_bit-shift_right, test_bit-shift_left_any}
use uvm_systemc.RegField.{Field, set as set_field}
use uvm_systemc.RegField.Bounds.{mask-lt}
use uvm_systemc.RegField.Predict.{masked-bit}
use uvm_systemc.RegField.Desired.{set_ignores_access}
use uvm_systemc.Reg.{Reg, gather, any_field, slice, set, get}

-- The field puts a 1 at position `i` of the word.
abbrev pub holds : (Field → ℕ) → ℕ → Field → Bool
holds g i f = leb f.lsb i && test_bit (g f) (i - f.lsb)

-- Position `i` of the word belongs to the field.
abbrev pub occupies : ℕ → Field → Bool
occupies i f = leb f.lsb i && ltb i (f.lsb + f.size)

pub gather-bits :
    (g : Field → ℕ) (acc i : ℕ) (fs : List Field)
    → i < 64
    → test_bit (gather g acc fs) i ≡ (test_bit acc i || any_field (holds g i) fs)
unfolding gather
gather-bits g acc i [] h = ground arith
gather-bits g acc i (f ∷ fs) h = ground (
  arith,
  gather-bits g (bit_or acc (shift_left (g f) f.lsb)) i fs h,
  test_bit-bit_or acc (shift_left (g f) f.lsb) i,
  test_bit-shift_left_any (g f) f.lsb i h,
)

pub gather_bit :
    (g : Field → ℕ) (i : ℕ) (fs : List Field)
    → i < 64
    → test_bit (gather g 0 fs) i ≡ any_field (holds g i) fs
gather_bit g i fs h = ground (arith, gather-bits g 0 i fs h, test_bit-zero i)

-- A change that leaves the positions alone can be made before or after.
pub gather-map :
    (g : Field → ℕ) (change : Field → Field) (acc : ℕ) (fs : List Field)
    → ((f : Field) → (change f).lsb ≡ f.lsb)
    → gather g acc (map change fs) ≡ gather (λ f. g (change f)) acc fs
unfolding gather
gather-map g change acc [] same = refl
gather-map g change acc (f ∷ fs) same =
    ap (λ l. gather g (bit_or acc (shift_left (g (change f)) l)) (map change fs)) (same f)
    ∙ gather-map g change (bit_or acc (shift_left (g (change f)) f.lsb)) fs same

-- Two readings that agree on every field make the same word.
pub gather-eq :
    (g h : Field → ℕ) (acc : ℕ) (fs : List Field)
    → All (λ f. g f ≡ h f) fs
    → gather g acc fs ≡ gather h acc fs
unfolding gather
gather-eq g h acc [] same = refl
gather-eq g h acc (f ∷ fs) same =
    ap (λ v. gather g (bit_or acc (shift_left v f.lsb)) fs) same.0
    ∙ gather-eq g h (bit_or acc (shift_left (h f) f.lsb)) fs same.1

pub slice-bit :
    (v i : ℕ) (f : Field)
    → f.size ≤ 64
    → i < f.size
    → test_bit (slice v f) i ≡ test_bit v (f.lsb + i)
unfolding slice
slice-bit v i f h l = masked-bit f.size (shift_right v f.lsb) i h l ∙ test_bit-shift_right v f.lsb i

pub slice-lt : (v : ℕ) (f : Field) → f.size ≤ 64 → slice v f < 2 ^ f.size
unfolding slice
slice-lt v f h = mask-lt f.size (v / 2 ^ f.lsb) h

-- The slice of a word that a field holds, put back into its place.
pub holds-slice :
    (g : Field → ℕ) (v i : ℕ) (f : Field)
    → f.size ≤ 64
    → g f ≡ slice v f
    → holds g i f ≡ (occupies i f && test_bit v i)
holds-slice g v i f h e = elim (Bool-cases (leb f.lsb i)) [
  | inr low ↦ ground arith
  | inl up ↦ elim (Bool-cases (ltb i (f.lsb + f.size))) [
    | inl inside ↦ ground (
      arith,
      ap (λ t. test_bit t (i - f.lsb)) e,
      slice-bit v (i - f.lsb) f h (ground arith),
      ap (test_bit v) (back up),
    )
    | inr outside ↦ ground (
      arith,
      ap (λ t. test_bit t (i - f.lsb)) e,
      test_bit-above f.size (slice v f) (i - f.lsb) (slice-lt v f h) (ground arith),
    )
  ]
]
  where
    back : leb f.lsb i ≡ true → f.lsb + (i - f.lsb) ≡ i
    back up = ground arith

slices-hold :
    (g : Field → ℕ) (v i : ℕ) (fs : List Field)
    → All (λ f. f.size ≤ 64) fs
    → All (λ f. g f ≡ slice v f) fs
    → any_field (holds g i) fs ≡ (any_field (occupies i) fs && test_bit v i)
slices-hold g v i [] h e = refl
slices-hold g v i (f ∷ fs) h e =
    ground (arith, holds-slice g v i f h.0 e.0, slices-hold g v i fs h.1 e.1)

-- A register whose fields hold the slices of a word holds the bits of the word that belong to a field.
pub gather-slices :
    (g : Field → ℕ) (v i : ℕ) (fs : List Field)
    → All (λ f. f.size ≤ 64) fs
    → All (λ f. g f ≡ slice v f) fs
    → i < 64
    → test_bit (gather g 0 fs) i ≡ (any_field (occupies i) fs && test_bit v i)
gather-slices g v i fs h e l = gather_bit g i fs l ∙ slices-hold g v i fs h e

set_field-lsb : (f : Field) (v : ℕ) → (set_field f v).lsb ≡ f.lsb
unfolding set_field
set_field-lsb f v = refl

set_field-desired :
    (v : ℕ) (fs : List Field)
    → All (λ f. f.size ≤ 64) fs
    → All (λ f. (set_field f (slice v f)).desired ≡ slice v f) fs
set_field-desired v [] h = tt
set_field-desired v (f ∷ fs) h = (
  ap (λ (g : Field). g.desired) (set_ignores_access f (slice v f) (slice-lt v f h.0)),
  set_field-desired v fs h.1,
)

-- After `set`, `get` returns the value that was set, at every position that a field occupies, and 0 at
-- the others. The fields are of at most 64 bits; they may overlap, and their policies do not matter: the
-- comment of uvm_reg_field::set says otherwise of a read-only field, whose desired value it promises not
-- to modify, and of a write-once field that was written, but the last statements of that function assign
-- the value under every policy.
pub get-set :
    (r : Reg) (v i : ℕ)
    → All (λ f. f.size ≤ 64) r.fields
    → i < 64
    → test_bit (get (set r v)) i ≡ (any_field (occupies i) r.fields && test_bit v i)
unfolding get set
get-set r v i h l =
    ap (λ t. test_bit t i)
      (gather-map (λ f. f.desired) (λ f. set_field f (slice v f)) 0 r.fields
        (λ f. set_field-lsb f (slice v f)))
    ∙ gather-slices (λ f. (set_field f (slice v f)).desired) v i r.fields h
        (set_field-desired v r.fields h) l
