-- ===== src/Reg/Fields.antt =====
-- One field in the word of its register: what `get` and `get_mirrored_value` of
-- src/uvmsc/reg/uvm_reg.cpp return at the field's own positions.
use uvm_systemc.Common.{
  ℕ, ◌+◌, ◌-◌, ◌^◌, ◌≤◌, ◌<◌, ◌≡◌, refl, ap, ◌∙◌, false, List, [], ◌∷◌, ◌++◌, arith, All,
}
use uvm_systemc.Common.Bits.{test_bit, test_bit-above}
use uvm_systemc.RegField.{Field}
use uvm_systemc.RegField.Bounds.{IsValid}
use uvm_systemc.Reg.{Reg, gather, any_field, get_mirrored_value}
use uvm_systemc.Reg.Layout.{IsLaidOut, end_of}
use uvm_systemc.Reg.Image.{holds, gather_bit}

-- The fields of a register in use: each is valid, they are in order and apart, and all lie in the word.
pub record IsValidReg (fs : List Field) : Type 0 where
  pub laid_out : IsLaidOut fs
  pub valid : All IsValid fs
  pub in_word : All (λ f. end_of f ≤ 64) fs

pub All-middle :
    (P : Field → Type 0) (before : List Field) (f : Field) (after : List Field)
    → All P (before ++ f ∷ after)
    → P f
All-middle P [] f after ps = ps.0
All-middle P (g ∷ before) f after ps = All-middle P before f after ps.1

module _ (g : Field → ℕ) (i : ℕ) where
  none_holds_above :
      (n : ℕ) (fs : List Field) → i < n → All (λ h. n ≤ h.lsb) fs → any_field (holds g i) fs ≡ false
  none_holds_above n [] lt le = refl
  none_holds_above n (h ∷ hs) lt le = ground (arith, none_holds_above n hs lt le.1)

  passed : (h : Field) → g h < 2 ^ h.size → end_of h ≤ i → holds g i h ≡ false
  passed h fits le = ground (arith, test_bit-above h.size (g h) (i - h.lsb) fits (omega arith))

  -- At a position of a field, no other field puts a 1.
  only_holder :
      (before : List Field) (f : Field) (after : List Field)
      → IsLaidOut (before ++ f ∷ after)
      → All (λ h. g h < 2 ^ h.size) (before ++ f ∷ after)
      → f.lsb ≤ i
      → i < end_of f
      → any_field (holds g i) (before ++ f ∷ after) ≡ test_bit (g f) (i - f.lsb)
  only_holder [] f after laid fits up low =
      ground (arith, none_holds_above (end_of f) after low laid.0)
  only_holder (h ∷ before) f after laid fits up low = ground (
    arith,
    passed h fits.0 (omega (arith, All-middle (λ k. end_of h ≤ k.lsb) before f after laid.0)),
    only_holder before f after laid.1 fits.1 up low,
  )

-- The bits of a field are found in the word of the register, in place.
pub gather-field :
    (g : Field → ℕ) (before : List Field) (f : Field) (after : List Field) (j : ℕ)
    → IsLaidOut (before ++ f ∷ after)
    → All (λ h. g h < 2 ^ h.size) (before ++ f ∷ after)
    → end_of f ≤ 64
    → j < f.size
    → test_bit (gather g 0 (before ++ f ∷ after)) (f.lsb + j) ≡ test_bit (g f) j
gather-field g before f after j laid fits word low =
    gather_bit g (f.lsb + j) (before ++ f ∷ after) (omega arith)
    ∙ only_holder g (f.lsb + j) before f after laid fits (omega arith) (omega arith)
    ∙ ap (test_bit (g f)) back
  where
    back : f.lsb + j - f.lsb ≡ j
    back = omega arith

mirrored_fit : (fs : List Field) → All IsValid fs → All (λ h. h.mirrored < 2 ^ h.size) fs
mirrored_fit [] h = tt
mirrored_fit (f ∷ fs) h = (h.0.mirrored_fits, mirrored_fit fs h.1)

-- The mirrored value of a register in use has the mirror of each field at the field's positions.
pub get_mirrored_value-field :
    (r : Reg) (before : List Field) (f : Field) (after : List Field) (j : ℕ)
    → r.fields ≡ before ++ f ∷ after
    → IsValidReg (before ++ f ∷ after)
    → j < f.size
    → test_bit (get_mirrored_value r) (f.lsb + j) ≡ test_bit f.mirrored j
unfolding get_mirrored_value
get_mirrored_value-field r before f after j e h low =
    ap (λ fs. test_bit (gather (λ f. f.mirrored) 0 fs) (f.lsb + j)) e
    ∙ gather-field (λ f. f.mirrored) before f after j h.laid_out (mirrored_fit _ h.valid)
        (All-middle (λ k. end_of k ≤ 64) before f after h.in_word) low
