-- ===== src/Reg/Check.antt =====
-- The comparison of a value with the mirror: `do_check` of src/uvmsc/reg/uvm_reg.cpp.
use Prim.Native.Nat.{bit_or}
use Prim.Native.String.{[], ◌∷◌}
use text.Mathlib.Text.{◌==◌ as str_eq}
use text.Mathlib.TextLemmas.{nil≢cons, tail-eq_of_cons-eq}
use text.Mathlib.TextEquality.{eq_iff}
use uvm_systemc.Common.{
  ℕ, ◌+◌, ◌-◌, ◌^◌, ◌≤◌, ◌<◌, ◌≡◌, refl, ap, ◌∙◌, Bool, true, false, not, ◌&&◌, ◌||◌, ◌↔◌, List,
  [] as nil, ◌∷◌ as cons, arith, All, if◌then◌else◌, ◌==◌, inl, inr, Bool-cases, if_true, if_false,
  ==_iff, ltb,
}
use uvm_systemc.Common.Bits.{test_bit, test_bit-bit_or, test_bit-zero, test_bit-above}
use uvm_systemc.Common.Words.{shift_left, eq_of_bits, test_bit-ones}
use uvm_systemc.Common.Shifts.{test_bit-shift_left_any}
use uvm_systemc.RegField.{Field, uvm_mask_size}
use uvm_systemc.RegField.Effects.{uvm_mask_size_lem}
use uvm_systemc.RegField.Policy.{Access, Rights, get_access}
use uvm_systemc.Reg.{Reg, any_field}
use uvm_systemc.Reg.Mirror.{first_letter, left_out, dont_care, do_check}
use uvm_systemc.Reg.Image.{occupies}

-- One character is never "WO".
first_letter_not_wo : (a : Access) → str_eq (first_letter a) "WO" ≡ false
unfolding first_letter
first_letter_not_wo (Access.custom []) = refl
first_letter_not_wo (Access.custom (c ∷ s)) = elim (Bool-cases (str_eq (c ∷ []) "WO")) [
  | inl e ↦ absurd (nil≢cons (tail-eq_of_cons-eq ((eq_iff (c ∷ []) "WO").0 e)))
  | inr e ↦ e
]
first_letter_not_wo _ = refl

-- The test for a write-only policy has no effect: only the fields that are not to be checked are left out.
left_out_lem :
    (is_backdoor : Bool) (rights : Rights) (f : Field) → left_out is_backdoor rights f ≡ not f.check
unfolding left_out
left_out_lem is_backdoor rights f =
    ground (arith, first_letter_not_wo (get_access f.access is_backdoor rights).0)

-- The field is not to be checked, and has position `i`.
abbrev pub unchecked : ℕ → Field → Bool
unchecked i f = not f.check && occupies i f

mask_ones : (size i : ℕ) → size ≤ 64 → test_bit (uvm_mask_size size) i ≡ ltb i size
mask_ones size i h = ap (λ m. test_bit m i) (uvm_mask_size_lem size h) ∙ test_bit-ones size i

ones_in_place :
    (f : Field) (acc i : ℕ)
    → f.size ≤ 64
    → i < 64
    → test_bit (bit_or acc (shift_left (uvm_mask_size f.size) f.lsb)) i
      ≡ (test_bit acc i || occupies i f)
ones_in_place f acc i h low = ground (
  arith,
  test_bit-bit_or acc (shift_left (uvm_mask_size f.size) f.lsb) i,
  test_bit-shift_left_any (uvm_mask_size f.size) f.lsb i low,
  mask_ones f.size (i - f.lsb) h,
)

module _ (is_backdoor : Bool) (rights : Rights) where
  dont_care-step :
      (f : Field) (acc i : ℕ)
      → f.size ≤ 64
      → i < 64
      → test_bit
          (if left_out is_backdoor rights f
            then bit_or acc (shift_left (uvm_mask_size f.size) f.lsb)
            else acc)
          i
        ≡ (test_bit acc i || unchecked i f)
  dont_care-step f acc i h low = elim (Bool-cases f.check) [
    | inl on ↦ ap (λ v. test_bit v i) (if_false _ _ _ (out ∙ ap not on)) ∙ ground arith
    | inr off ↦
        ap (λ v. test_bit v i) (if_true _ _ _ (out ∙ ap not off))
        ∙ ones_in_place f acc i h low
        ∙ ground arith
  ]
    where
      out : left_out is_backdoor rights f ≡ not f.check
      out = left_out_lem is_backdoor rights f

  -- The bits that are left out are those of the fields that are not to be checked.
  dont_care-bits :
      (acc i : ℕ) (fs : List Field)
      → All (λ f. f.size ≤ 64) fs
      → i < 64
      → test_bit (dont_care is_backdoor rights acc fs) i
        ≡ (test_bit acc i || any_field (unchecked i) fs)
  unfolding dont_care
  dont_care-bits acc i nil h low = ground arith
  dont_care-bits acc i (cons f fs) h low =
      let acc' =
        if left_out is_backdoor rights f
        then bit_or acc (shift_left (uvm_mask_size f.size) f.lsb)
        else acc in
      ground (arith, dont_care-bits acc' i fs h.1 low, dont_care-step f acc i h.0 low)

-- The values agree at every position that does not belong to a field which is not to be checked.
abbrev pub AgreeChecked : List Field → ℕ → ℕ → Type 0
AgreeChecked fs expected actual =
    (i : ℕ) → i < 64 → any_field (unchecked i) fs ≡ false → test_bit actual i ≡ test_bit expected i

-- `do_check` succeeds exactly if the two values agree at every position that does not belong to a field
-- which is not to be checked: at the positions of checked fields, write-only fields among them, and at
-- the positions that no field has. The fields are of at most 64 bits.
pub do_check_iff :
    (r : Reg) (is_backdoor : Bool) (rights : Rights) (expected actual : ℕ)
    → All (λ f. f.size ≤ 64) r.fields
    → expected < 2 ^ 64
    → actual < 2 ^ 64
    → (do_check r is_backdoor rights expected actual ≡ true) ↔ AgreeChecked r.fields expected actual
unfolding do_check
do_check_iff r is_backdoor rights expected actual h e a = (agree, equal)
  where
    dc : ℕ
    dc = dont_care is_backdoor rights 0 r.fields

    skipped : (i : ℕ) → i < 64 → test_bit dc i ≡ any_field (unchecked i) r.fields
    skipped i low =
        ground (arith, dont_care-bits is_backdoor rights 0 i r.fields h low, test_bit-zero i)

    agree : (bit_or actual dc == bit_or expected dc) ≡ true → AgreeChecked r.fields expected actual
    agree same i low on = ground (
      arith,
      test_bit-bit_or actual dc i,
      test_bit-bit_or expected dc i,
      ap (λ v. test_bit v i) ((==_iff (bit_or actual dc) (bit_or expected dc)).0 same),
      skipped i low,
    )

    one_bit :
        AgreeChecked r.fields expected actual
        → (i : ℕ) → test_bit (bit_or actual dc) i ≡ test_bit (bit_or expected dc) i
    one_bit same i = elim (Bool-cases (ltb i 64)) [
      | inr high ↦ ground (
        arith,
        test_bit-bit_or actual dc i,
        test_bit-bit_or expected dc i,
        test_bit-above 64 actual i a (ground arith),
        test_bit-above 64 expected i e (ground arith),
      )
      | inl low ↦ elim (Bool-cases (any_field (unchecked i) r.fields)) [
        | inl off ↦ ground (
          arith,
          test_bit-bit_or actual dc i,
          test_bit-bit_or expected dc i,
          skipped i (ground arith),
        )
        | inr on ↦ ground (
          arith,
          test_bit-bit_or actual dc i,
          test_bit-bit_or expected dc i,
          same i (ground arith) on,
        )
      ]
    ]

    equal : AgreeChecked r.fields expected actual → (bit_or actual dc == bit_or expected dc) ≡ true
    equal same = (==_iff (bit_or actual dc) (bit_or expected dc)).1 (
        eq_of_bits (bit_or actual dc + bit_or expected dc) _ _ (omega arith) (omega arith)
          (one_bit same))
