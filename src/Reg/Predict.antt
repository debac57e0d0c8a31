-- ===== src/Reg/Predict.antt =====
-- The prediction of a whole register: `do_predict` of src/uvmsc/reg/uvm_reg.cpp.
use uvm_systemc.Common.{
  ℕ, ◌+◌, ◌/◌, ◌^◌, ◌≤◌, ◌<◌, ◌≡◌, refl, ap, ◌∙◌, sym, subst, true, false, not, ◌&&◌, List, Option,
  none, some, if_ind, if_rel, if_false, [], ◌∷◌, ◌++◌, map, arith, All,
}
use uvm_systemc.Common.Bits.{test_bit}
use uvm_systemc.RegField.{Field}
use uvm_systemc.RegField.Observing.{
  predict_write, predict_read, predict_direct, is_ok, do_predict as do_predict_field, Kind, Status,
  Observed, predict_by_kind, read_assign, through_policy,
}
use uvm_systemc.RegField.Policy.{Access, RightsError, get_access}
use uvm_systemc.RegField.Bounds.{IsValid, do_predict-IsValid}
use uvm_systemc.RegField.Effects.{written_bit}
use uvm_systemc.RegField.Predict.{do_predict-written_bit}
use uvm_systemc.Reg.{Reg, slice, gather, get_mirrored_value}
use uvm_systemc.Reg.Mirror.{Item, observed, predict_fields, do_predict, is_direct}
use uvm_systemc.Reg.Layout.{end_of}
use uvm_systemc.Reg.Image.{gather-map, slice-bit}
use uvm_systemc.Reg.Fields.{IsValidReg, All-middle, gather-field, get_mirrored_value-field}

-- The field has not moved.
abbrev SamePlace : Field → Field → Type 0
SamePlace f g = (g.lsb ≡ f.lsb) × (g.size ≡ f.size)

read_assign-SamePlace : (f : Field) (o : Observed) (e : Option ℕ) → SamePlace f (read_assign f o e)
read_assign-SamePlace f o none = (refl, refl)
read_assign-SamePlace f o (some w) = (refl, refl)

by_kind-SamePlace :
    (kind : Kind) (f : Field) (o : Observed) (v : ℕ) → SamePlace f (predict_by_kind kind f o v).0
unfolding predict_by_kind
by_kind-SamePlace predict_write f o v = (refl, refl)
by_kind-SamePlace predict_read f o v = read_assign-SamePlace f o _
by_kind-SamePlace predict_direct f o v = (refl, refl)

do_predict-SamePlace :
    (kind : Kind) (f : Field) (o : Observed) → SamePlace f (do_predict_field kind f o).0
unfolding do_predict_field
do_predict-SamePlace kind f o =
    if_ind (λ (a : Field × Status). SamePlace f a.0) o.enabled (by_kind-SamePlace kind f o _)
      (refl, refl)

by_kind-status :
    (kind : Kind) (f : Field) (o : Observed) (status : Status) (v : ℕ)
    → (predict_by_kind kind f (record o { status = status }) v).0 ≡ (predict_by_kind kind f o v).0
unfolding predict_by_kind
by_kind-status predict_write f o status v = refl
by_kind-status predict_read f o status v = refl
by_kind-status predict_direct f o status v = refl

-- The field does not depend on the status so far.
do_predict-status :
    (kind : Kind) (f : Field) (o : Observed) (status : Status)
    → (do_predict_field kind f (record o { status = status })).0 ≡ (do_predict_field kind f o).0
unfolding do_predict_field
do_predict-status kind f o status =
    if_rel (λ (a b : Field × Status). a.0 ≡ b.0) o.enabled (by_kind-status kind f o status _) refl

-- What becomes of each field, whatever the status was when its turn came.
unfoldable pub predicted : Kind → Reg → Item → Field → Field
predicted kind r o f = (do_predict_field kind f (observed r o is_ok f)).0

pub predict_fields-map :
    (kind : Kind) (r : Reg) (o : Item) (status : Status) (fs : List Field)
    → (predict_fields kind r o status fs).0 ≡ map (predicted kind r o) fs
unfolding predict_fields predicted
predict_fields-map kind r o status [] = refl
predict_fields-map kind r o status (f ∷ fs) =
    ap
      (λ (g : Field).
        g ∷ (predict_fields kind r o (do_predict_field kind f (observed r o status f)).1 fs).0)
      (do_predict-status kind f (observed r o is_ok f) status)
    ∙ ap (λ gs. predicted kind r o f ∷ gs)
        (predict_fields-map kind r o (do_predict_field kind f (observed r o status f)).1 fs)

-- The mirrored value after a prediction, from the fields before.
pub predicted_value :
    (kind : Kind) (r : Reg) (o : Item)
    → r.is_busy && is_direct kind ≡ false
    → get_mirrored_value (do_predict kind r o).0
      ≡ gather (λ f. (predicted kind r o f).mirrored) 0 r.fields
unfolding do_predict get_mirrored_value predicted
predicted_value kind r o free =
    ap (λ (a : Reg × Status). gather (λ f. f.mirrored) 0 a.0.fields) (if_false _ _ _ free)
    ∙ ap (gather (λ f. f.mirrored) 0) (predict_fields-map kind r o is_ok r.fields)
    ∙ gather-map (λ f. f.mirrored) (predicted kind r o) 0 r.fields
        (λ f. (do_predict-SamePlace kind f (observed r o is_ok f)).0)

predicted_fit :
    (kind : Kind) (r : Reg) (o : Item) (fs : List Field)
    → All IsValid fs
    → All (λ h. (predicted kind r o h).mirrored < 2 ^ h.size) fs
unfolding predicted
predicted_fit kind r o [] h = tt
predicted_fit kind r o (f ∷ fs) h = (
  subst (λ n. (predicted kind r o f).mirrored < 2 ^ n)
      (do_predict-SamePlace kind f (observed r o is_ok f)).1
      (do_predict-IsValid kind f (observed r o is_ok f) h.0).mirrored_fits,
  predicted_fit kind r o fs h.1,
)

-- A write to the register that is observed on the bus changes the mirrored value at each position of
-- each field as the documented effect of the field's policy in the map says, from the bit that the
-- mirrored value had there and the bit that was written there. This is for a register in use, a write
-- that goes through the policies, the byte of the field enabled, and callbacks that leave the value of
-- this field alone; the other fields, and whether their bytes are enabled, do not matter.
pub do_predict-get_mirrored_value :
    (r : Reg) (o : Item) (before : List Field) (f : Field) (after : List Field) (j : ℕ)
    → r.fields ≡ before ++ f ∷ after
    → IsValidReg (before ++ f ∷ after)
    → ((prev v : ℕ) → o.post_predict f prev v ≡ v)
    → test_bit o.byte_enables (f.lsb / 8) ≡ true
    → through_policy o.path ≡ true
    → j < f.size
    → test_bit (get_mirrored_value (do_predict predict_write r o).0) (f.lsb + j)
      ≡ written_bit
          (get_access f.access o.is_backdoor o.rights).0
          (not f.written)
          (test_bit (get_mirrored_value r) (f.lsb + j))
          (test_bit o.value (f.lsb + j))
unfolding predicted
do_predict-get_mirrored_value r o before f after j e h quiet on policy low =
    ap (λ v. test_bit v (f.lsb + j)) (predicted_value predict_write r o (ground arith))
    ∙ ap (λ fs. test_bit (gather (λ g. (predicted predict_write r o g).mirrored) 0 fs) (f.lsb + j))
        e
    ∙ gather-field (λ g. (predicted predict_write r o g).mirrored) before f after j h.laid_out
        (predicted_fit predict_write r o _ h.valid)
        (All-middle (λ k. end_of k ≤ 64) before f after h.in_word) low
    ∙ (do_predict-written_bit f (observed r o is_ok f) j valid quiet on policy low).0
    ∙ ap (λ c. written_bit b.0 (not f.written) c (test_bit (slice o.value f) j))
        (sym (get_mirrored_value-field r before f after j e h low))
    ∙ ap (written_bit b.0 (not f.written) (test_bit (get_mirrored_value r) (f.lsb + j)))
        (slice-bit o.value j f valid.word low)
  where
    valid : IsValid f
    valid = All-middle IsValid before f after h.valid

    b : Access × Option RightsError
    b = get_access f.access o.is_backdoor o.rights
