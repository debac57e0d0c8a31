-- ===== src/Reg/Direct.antt =====
-- A direct prediction of a register, and its reset: `do_predict` and `reset` of src/uvmsc/reg/uvm_reg.cpp.
use Prim.Native.String.{String}
use uvm_systemc.Common.{
  ℕ, ◌/◌, ◌≤◌, ◌<◌, ◌≡◌, refl, ap, ◌∙◌, sym, subst, true, false, ◌&&◌, List, [], ◌∷◌, map, arith,
  All, if◌then◌else◌, if_true, if_false, Option, none, some, ◌<◌,
}
use uvm_systemc.Common.Bits.{test_bit}
use uvm_systemc.Common.Maps.{find, string_key}
use uvm_systemc.RegField.{
  Field, needs_update as field_needs_update, reset as reset_field, get_reset as field_get_reset,
  m_update, reset_to,
}
use uvm_systemc.RegField.Observing.{
  predict_direct, is_ok, do_predict as do_predict_field, Status, predict_by_kind, assign,
}
use uvm_systemc.RegField.Bounds.{IsValid, mask_of_lt}
use uvm_systemc.RegField.Desired.{m_update-desired}
use uvm_systemc.Reg.{
  Reg, slice, any_field, get, get_mirrored_value, needs_update, reset, get_reset, update,
}
use uvm_systemc.Reg.Mirror.{Item, do_predict}
use uvm_systemc.Reg.Image.{occupies, gather-slices, gather-map, gather-eq, slice-lt}
use uvm_systemc.Reg.Predict.{predicted, predict_fields-map, predicted_value}

module _ (r : Reg) (o : Item) where
  -- Every field gets its slice, and agrees with itself.
  direct :
      (f : Field)
      → f.size ≤ 64
      → test_bit o.byte_enables (f.lsb / 8) ≡ true
      → predicted predict_direct r o f ≡ assign f (slice o.value f)
  unfolding predicted do_predict_field predict_by_kind
  direct f h on =
      ap (λ (a : Field × Status). a.0) (if_true _ _ _ on)
      ∙ ap (assign f) (mask_of_lt f.size (slice o.value f) h (slice-lt o.value f h))

  direct_slices :
      (fs : List Field)
      → All (λ f. f.size ≤ 64) fs
      → All (λ f. test_bit o.byte_enables (f.lsb / 8) ≡ true) fs
      → All (λ f. (predicted predict_direct r o f).mirrored ≡ slice o.value f) fs
  direct_slices [] h on = tt
  direct_slices (f ∷ fs) h on =
      (ap (λ (g : Field). g.mirrored) (direct f h.0 on.0), direct_slices fs h.1 on.1)

  direct_agrees :
      (fs : List Field)
      → All (λ f. f.size ≤ 64) fs
      → All (λ f. test_bit o.byte_enables (f.lsb / 8) ≡ true) fs
      → All (λ g. g.desired ≡ g.mirrored) (map (predicted predict_direct r o) fs)
  direct_agrees [] h on = tt
  direct_agrees (f ∷ fs) h on = (
    ap (λ (g : Field). g.desired) (direct f h.0 on.0)
        ∙ sym (ap (λ (g : Field). g.mirrored) (direct f h.0 on.0)),
    direct_agrees fs h.1 on.1,
  )

-- Where the desired value of every field is its mirror, nothing is to be updated.
agree-needs_update :
    (fs : List Field)
    → All (λ g. g.desired ≡ g.mirrored) fs
    → any_field field_needs_update fs ≡ false
unfolding field_needs_update
agree-needs_update [] h = refl
agree-needs_update (f ∷ fs) h = ground (arith, h.0, agree-needs_update fs h.1)

-- A direct prediction of a register that is not busy, with the byte of each field enabled: the mirrored
-- value becomes the predicted value at the positions of the fields and 0 elsewhere, the desired value
-- becomes the mirrored value, and the register needs no update. The fields are of at most 64 bits; the
-- callbacks and the policies do not matter.
pub do_predict_direct :
    (r : Reg) (o : Item) (i : ℕ)
    → r.is_busy ≡ false
    → All (λ f. f.size ≤ 64) r.fields
    → All (λ f. test_bit o.byte_enables (f.lsb / 8) ≡ true) r.fields
    → i < 64
    → let r' = (do_predict predict_direct r o).0 in
      (test_bit (get_mirrored_value r') i ≡ (any_field (occupies i) r.fields && test_bit o.value i))
      × (get r' ≡ get_mirrored_value r')
      × (needs_update r' ≡ false)
unfolding do_predict get get_mirrored_value needs_update
do_predict_direct r o i free h on low = (
  ap (λ v. test_bit v i) (predicted_value predict_direct r o busy)
      ∙ gather-slices (λ f. (predicted predict_direct r o f).mirrored) o.value i r.fields h
          (direct_slices r o r.fields h on) low,
  gather-eq (λ f. f.desired) (λ f. f.mirrored) 0 _ agree,
  agree-needs_update _ agree,
)
  where
    busy : r.is_busy && true ≡ false
    busy = ground arith

    agree : All (λ g. g.desired ≡ g.mirrored) (do_predict predict_direct r o).0.fields
    agree =
        subst (λ fs. All (λ g. g.desired ≡ g.mirrored) fs) (sym fields)
          (direct_agrees r o r.fields h on)
      where
        fields :
            (do_predict predict_direct r o).0.fields ≡ map (predicted predict_direct r o) r.fields
        fields =
            ap (λ (a : Reg × Status). a.0.fields) (if_false _ _ _ busy)
            ∙ predict_fields-map predict_direct r o is_ok r.fields

reset_one :
    (f : Field) (kind : String)
    → ((reset_field f kind).desired ≡ field_get_reset f kind) × ((reset_field f kind).lsb ≡ f.lsb)
unfolding reset_field field_get_reset
reset_one f kind = from (find kind f.resets)
  where
    from :
        (found : Option ℕ)
        → ((reset_to f kind found).desired ≡ (elim found [ none ↦ f.desired | some v ↦ v ]))
          × ((reset_to f kind found).lsb ≡ f.lsb)
    from none = (refl, refl)
    from (some v) = (refl, refl)

reset_all :
    (kind : String) (fs : List Field)
    → All (λ f. (reset_field f kind).desired ≡ field_get_reset f kind) fs
reset_all kind [] = tt
reset_all kind (f ∷ fs) = ((reset_one f kind).0, reset_all kind fs)

-- After `reset` with any kind, `get` returns what `get_reset` returned for the kind before, whether or
-- not every field has a reset value of that kind.
pub get-reset : (r : Reg) (kind : String) → get (reset r kind) ≡ get_reset r kind
unfolding get reset get_reset
get-reset r kind =
    gather-map (λ f. f.desired) (λ f. reset_field f kind) 0 r.fields (λ f. (reset_one f kind).1)
    ∙ gather-eq _ _ 0 r.fields (reset_all kind r.fields)

updates : (fs : List Field) → All IsValid fs → All (λ f. m_update f ≡ f.desired) fs
updates [] h = tt
updates (f ∷ fs) h = (m_update-desired f h.0, updates fs h.1)

-- `update` writes exactly if the register needs it, and then what `get` returns: the policies of the
-- fields have no effect on the value that is written.
pub update-get :
    (r : Reg) → All IsValid r.fields → update r ≡ (if needs_update r then some (get r) else none)
unfolding update get
update-get r h =
    ap (λ (v : ℕ). if needs_update r then some v else none)
      (gather-eq m_update (λ f. f.desired) 0 r.fields (updates r.fields h))
