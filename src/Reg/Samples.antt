-- ===== src/Reg/Samples.antt =====
-- A register of sixteen bits with two fields, and the theorems on registers at concrete inputs.
use uvm_systemc.Common.{
  ◌^◌, ◌-◌, ◌≤◌, ◌≡◌, ◌&&◌, ◌↔◌, refl, true, false, none, some, [], ◌∷◌, arith, All, if◌then◌else◌,
}
use uvm_systemc.Common.Bits.{test_bit}
use uvm_systemc.RegField.{Field, new_field}
use uvm_systemc.RegField.Observing.{frontdoor, predict_write, predict_direct}
use uvm_systemc.RegField.Policy.{Access, rights_rw, get_access}
use uvm_systemc.RegField.Effects.{written_bit}
use uvm_systemc.RegField.Bounds.{IsValid}
use uvm_systemc.Reg.{
  Reg, new_reg, insert_field, add_field, add_fields, set, get, get_mirrored_value, needs_update,
  any_field, update,
}
use uvm_systemc.Reg.Mirror.{Item, do_predict, do_check}
use uvm_systemc.Reg.Layout.{IsLaidOut, Disjoint, reports_overlap}
use uvm_systemc.Reg.Adding.{add_field-Disjoint, add_fields-new_reg, total}
use uvm_systemc.Reg.Image.{occupies, get-set}
use uvm_systemc.Reg.Fields.{IsValidReg}
use uvm_systemc.Reg.Predict.{do_predict-get_mirrored_value}
use uvm_systemc.Reg.Direct.{do_predict_direct, update-get}
use uvm_systemc.Reg.Check.{AgreeChecked, do_check_iff}

abbrev low_field : Field
low_field = record new_field { access = Access.rw; size = 4; check = true }

abbrev high_field : Field
high_field = record new_field {
  mirrored = 0xf0;
  desired = 0xf0;
  value = 0xf0;
  access = Access.w1c;
  lsb = 8;
  size = 8;
}

abbrev secret_field : Field
secret_field = record new_field { access = Access.wo; lsb = 8; size = 8; check = true }

abbrev two_fields : Reg
two_fields = record (new_reg 16) { fields = low_field ∷ high_field ∷ []; n_used_bits = 12 }

abbrev bus_write : Item
bus_write = record {
  value = 0x3005;
  path = frontdoor;
  is_backdoor = false;
  rights = rights_rw;
  byte_enables = 0b11;
  post_predict = λ f prev v. v;
}

low_field-IsValid : IsValid low_field
low_field-IsValid = record {
  positive = omega arith;
  word = omega arith;
  mirrored_fits = omega arith;
  desired_fits = omega arith;
  value_fits = omega arith;
  resets_fit = tt;
}

high_field-IsValid : IsValid high_field
high_field-IsValid = record {
  positive = omega arith;
  word = omega arith;
  mirrored_fits = omega arith;
  desired_fits = omega arith;
  value_fits = omega arith;
  resets_fit = tt;
}

two_fields-IsValidReg : IsValidReg (low_field ∷ high_field ∷ [])
two_fields-IsValidReg = record {
  laid_out = ((omega arith, tt), (tt, tt));
  valid = (low_field-IsValid, (high_field-IsValid, tt));
  in_word = (omega arith, (omega arith, tt));
}

-- The order of the calls does not matter.
added_in_reverse : add_fields (new_reg 16) (high_field ∷ low_field ∷ []) ≡ (two_fields, [])
unfolding add_fields add_field insert_field
added_in_reverse = refl

overlapping : (add_field two_fields (record new_field { lsb = 6; size = 2 })).1 ≡ []
unfolding add_field insert_field
overlapping = refl

get-set_example : test_bit (get (set two_fields 0x1234)) 9 ≡ true
get-set_example = get-set two_fields 0x1234 9 (omega arith, (omega arith, tt)) (omega arith)

add_field-Disjoint_example :
    (reports_overlap (add_field two_fields (record new_field { lsb = 6; size = 4 })).1 ≡ false)
    ↔ All (Disjoint (record new_field { lsb = 6; size = 4 })) (low_field ∷ high_field ∷ [])
add_field-Disjoint_example =
    add_field-Disjoint two_fields (record new_field { lsb = 6; size = 4 }) refl (omega arith)
      two_fields-IsValidReg.laid_out (omega arith) (omega arith, (omega arith, tt))

add_fields-new_reg_example :
    let r = (add_fields (new_reg 16) (high_field ∷ low_field ∷ [])).0 in
    IsLaidOut r.fields × (r.n_used_bits ≡ total r.fields) × (r.n_used_bits ≤ r.n_bits)
unfolding add_fields add_field insert_field
add_fields-new_reg_example =
    add_fields-new_reg 16 (high_field ∷ low_field ∷ []) (omega arith, (omega arith, tt)) refl

-- The end of the field that is added last wraps, so that it is not seen to run into the other.
a_wrapped_end :
    (add_fields (new_reg 64) (
      record new_field { lsb = 2 ^ 32 - 1; size = 4 }
      ∷ record new_field { lsb = 2 ^ 32 - 2; size = 4 }
      ∷ [])).1
    ≡ []
unfolding add_fields add_field insert_field
a_wrapped_end = refl

do_predict-get_mirrored_value_example :
    test_bit (get_mirrored_value (do_predict predict_write two_fields bus_write).0) 12
    ≡ written_bit Access.w1c true (test_bit (get_mirrored_value two_fields) 12) true
unfolding get_access
do_predict-get_mirrored_value_example =
    do_predict-get_mirrored_value two_fields bus_write (low_field ∷ []) high_field [] 4 refl
      two_fields-IsValidReg (λ prev v. refl) refl refl (omega arith)

do_predict_direct_example :
    let r' = (do_predict predict_direct two_fields bus_write).0 in
    (test_bit (get_mirrored_value r') 12
      ≡ (any_field (occupies 12) two_fields.fields && test_bit 0x3005 12))
    × (get r' ≡ get_mirrored_value r')
    × (needs_update r' ≡ false)
do_predict_direct_example =
    do_predict_direct two_fields bus_write 12 refl (omega arith, (omega arith, tt))
      (refl, (refl, tt)) (omega arith)

update-get_example :
    update two_fields ≡ (if needs_update two_fields then some (get two_fields) else none)
update-get_example = update-get two_fields (low_field-IsValid, (high_field-IsValid, tt))

-- A register with a write-only field that is to be checked.
do_check_iff_example :
    (do_check
        (record two_fields { fields = low_field ∷ secret_field ∷ [] })
        false
        rights_rw
        0x5500
        0
      ≡ true)
    ↔ AgreeChecked (low_field ∷ secret_field ∷ []) 0x5500 0
do_check_iff_example =
    do_check_iff (record two_fields { fields = low_field ∷ secret_field ∷ [] }) false rights_rw
      0x5500 0 (omega arith, (omega arith, tt)) (omega arith) (omega arith)

-- The write-only field is compared.
write_only_compared :
    do_check (record two_fields { fields = low_field ∷ secret_field ∷ [] }) false rights_rw 0x5500 0
    ≡ false
unfolding do_check get_access
write_only_compared = refl
