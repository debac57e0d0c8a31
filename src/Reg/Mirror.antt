-- ===== src/Reg/Mirror.antt =====
-- Keeping the mirror of a register: do_predict, predict and do_check of src/uvmsc/reg/uvm_reg.cpp.
use Prim.Native.Nat.{bit_or}
use Prim.Native.String.{String, [], ◌∷◌}
use text.Mathlib.Text.{◌==◌ as str_eq}
use uvm_systemc.Common.{
  ℕ, ◌/◌, Bool, true, false, not, ◌||◌, ◌&&◌, List, [], ◌∷◌, ◌==◌, if◌then◌else◌,
}
use uvm_systemc.Common.Bits.{test_bit}
use uvm_systemc.Common.Words.{shift_left}
use uvm_systemc.RegField.{Field, uvm_mask_size}
use uvm_systemc.RegField.Observing.{
  predict_direct, is_ok, not_ok, do_predict as do_predict_field, Kind, Status, AccessPath, Observed,
  is_success,
}
use uvm_systemc.RegField.Policy.{Access, Rights, get_access}
use uvm_systemc.Reg.{Reg, slice}

-- The operation that `do_predict` is told about: its value and path, whether its map is the backdoor
-- and the rights of the register in it, the byte enables, and what the `post_predict` callbacks of a
-- field make of the previous and new values.
pub record Item : Type 0 where
  pub value : ℕ
  pub path : AccessPath
  pub is_backdoor : Bool
  pub rights : Rights
  pub byte_enables : ℕ
  pub post_predict : Field → ℕ → ℕ → ℕ

-- What one field of the register is told. The register is not busy where the field looks.
abbrev pub observed : Reg → Item → Status → Field → Observed
observed r o status f = record {
  value = slice o.value f;
  path = o.path;
  status = status;
  enabled = test_bit o.byte_enables (f.lsb / 8);
  access = (get_access f.access o.is_backdoor o.rights).0;
  busy = r.is_busy;
  post_predict = o.post_predict f;
}

-- The loop over the fields; the status of one call is the input of the next.
unfoldable pub predict_fields : Kind → Reg → Item → Status → List Field → List Field × Status
predict_fields kind r o status [] = ([], status)
predict_fields kind r o status (f ∷ fs) =
    let (f', after) = do_predict_field kind f (observed r o status f) in
    let (fs', last) = predict_fields kind r o after fs in (f' ∷ fs', last)

abbrev pub is_direct : Kind → Bool
is_direct predict_direct = true
is_direct _ = false

unfoldable pub do_predict : Kind → Reg → Item → Reg × Status
unfolding predict_fields
do_predict kind r o =
    let (fields, status) = predict_fields kind r o is_ok r.fields in
    if r.is_busy && is_direct kind then (r, not_ok) else (record r { fields = fields }, status)

unfoldable pub predict : Kind → Reg → Item → Reg × Bool
unfolding do_predict
predict kind r o = let (r', status) = do_predict kind r o in (r', is_success status)

-- `acc.substr(0, 1)`, the first character of a policy's name.
unfoldable pub first_letter : Access → String
first_letter Access.ro = "R"
first_letter Access.rw = "R"
first_letter Access.rc = "R"
first_letter Access.rs = "R"
first_letter (Access.custom []) = ""
first_letter (Access.custom (c ∷ s)) = c ∷ []
first_letter _ = "W"

-- The fields that `do_check` leaves out, by the policy in the map.
unfoldable pub left_out : Bool → Rights → Field → Bool
unfolding first_letter
left_out is_backdoor rights f =
    not f.check || str_eq (first_letter (get_access f.access is_backdoor rights).0) "WO"

-- The loop that collects their bits.
unfoldable pub dont_care : Bool → Rights → ℕ → List Field → ℕ
unfolding left_out
dont_care is_backdoor rights acc [] = acc
dont_care is_backdoor rights acc (f ∷ fs) =
    let ones = bit_or acc (shift_left (uvm_mask_size f.size) f.lsb) in
    dont_care is_backdoor rights (if left_out is_backdoor rights f then ones else acc) fs

-- `do_check` through a map, without the messages.
unfoldable pub do_check : Reg → Bool → Rights → ℕ → ℕ → Bool
unfolding dont_care
do_check r is_backdoor rights expected actual =
    let dc = dont_care is_backdoor rights 0 r.fields in bit_or actual dc == bit_or expected dc
