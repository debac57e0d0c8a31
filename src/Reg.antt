-- ===== src/Reg.antt =====
-- A register and its fields: src/uvmsc/reg/uvm_reg.cpp. The register owns its fields and hands each
-- operation on to them (src/uvmsc/reg/uvm_reg_field.cpp), a slice of the value to each. A value is a
-- word of 64 bits, the default `UVM_REG_DATA_WIDTH`, and a field is moved by less than 64. Messages, file names and line numbers are left
-- out; an error report is a value.
pub mod Mirror
pub mod Image
pub mod Layout
pub mod Adding
pub mod Fields
pub mod Direct
pub mod Predict
pub mod Check
mod Samples
use Prim.Native.Nat.{bit_and, bit_or}
use Prim.Native.String.{String, [], ◌∷◌}
use text.Mathlib.Text.{◌==◌ as str_eq}
use uvm_systemc.Common.{
  ℕ, zero, suc, ◌+◌, ◌-◌, ◌*◌, ◌/◌, ◌%◌, ◌^◌, Bool, true, false, not, ◌||◌, ◌&&◌, Option, none,
  some, List, [], ◌∷◌, ◌++◌, ◌==◌, ltb, if◌then◌else◌, length, get_elem?, map,
}
use uvm_systemc.Common.Bits.{test_bit}
use uvm_systemc.Common.Words.{shift_left}
use uvm_systemc.RegField.{
  Field, uvm_mask_size, needs_update as field_needs_update, set as set_field, reset as reset_field,
  get_reset as field_get_reset, has_reset as field_has_reset, set_reset as set_field_reset,
  m_update,
}
use uvm_systemc.RegField.Observing.{
  predict_direct, is_ok, not_ok, do_predict as do_predict_field, Kind, Status, AccessPath, Observed,
  is_success,
}
use uvm_systemc.RegField.Policy.{Access, Rights, get_access}

pub record Reg : Type 0 where
  pub fields : List Field
  pub n_bits : ℕ
  pub n_used_bits : ℕ
  pub locked : Bool
  pub is_busy : Bool

-- The constructor; no register has 0 bits.
abbrev pub new_reg : ℕ → Reg
new_reg n_bits = record {
  fields = [];
  n_bits = if n_bits == 0 then 1 else n_bits;
  n_used_bits = 0;
  locked = false;
  is_busy = false;
}

-- `m_lock_model`
unfoldable pub m_lock_model : Reg → Reg
m_lock_model r = record r { locked = true }

-- `get_n_bytes`: the subtraction is unsigned, in 32 bits.
unfoldable pub get_n_bytes : Reg → ℕ
get_n_bytes r = (if r.n_bits == 0 then 2 ^ 32 - 1 else r.n_bits - 1) / 8 + 1

-- What `add_field` reports.
pub data LayoutError : Type 0 where
  locked_model too_many_bits overlaps_below overlaps_above : LayoutError

-- The loop of `add_field`: the field goes before the first one with a higher position, or at the end.
-- `idx` is the index where it goes.
unfoldable pub insert_field : Field → List Field → List Field × ℕ
insert_field f [] = (f ∷ [], 0)
insert_field f (g ∷ gs) =
    let (rest, i) = insert_field f gs in
    if ltb f.lsb g.lsb then (f ∷ g ∷ gs, 0) else (g ∷ rest, suc i)

-- The field ends after the start of the next one. Positions and sizes are of type `unsigned int`.
abbrev pub runs_into : Field → Option Field → Bool
runs_into f none = false
runs_into f (some g) = ltb g.lsb ((f.lsb + f.size) % 2 ^ 32)

abbrev pub run_into : Option Field → Field → Bool
run_into none f = false
run_into (some g) f = ltb f.lsb ((g.lsb + g.size) % 2 ^ 32)

-- The field at `idx - 1`, if there is one.
abbrev pub preceding : List Field → ℕ → Option Field
preceding fs zero = none
preceding fs (suc i) = get_elem? fs i

abbrev pub report : Bool → LayoutError → List LayoutError
report true e = e ∷ []
report false e = []

unfoldable pub add_field : Reg → Field → Reg × List LayoutError
unfolding insert_field
add_field r f =
    let (fields, idx) = insert_field f r.fields in
    let used = (r.n_used_bits + f.size) % 2 ^ 32 in
    let before = preceding fields idx in
    let after = get_elem? fields (idx + 1) in
    if r.locked then (r, locked_model ∷ []) else (
      record r { fields = fields; n_used_bits = used },
      report (ltb r.n_bits used) too_many_bits
          ++ report (run_into before f) overlaps_below
          ++ report (runs_into f after) overlaps_above,
    )

-- The fields are added one after another; the reports of all calls.
unfoldable pub add_fields : Reg → List Field → Reg × List LayoutError
unfolding add_field
add_fields r [] = (r, [])
add_fields r (f ∷ fs) =
    let (added, errors) = add_field r f in
    let (last, more) = add_fields added fs in (last, errors ++ more)

-- The bits of a word that belong to a field.
unfoldable pub slice : ℕ → Field → ℕ
slice v f = bit_and (v / 2 ^ f.lsb) (uvm_mask_size f.size)

unfoldable pub set : Reg → ℕ → Reg
unfolding slice
set r v = record r { fields = map (λ f. set_field f (slice v f)) r.fields }

-- The loop that puts the values of the fields together, from the value `acc`.
unfoldable pub gather : (Field → ℕ) → ℕ → List Field → ℕ
gather g acc [] = acc
gather g acc (f ∷ fs) = gather g (bit_or acc (shift_left (g f) f.lsb)) fs

unfoldable pub get : Reg → ℕ
unfolding gather
get r = gather (λ f. f.desired) 0 r.fields

unfoldable pub get_mirrored_value : Reg → ℕ
unfolding gather
get_mirrored_value r = gather (λ f. f.mirrored) 0 r.fields

abbrev pub any_field : (Field → Bool) → List Field → Bool
any_field p [] = false
any_field p (f ∷ fs) = if p f then true else any_field p fs

unfoldable pub needs_update : Reg → Bool
needs_update r = any_field field_needs_update r.fields

-- `reset`, without the semaphore.
unfoldable pub reset : Reg → String → Reg
reset r kind = record r { fields = map (λ f. reset_field f kind) r.fields }

unfoldable pub get_reset : Reg → String → ℕ
unfolding gather
get_reset r kind = gather (λ f. field_get_reset f kind) 0 r.fields

-- The loop of `has_reset`, with the value found so far. It ends early if nothing is to be deleted.
unfoldable pub has_reset_fields : List Field → String → Bool → Bool → List Field × Bool
has_reset_fields [] kind do_delete found = ([], found)
has_reset_fields (f ∷ fs) kind do_delete found =
    let (f', has) = field_has_reset f kind do_delete in
    let (fs', result) = has_reset_fields fs kind do_delete (found || has) in
    if not do_delete && (found || has) then (f' ∷ fs, true) else (f' ∷ fs', result)

unfoldable pub has_reset : Reg → String → Bool → Reg × Bool
unfolding has_reset_fields
has_reset r kind do_delete =
    let (fields, result) = has_reset_fields r.fields kind do_delete false in
    (record r { fields = fields }, result)

unfoldable pub set_reset : Reg → ℕ → String → Reg
set_reset r v kind = record r {
  fields = map (λ f. set_field_reset f (v / 2 ^ f.lsb) kind) r.fields;
}

-- `update`: the value that is written, if anything is.
unfoldable pub update : Reg → Option ℕ
unfolding gather needs_update
update r = if needs_update r then some (gather m_update 0 r.fields) else none
