-- ===== src/RegField.antt =====
-- A field of a register: src/uvmsc/reg/uvm_reg_field.cpp. A value is a word of 64 bits,
-- the default `UVM_REG_DATA_WIDTH`. The parent register is represented by what the field asks of it:
-- whether it is busy, and its rights in the map of the access. Messages, file names and line numbers
-- are left out, and so are randomization and the memory of the field's own handle.
pub mod Policy
pub mod Observing
pub mod Effects
pub mod MapRights
pub mod Bounds
pub mod Runs
pub mod Predict
pub mod Desired
pub mod Siblings
mod Samples
use Prim.Native.Nat.{bit_and, bit_or, bit_xor}
use Prim.Native.String.{String}
use text.Mathlib.Text.{◌==◌ as str_eq}
use uvm_systemc.Common.{
  ℕ, zero, suc, ◌+◌, ◌-◌, ◌*◌, ◌/◌, ◌%◌, ◌^◌, Bool, true, false, not, Option, none, some, List, [],
  ◌∷◌, ◌==◌, ltb, if◌then◌else◌,
}
use uvm_systemc.Common.Maps.{Map, find, insert, erase, string_key}
use uvm_systemc.Common.Words.{complement, shift_left}
use Policy.{Access}

-- `uvm_mask_size`: `mask = (mask << 1) + 1`, as often as there are bits.
unfoldable pub uvm_mask_size : ℕ → ℕ
uvm_mask_size zero = 0
uvm_mask_size (suc n) = (shift_left (uvm_mask_size n) 1 + 1) % 2 ^ 64

pub record Field : Type 0 where
  pub mirrored : ℕ
  pub desired : ℕ
  pub value : ℕ
  pub access : Access
  pub lsb : ℕ
  pub size : ℕ
  pub is_volatile : Bool
  pub check : Bool
  pub resets : Map String ℕ
  pub written : Bool
  pub individually_accessible : Bool

-- The constructor, before `configure`; an empty string is the policy.
abbrev pub new_field : Field
new_field = record {
  mirrored = 0;
  desired = 0;
  value = 0;
  access = Access.custom "";
  lsb = 0;
  size = 0;
  is_volatile = false;
  check = false;
  resets = [];
  written = false;
  individually_accessible = false;
}

abbrev pub hard : String
hard = "HARD"

-- `known` is the lookup in the table of defined policies.
unfoldable pub set_reset : Field → ℕ → String → Field
set_reset f v kind = record f { resets = insert kind (bit_and v (uvm_mask_size f.size)) f.resets }

-- The reset value is given if the field has one.
unfoldable pub configure : (Access → Bool) → Field → ℕ → ℕ → Access → Bool → Option ℕ → Bool → Field
unfolding set_reset
configure known f size lsb access is_volatile reset individually =
    let sized = record f {
      size = if size == 0 then 1 else size;
      lsb = lsb;
      is_volatile = is_volatile;
      written = false;
      check = not is_volatile;
      individually_accessible = individually;
    } in
    let g : Field = elim reset [ none ↦ sized | some v ↦ set_reset sized v hard ] in
    record g { access = if known access then access else Access.rw }

-- `set_access`: an undefined policy is refused. The policy before the call is returned.
unfoldable pub set_access : (Access → Bool) → Field → Access → Field × Access
set_access known f mode = (if known mode then record f { access = mode } else f, f.access)

abbrev pub reset_to : Field → String → Option ℕ → Field
reset_to f kind none = f
reset_to f kind (some v) = record f {
  mirrored = v;
  desired = v;
  value = v;
  written = if str_eq kind hard then false else f.written;
}

unfoldable pub reset : Field → String → Field
reset f kind = reset_to f kind (find kind f.resets)

unfoldable pub get_reset : Field → String → ℕ
get_reset f kind = elim (find kind f.resets) [ none ↦ f.desired | some v ↦ v ]

unfoldable pub has_reset : Field → String → Bool → Field × Bool
has_reset f kind do_delete = elim (find kind f.resets) [
  | none ↦ (f, false)
  | some v ↦ (if do_delete then record f { resets = erase kind f.resets } else f, true)
]

unfoldable pub needs_update : Field → Bool
needs_update f = not (f.mirrored == f.desired)

-- The lines of `m_predict`: the value that a field holds after a write of `wr`, if it holds `cur`.
unfoldable pub m_predict : Access → Bool → ℕ → ℕ → ℕ → ℕ
m_predict Access.ro written mask cur wr = cur
m_predict Access.rw written mask cur wr = wr
m_predict Access.rc written mask cur wr = cur
m_predict Access.rs written mask cur wr = cur
m_predict Access.wc written mask cur wr = 0
m_predict Access.ws written mask cur wr = mask
m_predict Access.wrc written mask cur wr = wr
m_predict Access.wrs written mask cur wr = wr
m_predict Access.wsrc written mask cur wr = mask
m_predict Access.wcrs written mask cur wr = 0
m_predict Access.w1c written mask cur wr = bit_and cur (complement wr)
m_predict Access.w1s written mask cur wr = bit_or cur wr
m_predict Access.w1t written mask cur wr = bit_xor cur wr
m_predict Access.w0c written mask cur wr = bit_and cur wr
m_predict Access.w0s written mask cur wr = bit_or cur (bit_and (complement wr) mask)
m_predict Access.w0t written mask cur wr = bit_xor cur (bit_and (complement wr) mask)
m_predict Access.w1src written mask cur wr = bit_or cur wr
m_predict Access.w1crs written mask cur wr = bit_and cur (complement wr)
m_predict Access.w0src written mask cur wr = bit_or cur (bit_and (complement wr) mask)
m_predict Access.w0crs written mask cur wr = bit_and cur wr
m_predict Access.wo written mask cur wr = wr
m_predict Access.woc written mask cur wr = 0
m_predict Access.wos written mask cur wr = mask
m_predict Access.w1 written mask cur wr = if written then cur else wr
m_predict Access.wo1 written mask cur wr = if written then cur else wr
m_predict (Access.custom s) written mask cur wr = wr

-- The lines of `set` that look at the policy: the same table, with a default that keeps the value.
unfoldable pub set_by_access : Access → Bool → ℕ → ℕ → ℕ → ℕ
unfolding m_predict
set_by_access (Access.custom s) written mask cur wr = cur
set_by_access a written mask cur wr = m_predict a written mask cur wr

-- `set`, up to the last assignment, which is made whatever the policy.
unfoldable pub set : Field → ℕ → Field
unfolding set_by_access
set f v =
    let mask = uvm_mask_size f.size in
    let fitted = if v / 2 ^ f.size == 0 then v else bit_and v mask in
    let by_access = record f { desired = set_by_access f.access f.written mask f.desired fitted } in
    record by_access { desired = fitted; value = fitted }

-- The lines of `m_update` that look at the policy.
unfoldable pub update_by_access : Access → ℕ → ℕ → ℕ
update_by_access Access.w1c desired mirrored = complement desired
update_by_access Access.w1t desired mirrored = bit_xor desired mirrored
update_by_access Access.w0s desired mirrored = complement desired
update_by_access Access.w0t desired mirrored = complement (bit_xor desired mirrored)
update_by_access Access.w1crs desired mirrored = complement desired
update_by_access Access.w0src desired mirrored = complement desired
update_by_access a desired mirrored = desired

-- `m_update` computes by the policy and then overwrites the result.
unfoldable pub m_update : Field → ℕ
unfolding update_by_access
m_update f =
    let by_access = update_by_access f.access f.desired f.mirrored in
    let update = f.desired in bit_and update (uvm_mask_size f.size)
