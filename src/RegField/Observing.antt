-- ===== src/RegField/Observing.antt =====
-- What a field makes of a bus operation that is observed (src/uvmsc/reg/uvm_reg_field.cpp): do_predict and
-- predict; and the value that do_write puts on the bus for the other fields of the register.
use Prim.Native.Nat.{bit_and, bit_or}
use uvm_systemc.Common.{ℕ, Bool, true, false, Option, none, some, List, [], ◌∷◌, if◌then◌else◌}
use uvm_systemc.Common.Maps.{string_key}
use uvm_systemc.Common.Words.{shift_left}
use uvm_systemc.RegField.Policy.{Access}
use uvm_systemc.RegField.{uvm_mask_size, Field, m_predict}

-- `uvm_path_e`
pub data AccessPath : Type 0 where
  frontdoor backdoor predicting default_path : AccessPath

-- `uvm_predict_e`
pub data Kind : Type 0 where
  predict_direct predict_read predict_write : Kind

pub data Status : Type 0 where
  is_ok not_ok has_x : Status

-- What a call of `do_predict` depends on: the observed value, path and status of the bus operation,
-- the first bit of the byte enables, the policy of the field in the operation's map, whether the
-- register is busy, and the effect of the `post_predict` callbacks on the previous and new values, which
-- is none where the callbacks are passed the values themselves, as they are: any effect is allowed for.
pub record Observed : Type 0 where
  pub value : ℕ
  pub path : AccessPath
  pub status : Status
  pub enabled : Bool
  pub access : Access
  pub busy : Bool
  pub post_predict : ℕ → ℕ → ℕ

abbrev pub through_policy : AccessPath → Bool
through_policy frontdoor = true
through_policy predicting = true
through_policy _ = false

-- A read clears the field, sets it, leaves the observed value, or (`none`) cannot be predicted.
unfoldable pub read_effect : Access → ℕ → ℕ → Option ℕ
read_effect Access.rc mask v = some 0
read_effect Access.wrc mask v = some 0
read_effect Access.wsrc mask v = some 0
read_effect Access.w1src mask v = some 0
read_effect Access.w0src mask v = some 0
read_effect Access.rs mask v = some mask
read_effect Access.wrs mask v = some mask
read_effect Access.wcrs mask v = some mask
read_effect Access.w1crs mask v = some mask
read_effect Access.w0crs mask v = some mask
read_effect Access.wo mask v = none
read_effect Access.woc mask v = none
read_effect Access.wos mask v = none
read_effect Access.wo1 mask v = none
read_effect _ mask v = some v

abbrev pub assign : Field → ℕ → Field
assign f v = record f { mirrored = v; desired = v; value = v }

abbrev pub status_after : Status → Status
status_after not_ok = not_ok
status_after _ = is_ok

abbrev pub read_assign : Field → Observed → Option ℕ → Field
read_assign f o none = f
read_assign f o (some w) = assign f (bit_and (o.post_predict f.mirrored w) (uvm_mask_size f.size))

unfoldable pub predict_by_kind : Kind → Field → Observed → ℕ → Field × Status
unfolding m_predict read_effect
predict_by_kind predict_write f o v =
    let mask = uvm_mask_size f.size in
    let w = if through_policy o.path then m_predict o.access f.written mask f.mirrored v else v in
    (
      assign (record f { written = true }) (bit_and (o.post_predict f.mirrored w) mask),
      status_after o.status,
    )
predict_by_kind predict_read f o v =
    let effect =
      if through_policy o.path then read_effect o.access (uvm_mask_size f.size) v else some v in
    (read_assign f o effect, status_after o.status)
predict_by_kind predict_direct f o v =
    (assign f v, if o.busy then not_ok else status_after o.status)

-- `do_predict`: the field and the status afterwards.
unfoldable pub do_predict : Kind → Field → Observed → Field × Status
do_predict kind f o =
    if o.enabled
    then predict_by_kind kind f o (bit_and o.value (uvm_mask_size f.size))
    else (f, status_after o.status)

abbrev pub is_success : Status → Bool
is_success not_ok = false
is_success _ = true

-- `predict` starts from the status `not_ok`.
unfoldable pub predict : Kind → Field → Observed → Field × Bool
unfolding do_predict
predict kind f o =
    let (f', status) = do_predict kind f (record o { status = not_ok }) in (f', is_success status)

-- What `do_write` puts on the bus for the other fields of the register, over the value that
-- `value_adjust` starts with; the source leaves that value unset.
abbrev pub all_ones_policy : Access → Bool
all_ones_policy Access.w0c = true
all_ones_policy Access.w0s = true
all_ones_policy Access.w0t = true
all_ones_policy Access.w0src = true
all_ones_policy Access.w0crs = true
all_ones_policy _ = false

unfoldable pub adjust_other : ℕ → Field → ℕ
adjust_other acc g =
    let ones =
      if all_ones_policy g.access
      then bit_or acc (shift_left (uvm_mask_size g.size) g.lsb)
      else acc in
    bit_or ones (shift_left g.mirrored g.lsb)

-- The loop over the fields of the register: the entry for the field itself is `none`, each other field
-- has its policy in the map of the access, and `v` fits the field.
unfoldable pub value_adjust : Field → ℕ → ℕ → List (Option Field) → ℕ
unfolding adjust_other
value_adjust f v acc [] = acc
value_adjust f v acc (none ∷ gs) = value_adjust f v (bit_or acc (shift_left v f.lsb)) gs
value_adjust f v acc (some g ∷ gs) = value_adjust f v (adjust_other acc g) gs
