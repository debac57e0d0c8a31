-- ===== src/RegField/Runs.antt =====
-- Any sequence of calls on a register field keeps its values within its size.
use Prim.Native.String.{String}
use uvm_systemc.Common.{ℕ, Bool, List, [], ◌∷◌}
use uvm_systemc.Common.Maps.{string_key}
use uvm_systemc.RegField.{Field, set_reset, set_access, reset, has_reset, set}
use uvm_systemc.RegField.Observing.{Kind, Observed, do_predict}
use uvm_systemc.RegField.Policy.{Access}
use uvm_systemc.RegField.Bounds.{
  IsValid, reset-IsValid, has_reset-IsValid, set_access-IsValid, set_reset-IsValid, set-IsValid,
  do_predict-IsValid,
}

-- A call that changes the field, after its configuration.
pub data Call : Type 0 where
  calls_set : ℕ → Call
  calls_set_access : Access → Call
  calls_set_reset : ℕ → String → Call
  calls_reset : String → Call
  calls_has_reset : String → Bool → Call
  calls_predict : Kind → Observed → Call

pub apply : (Access → Bool) → Field → Call → Field
apply known f (calls_set v) = set f v
apply known f (calls_set_access a) = (set_access known f a).0
apply known f (calls_set_reset v kind) = set_reset f v kind
apply known f (calls_reset kind) = reset f kind
apply known f (calls_has_reset kind b) = (has_reset f kind b).0
apply known f (calls_predict kind o) = (do_predict kind f o).0

apply-IsValid :
    (known : Access → Bool) (f : Field) (c : Call) → IsValid f → IsValid (apply known f c)
unfolding apply
apply-IsValid known f (calls_set v) h = set-IsValid f v h
apply-IsValid known f (calls_set_access a) h = set_access-IsValid known f a h
apply-IsValid known f (calls_set_reset v kind) h = set_reset-IsValid f v kind h
apply-IsValid known f (calls_reset kind) h = reset-IsValid f kind h
apply-IsValid known f (calls_has_reset kind b) h = has_reset-IsValid f kind b h
apply-IsValid known f (calls_predict kind o) h = do_predict-IsValid kind f o h

pub run : (Access → Bool) → Field → List Call → Field
run known f [] = f
run known f (c ∷ cs) = run known (apply known f c) cs

-- After any sequence of calls, the mirrored, desired and abstract values of a valid field and all its
-- reset values fit its size, whatever the callbacks of a prediction return.
pub run-IsValid :
    (known : Access → Bool) (f : Field) (cs : List Call) → IsValid f → IsValid (run known f cs)
unfolding run
run-IsValid known f [] h = h
run-IsValid known f (c ∷ cs) h = run-IsValid known (apply known f c) cs (apply-IsValid known f c h)
