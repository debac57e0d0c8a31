-- ===== src/Report.antt =====
-- Reports: src/uvmsc/report. A message goes from the handler of the reporting object, which gives it
-- its action, through the catchers to the server, which counts it and acts. This file has what the
-- parts share: severities and actions (src/uvmsc/base/uvm_object_globals.h) and the message
-- (src/uvmsc/report/uvm_report_message.cpp), without its file name, line and elements.
pub mod Handler
pub mod Settings
pub mod Lookups
pub mod Server
pub mod Quits
pub mod Catchers
pub mod Caught
mod Samples
use Prim.Native.Nat.{bit_and, bit_or}
use Prim.Native.String.{String}
use uvm_systemc.Common.{ℕ, zero, suc, ◌≡◌, refl, sym, ap, ◌∙◌, ◌↔◌, Bool, true, not, ◌==◌, ==_iff}
use uvm_systemc.Common.Maps.{Key}

-- `uvm_severity`
pub data Severity : Type 0 where
  info warning error fatal : Severity

-- The number of an enumerator.
abbrev pub code : Severity → ℕ
code Severity.info = 0
code Severity.warning = 1
code Severity.error = 2
code Severity.fatal = 3

abbrev pub is_severity : Severity → Severity → Bool
is_severity a b = code a == code b

of_code : ℕ → Severity
of_code zero = Severity.info
of_code (suc zero) = Severity.warning
of_code (suc (suc zero)) = Severity.error
of_code (suc (suc (suc n))) = Severity.fatal

of_code-code : (a : Severity) → of_code (code a) ≡ a
unfolding of_code
of_code-code Severity.info = refl
of_code-code Severity.warning = refl
of_code-code Severity.error = refl
of_code-code Severity.fatal = refl

pub is_severity_iff : (a b : Severity) → (is_severity a b ≡ true) ↔ (a ≡ b)
is_severity_iff a b = (
  λ e. sym (of_code-code a) ∙ ap of_code ((==_iff (code a) (code b)).0 e) ∙ of_code-code b,
  λ e. (==_iff (code a) (code b)).1 (ap code e),
)

instance abbrev pub severity_key : Key Severity
severity_key = record { same = is_severity; same_iff = is_severity_iff }

-- `uvm_action_type`: bits of an action.
abbrev pub display : ℕ
display = 1

abbrev pub log : ℕ
log = 2

abbrev pub count : ℕ
count = 4

abbrev pub exit : ℕ
exit = 8

abbrev pub stop : ℕ
stop = 32

abbrev pub rm_record : ℕ
rm_record = 64

-- `action & bit`, as a test.
abbrev pub has : ℕ → ℕ → Bool
has action bit = not (bit_and action bit == 0)

-- A file is a pointer; 0 is the null pointer.
pub record Message : Type 0 where
  pub severity : Severity
  pub id : String
  pub text : String
  pub verbosity : ℕ
  pub action : ℕ
  pub file : ℕ
