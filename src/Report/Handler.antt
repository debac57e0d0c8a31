-- ===== src/Report/Handler.antt =====
-- The report handler of an object: src/uvmsc/report/uvm_report_handler.cpp. Verbosity levels are not
-- negative. The printing functions and the dump are left out.
use Prim.Native.String.{String}
use uvm_systemc.Common.{ℕ, ◌+◌, Bool, not, Option, none, some, [], ◌==◌, ltb, if◌then◌else◌}
use uvm_systemc.Common.Maps.{Key, Map, find, insert, string_key}
use uvm_systemc.Report.{Severity, Message, severity_key, display, count, exit}

pub record Handler : Type 0 where
  pub max_verbosity_level : ℕ
  pub id_verbosities : Map String ℕ
  pub severity_id_verbosities : Map Severity (Map String ℕ)
  pub severity_actions : Map Severity ℕ
  pub id_actions : Map String ℕ
  pub severity_id_actions : Map Severity (Map String ℕ)
  pub sev_overrides : Map Severity Severity
  pub sev_id_overrides : Map String (Map Severity Severity)
  pub default_file_handle : ℕ
  pub severity_file_handles : Map Severity ℕ
  pub id_file_handles : Map String ℕ
  pub severity_id_file_handles : Map Severity (Map String ℕ)

abbrev pub row_of : {K V : Type 0} → Option (Map K V) → Map K V
row_of none = []
row_of (some row) = row

module _ {J K V : Type 0} ⦃outer : Key J⦄ ⦃inner : Key K⦄ where
  -- `m[j][k]`, if both keys are there.
  unfoldable pub find_in : J → K → Map J (Map K V) → Option V
  find_in j k m = elim (find j m) [ none ↦ none | some row ↦ find k row ]

  -- `m[j][k] = v`: a missing row is made.
  unfoldable pub insert_in : J → K → V → Map J (Map K V) → Map J (Map K V)
  insert_in j k v m = insert j (insert k v (row_of (find j m))) m

-- `get_verbosity_level`
unfoldable pub get_verbosity_level : Handler → Severity → String → ℕ
unfolding find_in
get_verbosity_level h severity id = elim (find_in severity id h.severity_id_verbosities) [
  | some v ↦ v
  | none ↦ elim (find id h.id_verbosities) [ some v ↦ v | none ↦ h.max_verbosity_level ]
]

-- `severity_actions[severity]`: a missing entry is read as 0.
abbrev pub or_zero : Option ℕ → ℕ
or_zero none = 0
or_zero (some v) = v

unfoldable pub get_action : Handler → Severity → String → ℕ
unfolding find_in
get_action h severity id = elim (find_in severity id h.severity_id_actions) [
  | some a ↦ a
  | none ↦ elim (find id h.id_actions) [
    | some a ↦ a
    | none ↦ or_zero (find severity h.severity_actions)
  ]
]

-- `get_severity_id_file`
unfoldable pub get_severity_id_file : Handler → Severity → String → ℕ
unfolding find_in
get_severity_id_file h severity id = elim (find_in severity id h.severity_id_file_handles) [
  | some file ↦ file
  | none ↦ elim (find id h.id_file_handles) [
    | some file ↦ file
    | none ↦ elim (find severity h.severity_file_handles) [
      | some file ↦ file
      | none ↦ h.default_file_handle
    ]
  ]
]

-- The file of an entry, unless it is the null pointer.
abbrev pub or_else : Option ℕ → ℕ → ℕ
or_else none other = other
or_else (some file) other = if file == 0 then other else file

unfoldable pub get_file_handle : Handler → Severity → String → ℕ
unfolding get_severity_id_file
get_file_handle h severity id =
    let file = get_severity_id_file h severity id in
    if file == 0
    then or_else (find id h.id_file_handles)
        (or_else (find severity h.severity_file_handles) h.default_file_handle)
    else file

-- The severity that `process_report_message` gives a message.
unfoldable pub overridden : Handler → Severity → String → Severity
overridden h severity id = elim (find id h.sev_id_overrides) [
  | some row ↦ elim (find severity row) [ some s ↦ s | none ↦ severity ]
  | none ↦ elim (find severity h.sev_overrides) [ some s ↦ s | none ↦ severity ]
]

-- `process_report_message`, up to the call of the server.
unfoldable pub process_report_message : Handler → Message → Message
unfolding overridden get_file_handle get_action
process_report_message h m =
    let severity = overridden h m.severity m.id in
    record m {
      severity = severity;
      file = get_file_handle h severity m.id;
      action = get_action h severity m.id;
    }

-- `uvm_report_object::uvm_report_enabled`
unfoldable pub uvm_report_enabled : Handler → ℕ → Severity → String → Bool
unfolding get_verbosity_level
uvm_report_enabled h verbosity severity id = not (ltb (get_verbosity_level h severity id) verbosity)

-- `report`, up to the call of the server: nothing if the verbosity is too high. The verbosity is looked
-- up for an info, whatever the severity is.
unfoldable pub report : Handler → Severity → String → String → ℕ → Option Message
unfolding uvm_report_enabled process_report_message
report h severity id text verbosity =
    if uvm_report_enabled h verbosity Severity.info id
    then some (
        process_report_message h record {
          severity = severity;
          id = id;
          text = text;
          verbosity = verbosity;
          action = get_action h severity id;
          file = 0;
        })
    else none

abbrev pub set_verbosity_level : Handler → ℕ → Handler
set_verbosity_level h level = record h { max_verbosity_level = level }

abbrev pub set_severity_action : Handler → Severity → ℕ → Handler
set_severity_action h severity action = record h {
  severity_actions = insert severity action h.severity_actions;
}

abbrev pub set_id_action : Handler → String → ℕ → Handler
set_id_action h id action = record h { id_actions = insert id action h.id_actions }

abbrev pub set_severity_id_action : Handler → Severity → String → ℕ → Handler
set_severity_id_action h severity id action = record h {
  severity_id_actions = insert_in severity id action h.severity_id_actions;
}

abbrev pub set_id_verbosity : Handler → String → ℕ → Handler
set_id_verbosity h id verbosity = record h { id_verbosities = insert id verbosity h.id_verbosities }

abbrev pub set_severity_id_verbosity : Handler → Severity → String → ℕ → Handler
set_severity_id_verbosity h severity id verbosity = record h {
  severity_id_verbosities = insert_in severity id verbosity h.severity_id_verbosities;
}

abbrev pub set_default_file : Handler → ℕ → Handler
set_default_file h file = record h { default_file_handle = file }

abbrev pub set_severity_file : Handler → Severity → ℕ → Handler
set_severity_file h severity file = record h {
  severity_file_handles = insert severity file h.severity_file_handles;
}

abbrev pub set_id_file : Handler → String → ℕ → Handler
set_id_file h id file = record h { id_file_handles = insert id file h.id_file_handles }

abbrev pub set_severity_id_file : Handler → Severity → String → ℕ → Handler
set_severity_id_file h severity id file = record h {
  severity_id_file_handles = insert_in severity id file h.severity_id_file_handles;
}

abbrev pub set_severity_override : Handler → Severity → Severity → Handler
set_severity_override h cur new = record h { sev_overrides = insert cur new h.sev_overrides }

abbrev pub set_severity_id_override : Handler → Severity → String → Severity → Handler
set_severity_id_override h cur id new = record h {
  sev_id_overrides = insert_in id cur new h.sev_id_overrides;
}

-- The members before the constructor's body.
abbrev pub empty_handler : Handler
empty_handler = record {
  max_verbosity_level = 0;
  id_verbosities = [];
  severity_id_verbosities = [];
  severity_actions = [];
  id_actions = [];
  severity_id_actions = [];
  sev_overrides = [];
  sev_id_overrides = [];
  default_file_handle = 0;
  severity_file_handles = [];
  id_file_handles = [];
  severity_id_file_handles = [];
}

-- `UVM_MEDIUM`
abbrev pub medium : ℕ
medium = 200

-- The constructor calls `initialize`.
unfoldable pub initialize : Handler → Handler
initialize h =
    let base = set_verbosity_level (set_default_file h 0) medium in
    let a = set_severity_action base Severity.info display in
    let b = set_severity_action a Severity.warning display in
    let c = set_severity_action b Severity.error (display + count) in
    let d = set_severity_action c Severity.fatal (display + exit) in
    let e = set_severity_file d Severity.info d.default_file_handle in
    let f = set_severity_file e Severity.warning e.default_file_handle in
    let g = set_severity_file f Severity.error f.default_file_handle in
    set_severity_file g Severity.fatal g.default_file_handle
