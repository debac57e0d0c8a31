-- ===== src/Report/Samples.antt =====
-- A handler, a server and two catchers in use, and the theorems on reports at concrete inputs.
use uvm_systemc.Common.{◌+◌, ◌≡◌, refl, true, false, List, [], ◌∷◌, arith}
use uvm_systemc.Common.Maps.{find, insert}
use uvm_systemc.Report.{Severity, Message, display, count}
use uvm_systemc.Report.Handler.{
  get_action, get_verbosity_level, overridden, initialize, empty_handler, find_in, insert_in,
  set_severity_override, set_severity_id_override,
}
use uvm_systemc.Report.Settings.{
  Setting, severity_action, id_action, severity_id_action, max_verbosity, run, latest, on_action,
  on_id_action, on_severity_action, on_verbosity, on_id_verbosity, on_max_verbosity,
}
use uvm_systemc.Report.Lookups.{run-latest_setting}
use uvm_systemc.Report.Server.{Server, has_died, execute_all, empty_server}
use uvm_systemc.Report.Quits.{execute_all_quits}
use uvm_systemc.Report.Catchers.{
  Data, Catcher, throw, adjust_action, process_all_report_catchers, process_catchers,
  process_report_catcher, count_caught, count_demoted,
}

abbrev settings : List Setting
settings =
    severity_id_action Severity.error "A" 1
    ∷ id_action "A" 64
    ∷ severity_action Severity.error 0
    ∷ max_verbosity 300
    ∷ []

run-latest_setting_example :
    let h = run (initialize empty_handler) settings in
    (get_action h Severity.error "A" ≡ 1) × (get_verbosity_level h Severity.error "A" ≡ 300)
unfolding latest on_action on_id_action on_severity_action on_verbosity on_id_verbosity
    on_max_verbosity
run-latest_setting_example = run-latest_setting settings Severity.error "A"

-- An override of an info with the id hides the general override of warnings.
general_override_hidden :
    overridden
      (set_severity_id_override
        (set_severity_override empty_handler Severity.warning Severity.error)
        Severity.info
        "A"
        Severity.warning)
      Severity.warning
      "A"
    ≡ Severity.warning
unfolding overridden find insert insert_in
general_override_hidden = refl

abbrev an_error : Message
an_error = record {
  severity = Severity.error;
  id = "A";
  text = "";
  verbosity = 0;
  action = display + count;
  file = 0;
}

abbrev limited : Server
limited = record empty_server { max_quit_count = 2 }

execute_all_quits_example :
    let (s', es, left) =
      execute_all limited ((an_error, "") ∷ (an_error, "") ∷ (an_error, "") ∷ []) in
    (has_died es ≡ true) × (s'.quit_count ≡ 2)
execute_all_quits_example =
    execute_all_quits limited ((an_error, "") ∷ (an_error, "") ∷ (an_error, "") ∷ []) (omega arith)
      (refl, (refl, (refl, tt)))

-- A catcher that makes an error a warning and sets the action to what an error has by default.
abbrev demoter : Catcher
demoter = record {
  enabled = true;
  do_catch = λ m. (record m { severity = Severity.warning; action = display + count }, throw);
}

abbrev catcher_data : Data
catcher_data = record {
  demoted_fatal = 0;
  demoted_error = 0;
  demoted_warning = 0;
  caught_fatal = 0;
  caught_error = 0;
  caught_warning = 0;
  do_not_catch = false;
  do_not_modify = false;
  in_catcher = false;
  bad_answers = 0;
}

-- The action that the catcher has set is replaced.
set_action_lost :
    (process_all_report_catchers
      (initialize empty_handler)
      (demoter ∷ [])
      catcher_data
      an_error).1.action
    ≡ display
unfolding process_all_report_catchers process_catchers process_report_catcher adjust_action
    initialize get_action find_in find insert count_demoted count_caught
set_action_lost = refl
