-- ===== src/Report/Catchers.antt =====
-- Report catchers: src/uvmsc/report/uvm_report_catcher.cpp, and the server's process_report_message
-- (src/uvmsc/report/uvm_default_report_server.cpp) that calls them. A catcher is user code: what it makes
-- of a message and what it answers is a parameter. Catchers that report messages of their own, or change
-- the list of catchers, are left out; the report of an answer that is none is counted.
use Prim.Native.String.{String}
use uvm_systemc.Common.{
  ℕ, ◌+◌, Bool, true, false, not, ◌&&◌, List, [], ◌∷◌, ◌==◌, ltb, if◌then◌else◌,
}
use uvm_systemc.Report.{Severity, Message, is_severity, code, has, display, log}
use uvm_systemc.Report.Handler.{Handler, get_action}
use uvm_systemc.Report.Server.{Server, Effect, execute_report_message}

-- `action_e`
pub data Answer : Type 0 where
  throw caught unknown_action : Answer

-- A catcher that is switched off (`callback_mode`) is passed over.
pub record Catcher : Type 0 where
  pub enabled : Bool
  pub do_catch : Message → Message × Answer

-- `uvm_report_catcher_data`: the counters and the two debug flags, and the mark that a message is being
-- caught. `bad_answers` counts the reports RPTCTHR.
pub record Data : Type 0 where
  pub demoted_fatal : ℕ
  pub demoted_error : ℕ
  pub demoted_warning : ℕ
  pub caught_fatal : ℕ
  pub caught_error : ℕ
  pub caught_warning : ℕ
  pub do_not_catch : Bool
  pub do_not_modify : Bool
  pub in_catcher : Bool
  pub bad_answers : ℕ

abbrev pub is_caught : Answer → Bool
is_caught caught = true
is_caught _ = false

abbrev pub note_answer : Data → Answer → Data
note_answer d unknown_action = record d { bad_answers = d.bad_answers + 1 }
note_answer d _ = d

-- `process_report_catcher`: the message afterwards, and whether it is passed on. `orig` is the copy of
-- the message as it came to the first catcher.
unfoldable pub process_report_catcher : Data → Message → Catcher → Message → Data × Message × Bool
process_report_catcher d orig c m =
    let (m', answer) = c.do_catch m in
    (
      note_answer d answer,
      if d.do_not_modify then orig else m',
      not (is_caught answer && not d.do_not_catch),
    )

-- An id that no handler has a setting for.
abbrev pub no_id : String
no_id = "*@&*^*^*#"

-- A message whose severity has changed, and whose action is still the default of the severity before,
-- gets the default of the new one. `m_set_action_called` is false always.
unfoldable pub adjust_action : Handler → Severity → Message → Message
adjust_action h prev_sev m =
    if not (is_severity m.severity prev_sev) && (m.action == get_action h prev_sev no_id)
    then record m { action = get_action h m.severity no_id }
    else m

-- The loop over the catchers.
unfoldable pub process_catchers :
    Handler → Data → Message → List Catcher → Message → Data × Message × Bool
unfolding process_report_catcher adjust_action
process_catchers h d orig [] m = (d, m, true)
process_catchers h d orig (c ∷ cs) m =
    let (d', m', thrown) = process_report_catcher d orig c m in
    let adjusted = adjust_action h m.severity m' in
    let off = process_catchers h d orig cs m in
    let rest = process_catchers h d' orig cs adjusted in
    if c.enabled then if thrown then rest else (d', adjusted, false) else off

unfoldable pub count_caught : Severity → Data → Data
count_caught Severity.fatal d = record d { caught_fatal = d.caught_fatal + 1 }
count_caught Severity.error d = record d { caught_error = d.caught_error + 1 }
count_caught Severity.warning d = record d { caught_warning = d.caught_warning + 1 }
count_caught Severity.info d = d

unfoldable pub count_demoted : Severity → Data → Data
count_demoted Severity.fatal d = record d { demoted_fatal = d.demoted_fatal + 1 }
count_demoted Severity.error d = record d { demoted_error = d.demoted_error + 1 }
count_demoted Severity.warning d = record d { demoted_warning = d.demoted_warning + 1 }
count_demoted Severity.info d = d

unfoldable pub process_all_report_catchers :
    Handler → List Catcher → Data → Message → Data × Message × Bool
unfolding process_catchers count_caught count_demoted
process_all_report_catchers h cs d m =
    let (d', m', thrown) = process_catchers h (record d { in_catcher = true }) m cs m in
    let caught = if thrown then d' else count_caught m.severity d' in
    let demoted =
      if ltb (code m'.severity) (code m.severity)
      then count_demoted m.severity caught
      else caught in
    if d.in_catcher then (d, m, true) else (record demoted { in_catcher = false }, m', thrown)

-- The server's `process_report_message`: the text is composed only if it is to be shown.
unfoldable pub serve :
    (Message → String)
    → Handler
    → List Catcher
    → Server
    → Data
    → Message
    → Server × Data × List Effect
unfolding process_all_report_catchers execute_report_message
serve compose h cs s d m =
    let (d', m', report_ok) = process_all_report_catchers h cs d m in
    let text = if has m'.action (display + log) then compose m' else "" in
    let (s', m'', es) = execute_report_message s m' text in
    if report_ok && not (m'.action == 0) then (s', d', es) else (s, d', [])
