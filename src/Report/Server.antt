-- ===== src/Report/Server.antt =====
-- The report server: src/uvmsc/report/uvm_default_report_server.cpp. It counts the messages and carries
-- out their actions; what it does is a list of effects. `die` throws, so nothing comes after it. Counts
-- are taken to stay below 2^31. Composing the text, the summary and the printing functions are left out.
use Prim.Native.Nat.{bit_or}
use Prim.Native.String.{String}
use uvm_systemc.Common.{
  ℕ, ◌+◌, Bool, true, false, not, ◌&&◌, none, some, List, [], ◌∷◌, ◌++◌, ◌==◌, leb, if◌then◌else◌,
}
use uvm_systemc.Common.Maps.{Map, find, insert, string_key}
use uvm_systemc.Report.{
  Severity, Message, severity_key, has, display, log, count, exit, stop, rm_record,
}
use uvm_systemc.Report.Handler.{or_zero}

pub record Server : Type 0 where
  pub quit_count : ℕ
  pub max_quit_count : ℕ
  pub max_quit_overridable : Bool
  pub severity_count : Map Severity ℕ
  pub id_count : Map String ℕ
  pub record_all_messages : Bool

pub data Effect : Type 0 where
  displays : String → Effect
  logs : ℕ → String → Effect
  dies : Effect
  stops : Effect

-- `set_max_quit_count`, and whether the new count was taken. Negative counts are set as 0, so the
-- argument is not negative here.
unfoldable pub set_max_quit_count : Server → ℕ → Bool → Server × Bool
set_max_quit_count s n overridable =
    if s.max_quit_overridable
    then (record s { max_quit_overridable = overridable; max_quit_count = n }, true)
    else (s, false)

unfoldable pub set_quit_count : Server → ℕ → Server
set_quit_count s n = record s { quit_count = n }

unfoldable pub incr_quit_count : Server → Server
incr_quit_count s = record s { quit_count = s.quit_count + 1 }

unfoldable pub reset_quit_count : Server → Server
reset_quit_count s = record s { quit_count = 0 }

unfoldable pub is_quit_count_reached : Server → Bool
is_quit_count_reached s = leb s.max_quit_count s.quit_count

unfoldable pub get_severity_count : Server → Severity → ℕ
get_severity_count s severity = or_zero (find severity s.severity_count)

unfoldable pub set_severity_count : Server → Severity → ℕ → Server
set_severity_count s severity n = record s { severity_count = insert severity n s.severity_count }

-- `m_severity_count[severity]++`
unfoldable pub incr_severity_count : Server → Severity → Server
unfolding get_severity_count
incr_severity_count s severity = record s {
  severity_count = insert severity (get_severity_count s severity + 1) s.severity_count;
}

unfoldable pub reset_severity_counts : Server → Server
reset_severity_counts s = record s {
  severity_count = insert Severity.fatal 0 (
      insert Severity.error 0
        (insert Severity.warning 0 (insert Severity.info 0 s.severity_count)));
}

unfoldable pub get_id_count : Server → String → ℕ
get_id_count s id = or_zero (find id s.id_count)

unfoldable pub set_id_count : Server → String → ℕ → Server
set_id_count s id n = record s { id_count = insert id n s.id_count }

unfoldable pub incr_id_count : Server → String → Server
incr_id_count s id = record s {
  id_count = insert id (elim (find id s.id_count) [ some n ↦ n + 1 | none ↦ 1 ]) s.id_count;
}

-- The members before the constructor's body.
abbrev pub empty_server : Server
empty_server = record {
  quit_count = 0;
  max_quit_count = 0;
  max_quit_overridable = true;
  severity_count = [];
  id_count = [];
  record_all_messages = false;
}

-- The constructor.
unfoldable pub new_server : Server
unfolding reset_severity_counts reset_quit_count set_max_quit_count
new_server = reset_severity_counts (reset_quit_count (set_max_quit_count empty_server 0 true).0)

-- The part of `execute_report_message` for `UVM_COUNT`: the server and the action afterwards.
unfoldable pub count_quit : Server → ℕ → Server × ℕ
unfolding incr_quit_count is_quit_count_reached
count_quit s action =
    let counted = incr_quit_count s in
    if has action count && not (s.max_quit_count == 0)
    then (counted, if is_quit_count_reached counted then bit_or action exit else action)
    else (s, action)

-- `die` throws, so a stop after it is not reached.
unfoldable pub endings : ℕ → List Effect
endings action = if has action exit then dies ∷ [] else if has action stop then stops ∷ [] else []

-- `execute_report_message`, with the composed text.
unfoldable pub execute_report_message : Server → Message → String → Server × Message × List Effect
unfolding incr_severity_count incr_id_count count_quit endings
execute_report_message s m text =
    let counted = incr_id_count (incr_severity_count s m.severity) m.id in
    let recorded = if s.record_all_messages then bit_or m.action rm_record else m.action in
    let (quit, action) = count_quit counted recorded in
    (
      quit,
      record m { action = action },
      (if has recorded display then displays text ∷ [] else [])
          ++ (if has recorded log then logs m.file text ∷ [] else [])
          ++ endings action,
    )

-- Whether the effects end the run.
unfoldable pub has_died : List Effect → Bool
has_died [] = false
has_died (dies ∷ es) = true
has_died (displays text ∷ es) = has_died es
has_died (logs file text ∷ es) = has_died es
has_died (stops ∷ es) = has_died es

-- Messages that are executed one after another, until one of them throws: the server, the effects, and
-- the messages that are left.
unfoldable pub execute_all :
    Server → List (Message × String) → Server × List Effect × List (Message × String)
unfolding execute_report_message has_died
execute_all s [] = (s, [], [])
execute_all s ((m, text) ∷ ms) =
    let (s', m', es) = execute_report_message s m text in
    let (last, more, left) = execute_all s' ms in
    if has_died es then (s', es, ms) else (last, es ++ more, left)
