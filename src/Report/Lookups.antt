-- ===== src/Report/Lookups.antt =====
-- What the lookups of a report handler (src/uvmsc/report/uvm_report_handler.cpp) answer after a run of
-- settings.
use Prim.Native.String.{String}
use uvm_systemc.Common.{ℕ, ◌+◌, ◌≡◌, refl, ap, ◌∙◌, Option, none, some, List, arith}
use uvm_systemc.Common.Maps.{find, insert, find-insert, string_key}
use uvm_systemc.Report.{Severity, severity_key, display, count, exit}
use uvm_systemc.Report.Handler.{
  Handler, find_in, or_zero, get_action, get_verbosity_level, initialize, empty_handler, medium,
}
use uvm_systemc.Report.Settings.{
  find_in-insert_in, max_verbosity, id_verbosity, severity_id_verbosity, severity_action, id_action,
  severity_id_action, Setting, apply, run, orelse, latest, on_severity_action, on_id_action,
  on_action, on_max_verbosity, on_id_verbosity, on_verbosity, run-latest,
}

module _ (s : Severity) (id : String) where
  action_step :
      (h : Handler) (c : Setting)
      → find_in s id (apply h c).severity_id_actions
        ≡ orelse (on_action s id c) (find_in s id h.severity_id_actions)
  unfolding apply on_action
  action_step h (severity_id_action t name a) =
      find_in-insert_in s t id name a h.severity_id_actions ∙ ground arith
  action_step h _ = refl

  id_action_step :
      (h : Handler) (c : Setting)
      → find id (apply h c).id_actions ≡ orelse (on_id_action id c) (find id h.id_actions)
  unfolding apply on_id_action
  id_action_step h (id_action name a) = find-insert id name a h.id_actions ∙ ground arith
  id_action_step h _ = refl

  severity_action_step :
      (h : Handler) (c : Setting)
      → find s (apply h c).severity_actions
        ≡ orelse (on_severity_action s c) (find s h.severity_actions)
  unfolding apply on_severity_action
  severity_action_step h (severity_action t a) = find-insert s t a h.severity_actions ∙ ground arith
  severity_action_step h _ = refl

  verbosity_step :
      (h : Handler) (c : Setting)
      → find_in s id (apply h c).severity_id_verbosities
        ≡ orelse (on_verbosity s id c) (find_in s id h.severity_id_verbosities)
  unfolding apply on_verbosity
  verbosity_step h (severity_id_verbosity t name v) =
      find_in-insert_in s t id name v h.severity_id_verbosities ∙ ground arith
  verbosity_step h _ = refl

  id_verbosity_step :
      (h : Handler) (c : Setting)
      → find id (apply h c).id_verbosities
        ≡ orelse (on_id_verbosity id c) (find id h.id_verbosities)
  unfolding apply on_id_verbosity
  id_verbosity_step h (id_verbosity name v) = find-insert id name v h.id_verbosities ∙ ground arith
  id_verbosity_step h _ = refl

max_verbosity_step :
    (h : Handler) (c : Setting)
    → some (apply h c).max_verbosity_level
      ≡ orelse (on_max_verbosity c) (some h.max_verbosity_level)
unfolding apply on_max_verbosity
max_verbosity_step h (max_verbosity v) = refl
max_verbosity_step h _ = refl

-- `UVM_DISPLAY` for each, `UVM_COUNT` for an error, and `UVM_EXIT` for a fatal.
abbrev pub default_action : Severity → ℕ
default_action Severity.error = display + count
default_action Severity.fatal = display + exit
default_action _ = display

default-action :
    (s : Severity) → find s (initialize empty_handler).severity_actions ≡ some (default_action s)
unfolding initialize find insert
default-action Severity.info = refl
default-action Severity.warning = refl
default-action Severity.error = refl
default-action Severity.fatal = refl

-- The first of three answers, or the last resort.
abbrev pub first_of : Option ℕ → Option ℕ → Option ℕ → ℕ → ℕ
first_of a b c last = or_zero (orelse a (orelse b (orelse c (some last))))

orelse_nothing : (o : Option ℕ) → orelse o none ≡ o
orelse_nothing none = refl
orelse_nothing (some v) = refl

-- Three places to look, as the lookups nest them.
nested :
    (a b c : Option ℕ)
    → (elim a [ some v ↦ v | none ↦ elim b [ some v ↦ v | none ↦ or_zero c ] ])
      ≡ or_zero (orelse a (orelse b c))
nested none none c = refl
nested none (some v) c = refl
nested (some v) b c = refl

-- The places that a run has left.
looked_up :
    (h : Handler) (cs : List Setting) (a b c : Handler → Option ℕ)
    (on_a on_b on_c : Setting → Option ℕ)
    → ((h : Handler) (c : Setting) → a (apply h c) ≡ orelse (on_a c) (a h))
    → ((h : Handler) (c : Setting) → b (apply h c) ≡ orelse (on_b c) (b h))
    → ((h : Handler) (d : Setting) → c (apply h d) ≡ orelse (on_c d) (c h))
    → a h ≡ none
    → b h ≡ none
    → (last : ℕ) → c h ≡ some last
    → or_zero (orelse (a (run h cs)) (orelse (b (run h cs)) (c (run h cs))))
      ≡ first_of (latest on_a cs) (latest on_b cs) (latest on_c cs) last
looked_up h cs a b c on_a on_b on_c step_a step_b step_c none_a none_b last from_c =
    ap (λ o. or_zero (orelse o (orelse (b (run h cs)) (c (run h cs)))))
      (run-latest a on_a step_a h cs ∙ ap (orelse (latest on_a cs)) none_a ∙ orelse_nothing _)
    ∙ ap (λ o. or_zero (orelse (latest on_a cs) (orelse o (c (run h cs)))))
        (run-latest b on_b step_b h cs ∙ ap (orelse (latest on_b cs)) none_b ∙ orelse_nothing _)
    ∙ ap (λ o. or_zero (orelse (latest on_a cs) (orelse (latest on_b cs) o)))
        (run-latest c on_c step_c h cs ∙ ap (orelse (latest on_c cs)) from_c)

-- After any sequence of settings of a new handler, the action for a severity and an id is the one that
-- was set last for this severity with this id, else the one that was set last for the id, else the one
-- that was set last for the severity, else the default of the severity; and the verbosity level is
-- the one that was set last for the severity with the id, else for the id, else for the handler, else
-- `UVM_MEDIUM`. No other setting has an effect on them, in whatever order they were made.
pub run-latest_setting :
    (cs : List Setting) (s : Severity) (id : String)
    → let h = run (initialize empty_handler) cs in
      (get_action h s id
        ≡ first_of
            (latest (on_action s id) cs)
            (latest (on_id_action id) cs)
            (latest (on_severity_action s) cs)
            (default_action s))
      × (get_verbosity_level h s id
          ≡ first_of
              (latest (on_verbosity s id) cs)
              (latest (on_id_verbosity id) cs)
              (latest on_max_verbosity cs)
              medium)
unfolding get_action get_verbosity_level find_in initialize find
run-latest_setting cs s id = (
  nested (find_in s id (h cs).severity_id_actions) (find id (h cs).id_actions)
        (find s (h cs).severity_actions)
      ∙ looked_up (initialize empty_handler) cs (λ h. find_in s id h.severity_id_actions)
          (λ h. find id h.id_actions) (λ h. find s h.severity_actions) (on_action s id)
          (on_id_action id) (on_severity_action s) (action_step s id) (id_action_step s id)
          (severity_action_step s id) refl refl (default_action s) (default-action s),
  nested (find_in s id (h cs).severity_id_verbosities) (find id (h cs).id_verbosities)
        (some (h cs).max_verbosity_level)
      ∙ looked_up (initialize empty_handler) cs (λ h. find_in s id h.severity_id_verbosities)
          (λ h. find id h.id_verbosities) (λ h. some h.max_verbosity_level) (on_verbosity s id)
          (on_id_verbosity id) on_max_verbosity (verbosity_step s id) (id_verbosity_step s id)
          max_verbosity_step refl refl medium refl,
)
  where
    h : List Setting → Handler
    h cs = run (initialize empty_handler) cs
