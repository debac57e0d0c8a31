-- ===== src/Report/Settings.antt =====
-- Runs of the functions that set a report handler up (src/uvmsc/report/uvm_report_handler.cpp), and what
-- the lookups answer after them.
use Prim.Native.String.{String}
use uvm_systemc.Common.{
  ℕ, ◌≡◌, refl, ap, ◌∙◌, Bool, ◌&&◌, Option, none, some, List, [], ◌∷◌, if◌then◌else◌, arith, inl,
  inr, Bool-cases,
}
use uvm_systemc.Common.Maps.{Key, Map, find, insert, find-insert, string_key}
use uvm_systemc.Report.{Severity, severity_key, is_severity}
use uvm_systemc.Report.Handler.{
  Handler, find_in, insert_in, row_of, set_verbosity_level, set_severity_action, set_id_action,
  set_severity_id_action, set_id_verbosity, set_severity_id_verbosity, set_default_file,
  set_severity_file, set_id_file, set_severity_id_file, set_severity_override,
  set_severity_id_override,
}

-- The calls.
pub data Setting : Type 0 where
  max_verbosity : ℕ → Setting
  id_verbosity : String → ℕ → Setting
  severity_id_verbosity : Severity → String → ℕ → Setting
  severity_action : Severity → ℕ → Setting
  id_action : String → ℕ → Setting
  severity_id_action : Severity → String → ℕ → Setting
  default_file : ℕ → Setting
  severity_file : Severity → ℕ → Setting
  id_file : String → ℕ → Setting
  severity_id_file : Severity → String → ℕ → Setting
  override : Severity → Severity → Setting
  id_override : Severity → String → Severity → Setting

unfoldable pub apply : Handler → Setting → Handler
apply h (max_verbosity level) = set_verbosity_level h level
apply h (id_verbosity id v) = set_id_verbosity h id v
apply h (severity_id_verbosity s id v) = set_severity_id_verbosity h s id v
apply h (severity_action s a) = set_severity_action h s a
apply h (id_action id a) = set_id_action h id a
apply h (severity_id_action s id a) = set_severity_id_action h s id a
apply h (default_file file) = set_default_file h file
apply h (severity_file s file) = set_severity_file h s file
apply h (id_file id file) = set_id_file h id file
apply h (severity_id_file s id file) = set_severity_id_file h s id file
apply h (override cur new) = set_severity_override h cur new
apply h (id_override cur id new) = set_severity_id_override h cur id new

unfoldable pub run : Handler → List Setting → Handler
unfolding apply
run h [] = h
run h (c ∷ cs) = run (apply h c) cs

-- The first answer, if there is one.
abbrev pub orelse : Option ℕ → Option ℕ → Option ℕ
orelse (some v) other = some v
orelse none other = other

-- What the last of the calls says that says anything.
unfoldable pub latest : (Setting → Option ℕ) → List Setting → Option ℕ
latest says [] = none
latest says (c ∷ cs) = orelse (latest says cs) (says c)

abbrev guard : Bool → ℕ → Option ℕ
guard b v = if b then some v else none

-- What a call says on the action of a severity, of an id, and of both.
unfoldable pub on_severity_action : Severity → Setting → Option ℕ
on_severity_action s (severity_action t a) = guard (is_severity t s) a
on_severity_action s _ = none

unfoldable pub on_id_action : String → Setting → Option ℕ
on_id_action id (id_action name a) = guard (string_key.same name id) a
on_id_action id _ = none

unfoldable pub on_action : Severity → String → Setting → Option ℕ
on_action s id (severity_id_action t name a) = guard (is_severity t s && string_key.same name id) a
on_action s id _ = none

-- The same on the verbosity.
unfoldable pub on_max_verbosity : Setting → Option ℕ
on_max_verbosity (max_verbosity v) = some v
on_max_verbosity _ = none

unfoldable pub on_id_verbosity : String → Setting → Option ℕ
on_id_verbosity id (id_verbosity name v) = guard (string_key.same name id) v
on_id_verbosity id _ = none

unfoldable pub on_verbosity : Severity → String → Setting → Option ℕ
on_verbosity s id (severity_id_verbosity t name v) =
    guard (is_severity t s && string_key.same name id) v
on_verbosity s id _ = none

module _ {J K V : Type 0} ⦃outer : Key J⦄ ⦃inner : Key K⦄ where
  pub find_in-insert_in :
      (j i : J) (k l : K) (v : V) (m : Map J (Map K V))
      → find_in j k (insert_in i l v m)
        ≡ (if outer.same i j && inner.same l k then some v else find_in j k m)
  unfolding find_in insert_in find
  find_in-insert_in j i k l v m =
      ap at (find-insert j i (insert l v (row_of (find i m))) m)
      ∙ elim (Bool-cases (outer.same i j)) [
        | inr other ↦ rw other refl
        | inl same ↦ rw same (
            find-insert k l v (row_of (find i m))
            ∙ ap (λ o. if inner.same l k then some v else o)
                (ap (λ (h : J). find k (row_of (find h m))) ((outer.same_iff i j).0 same)
                  ∙ rowed (find j m)))
      ]
    where
      at : Option (Map K V) → Option V
      at o = elim o [ none ↦ none | some row ↦ find k row ]

      rowed :
          (o : Option (Map K V))
          → find k (row_of o) ≡ elim o [ none ↦ none | some row ↦ find k row ]
      rowed none = refl
      rowed (some row) = refl

-- A reading that every call changes as it says is, after a run, what the last call says.
pub run-latest :
    (read : Handler → Option ℕ) (says : Setting → Option ℕ)
    → ((h : Handler) (c : Setting) → read (apply h c) ≡ orelse (says c) (read h))
    → (h : Handler) (cs : List Setting) → read (run h cs) ≡ orelse (latest says cs) (read h)
unfolding run latest
run-latest read says step h [] = refl
run-latest read says step h (c ∷ cs) =
    ground (arith, run-latest read says step (apply h c) cs, step h c)
