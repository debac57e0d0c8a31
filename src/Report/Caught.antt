-- ===== src/Report/Caught.antt =====
-- What the debug flags of src/uvmsc/report/uvm_report_catcher.cpp (debug_report_catcher) do.
use uvm_systemc.Common.{
  ◌≡◌, refl, ap, ◌∙◌, sym, subst, Bool, true, false, not, ◌&&◌, List, [], ◌∷◌, ◌==◌, arith,
  if◌then◌else◌, if_true, if_false, if_ind,
}
use uvm_systemc.Report.{Message, is_severity, is_severity_iff}
use uvm_systemc.Report.Handler.{Handler, get_action}
use uvm_systemc.Report.Catchers.{
  Data, Answer, Catcher, throw, caught, unknown_action, is_caught, note_answer, no_id,
  process_report_catcher, adjust_action, process_catchers, process_all_report_catchers,
}

adjust_same : (h : Handler) (m : Message) → adjust_action h m.severity m ≡ m
unfolding adjust_action
adjust_same h m =
    if_false _ _ _
      (same (is_severity m.severity m.severity) ((is_severity_iff m.severity m.severity).1 refl))
  where
    same : (b : Bool) → b ≡ true → (not b && (m.action == get_action h m.severity no_id)) ≡ false
    same b e = ground arith

-- Taking note of an answer leaves the flags alone.
SameFlags : Data → Data → Type 0
SameFlags d e = (e.do_not_catch ≡ d.do_not_catch) × (e.do_not_modify ≡ d.do_not_modify)

note_answer-SameFlags : (d : Data) (a : Answer) → SameFlags d (note_answer d a)
unfolding SameFlags
note_answer-SameFlags d throw = (refl, refl)
note_answer-SameFlags d caught = (refl, refl)
note_answer-SameFlags d unknown_action = (refl, refl)

-- With `DO_NOT_MODIFY`, whatever the catchers do to the message and answer, it is as it came.
keeps_message :
    (h : Handler) (d : Data) (orig : Message) (cs : List Catcher)
    → d.do_not_modify ≡ true
    → (process_catchers h d orig cs orig).1 ≡ orig
unfolding process_catchers process_report_catcher SameFlags
keeps_message h d orig [] on = refl
keeps_message h d orig (c ∷ cs) on =
    if_ind Same c.enabled
      (if_ind Same (process_report_catcher d orig c orig).2
        (subst (λ m. Same (process_catchers h d' orig cs m)) (sym back)
          (keeps_message h d' orig cs ((note_answer-SameFlags d (c.do_catch orig).1).1 ∙ on)))
        back)
      (keeps_message h d orig cs on)
  where
    Same : Data × Message × Bool → Type 0
    Same r = r.1 ≡ orig

    d' : Data
    d' = note_answer d (c.do_catch orig).1

    back :
        adjust_action h orig.severity (if d.do_not_modify then orig else (c.do_catch orig).0) ≡ orig
    back = ap (adjust_action h orig.severity) (if_true _ _ _ on) ∙ adjust_same h orig

-- With `DO_NOT_CATCH`, every message is passed on.
passes_on :
    (h : Handler) (d : Data) (orig : Message) (cs : List Catcher) (m : Message)
    → d.do_not_catch ≡ true
    → (process_catchers h d orig cs m).2 ≡ true
unfolding process_catchers process_report_catcher SameFlags
passes_on h d orig [] m on = refl
passes_on h d orig (c ∷ cs) m on =
    if_ind Passed c.enabled
      (subst (λ b. Passed (if b then rest else (d', adjusted, false))) (sym thrown)
        (passes_on h d' orig cs adjusted ((note_answer-SameFlags d (c.do_catch m).1).0 ∙ on)))
      (passes_on h d orig cs m on)
  where
    Passed : Data × Message × Bool → Type 0
    Passed r = r.2 ≡ true

    d' : Data
    d' = note_answer d (c.do_catch m).1

    adjusted : Message
    adjusted = adjust_action h m.severity (if d.do_not_modify then orig else (c.do_catch m).0)

    rest : Data × Message × Bool
    rest = process_catchers h d' orig cs adjusted

    thrown : not (is_caught (c.do_catch m).1 && not d.do_not_catch) ≡ true
    thrown = ground arith

-- With both debug flags set, a message comes out of the catchers as it came in, and is passed on,
-- whatever the catchers make of it and answer.
pub process_all-debug :
    (h : Handler) (cs : List Catcher) (d : Data) (m : Message)
    → d.do_not_modify ≡ true
    → d.do_not_catch ≡ true
    → let (d', m', thrown) = process_all_report_catchers h cs d m in (m' ≡ m) × (thrown ≡ true)
unfolding process_all_report_catchers
process_all-debug h cs d m keep pass =
    if_ind (λ (r : Data × Message × Bool). (r.1 ≡ m) × (r.2 ≡ true)) d.in_catcher (refl, refl)
      (
        keeps_message h (record d { in_catcher = true }) m cs keep,
        passes_on h (record d { in_catcher = true }) m cs m pass,
      )
