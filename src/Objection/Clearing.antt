-- ===== src/Objection/Clearing.antt =====
-- `uvm_objection::clear`: what its loop over the running drains leaves.
use uvm_systemc.Common.{ℕ, ◌≡◌, refl, ap, ◌∙◌, true, false, none, some, List, [], ◌∷◌, arith, ◌==◌}
use uvm_systemc.Common.Maps.{Map, find, erase, nat_key, find-erase}
use uvm_systemc.Objection.{Context, Objection, get_objection_count, count_of, remove_pid}
use uvm_systemc.Objection.Draining.{clear, drop_own}
use uvm_systemc.Objection.Balance.{IsMatched, end-IsMatched}

first_named :
    (s : Objection) (a : ℕ) (c : Context) (rest : Map ℕ Context)
    → s.forked_contexts ≡ (a, c) ∷ rest
    → find a s.forked_contexts ≡ some c
unfolding find
first_named s a c rest e = ap (find a) e ∙ ground arith

second_named :
    (s : Objection) (a b : ℕ) (c d : Context)
    → s.forked_contexts ≡ (a, c) ∷ (b, d) ∷ []
    → (a == b) ≡ false
    → find b (erase a s.forked_contexts) ≡ some d
unfolding find
second_named s a b c d e other = ground (arith, ap (find b) e, find-erase b a s.forked_contexts)

-- The state after `clear` has ended the drain of process `pid` at an object.
cleared_by : Objection → ℕ → ℕ → Objection
cleared_by s a pid = record s {
  source_count = [];
  total_count = [];
  cleared = true;
  top_all_dropped = false;
  scheduled = drop_own s.self s.scheduled;
  scheduled_contexts = [];
  forked_list = [];
  fresh = remove_pid pid s.fresh;
  forked_contexts = erase a s.forked_contexts;
  drain_proc = erase a s.drain_proc;
  draining = erase pid s.draining;
}

no_count : (obj : ℕ) (t : Objection) → t.source_count ≡ [] → get_objection_count t obj ≡ 0
unfolding get_objection_count count_of find
no_count obj t e = rw e refl

clear_two :
    (s : Objection) (a : ℕ) (c : Context) (y : ℕ × Context) (pid : ℕ)
    → s.forked_contexts ≡ (a, c) ∷ y ∷ []
    → find a s.drain_proc ≡ some pid
    → clear s ≡ some (cleared_by s a pid)
unfolding clear cleared_by
clear_two s a c y pid two proc = rw (two, proc) refl

-- With two running drains, at different objects and each the one that the maps name, `clear` takes all
-- counts to 0 but leaves the second drain running: its process is still there and still named for its
-- object.
pub clear_leaves_drain :
    (s : Objection) (a b : ℕ) (c d : Context)
    → IsMatched s
    → s.forked_contexts ≡ (a, c) ∷ (b, d) ∷ []
    → (a == b) ≡ false
    → (t : Objection) × (clear s ≡ some t)
      × ((obj : ℕ) → get_objection_count t obj ≡ 0)
      × ((pid : ℕ) × (find b t.drain_proc ≡ some pid) × (find pid t.draining ≡ some d))
unfolding cleared_by
clear_leaves_drain s a b c d v two other =
    let (here, (pid, proc, runs)) = v a c (first_named s a c ((b, d) ∷ []) two) in
    let (_, (pid', proc', runs')) =
      end-IsMatched s c a pid here runs v b d (second_named s a b c d two other) in
    (
      cleared_by s a pid,
      clear_two s a c (b, d) pid two proc,
      λ obj. no_count obj (cleared_by s a pid) refl,
      (pid', proc', runs'),
    )

-- With three running drains or more, `clear` uses an iterator that it has erased.
pub clear_fails :
    (s : Objection) (a b c : ℕ × Context) (rest : List (ℕ × Context))
    → s.forked_contexts ≡ a ∷ b ∷ c ∷ rest
    → clear s ≡ none
unfolding clear
clear_fails s a b c rest three = rw three refl
