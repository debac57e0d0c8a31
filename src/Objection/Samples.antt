-- ===== src/Objection/Samples.antt =====
-- The properties of objections on a tree where the top 0 has the children 1 and 2, and any other object
-- `p` has the child `p + 2`.
use uvm_systemc.Common.{
  ℕ, zero, suc, ◌+◌, ◌-◌, ltb, ◌≤◌, ◌<◌, ◌≡◌, ◌≢◌, refl, ap, sym, Option, none, some, List, [], ◌∷◌,
  arith, ◌==◌, if◌then◌else◌, Bool-cases, inl, inr, ==_iff,
}
use uvm_systemc.Common.Maps.{find, insert, erase, nat_key}
use uvm_systemc.Objection.Hierarchy.{Objects, Kind, component, IsTree, occurrences, m_get_parent}
use uvm_systemc.Objection.{
  Context, Objection, m_objection_init, count_of, get_objection_count, raise_objection,
  drop_objection, m_raise, m_drop, catch_drain, take_first, next_object, remove_pid,
}
use uvm_systemc.Objection.Draining.{execute_scheduled_fork, start_drain, finish_drain, erase_zero}
use uvm_systemc.Objection.Ledger.{pending}
use uvm_systemc.Objection.Balance.{IsMatched, IsBalanced}
use uvm_systemc.Objection.Forks.{CanFork}
use uvm_systemc.Objection.Starts.{CanStart}
use uvm_systemc.Objection.Reach.{
  Reachable, initial, raises, drops, forks, starts, InOrder, Reachable-IsBalanced, top_zero_quiet,
}

abbrev kinds : ℕ → Kind
kinds n = component (if ltb n 3 then none else some (n - 2))

abbrev objects : Objects
objects = record { top = 0; kind_of = kinds }

abbrev below : ℕ → List ℕ
below p = if p == 0 then 1 ∷ 2 ∷ [] else (p + 2) ∷ []

climbs : (c : ℕ) → c ≢ 0 → m_get_parent objects c < c
unfolding m_get_parent
climbs c other = ground (arith, ==_iff c 0)

lists :
    (p c : ℕ)
    → occurrences c (below p) ≡ (if c == 0 then 0 else if m_get_parent objects c == p then 1 else 0)
unfolding m_get_parent
lists p c = elim (Bool-cases (p == 0)) [
  | inl at_top ↦ ground (arith, ==_iff p 0)
  | inr inside ↦ ground (arith, ==_iff p 0)
]

abbrev tree : IsTree objects
tree = record { depth = λ c. c; climbs = climbs; children = below; lists = lists }

abbrev state : Option Objection → Objection
state none = m_objection_init 7
state (some s) = s

abbrev empty : Objection
empty = m_objection_init 7

abbrev raised_twice : Objection
raised_twice = state (raise_objection objects 9 empty (some 3) 2)

raised_twice_lem : raise_objection objects 9 empty (some 3) 2 ≡ some raised_twice
unfolding raise_objection m_raise catch_drain take_first next_object m_get_parent find insert erase
    count_of m_objection_init
raised_twice_lem = refl

raised_twice-Reachable : Reachable tree raised_twice
raised_twice-Reachable = raises 9 (some 3) 2 (initial 7) (ground arith) raised_twice_lem

abbrev dropped_twice : Objection
dropped_twice = state (drop_objection objects 9 raised_twice (some 3) 2)

dropped_twice_lem : drop_objection objects 9 raised_twice (some 3) 2 ≡ some dropped_twice
unfolding raise_objection drop_objection m_raise m_drop catch_drain take_first next_object
    m_get_parent find insert erase count_of m_objection_init
dropped_twice_lem = refl

dropped_twice-Reachable : Reachable tree dropped_twice
dropped_twice-Reachable = drops 9 (some 3) 2 raised_twice-Reachable (ground arith) dropped_twice_lem

dropped_twice-CanFork : CanFork tree dropped_twice
unfolding raise_objection drop_objection m_raise m_drop catch_drain take_first next_object
    m_get_parent find insert erase count_of m_objection_init
dropped_twice-CanFork c rest e = refl

abbrev forked : Objection
forked = execute_scheduled_fork dropped_twice

forked-Reachable : Reachable tree forked
forked-Reachable = forks dropped_twice-Reachable

forked-CanStart : CanStart tree forked 0
unfolding raise_objection drop_objection m_raise m_drop catch_drain take_first next_object
    m_get_parent find insert erase count_of m_objection_init execute_scheduled_fork
forked-CanStart = (refl, λ c rest e. ground arith)

abbrev started : Objection
started = start_drain forked 0

started-Reachable : Reachable tree started
started-Reachable = starts 0 forked-Reachable

started-InOrder : InOrder tree started-Reachable
unfolding InOrder started-Reachable forked-Reachable dropped_twice-Reachable raised_twice-Reachable
started-InOrder = ((tt, dropped_twice-CanFork), forked-CanStart)

started_object : (c : Context) → find 0 started.draining ≡ some c → c.obj ≤ 9
unfolding raise_objection drop_objection m_raise m_drop catch_drain take_first next_object
    m_get_parent find insert erase count_of m_objection_init execute_scheduled_fork start_drain
started_object c e = ground arith

Reachable-IsBalanced_example : IsBalanced tree started
Reachable-IsBalanced_example = Reachable-IsBalanced tree started started-Reachable started-InOrder

abbrev top_raised : Objection
top_raised = state (raise_objection objects 9 empty none 1)

top_raised_lem : raise_objection objects 9 empty none 1 ≡ some top_raised
unfolding raise_objection m_raise catch_drain take_first next_object m_get_parent find insert erase
    count_of m_objection_init
top_raised_lem = refl

abbrev top_dropped : Objection
top_dropped = state (drop_objection objects 9 top_raised none 1)

top_dropped_lem : drop_objection objects 9 top_raised none 1 ≡ some top_dropped
unfolding raise_objection drop_objection m_raise m_drop catch_drain take_first next_object
    m_get_parent find insert erase count_of m_objection_init
top_dropped_lem = refl

top_dropped-Reachable : Reachable tree top_dropped
top_dropped-Reachable =
    drops 9 none 1 (raises 9 none 1 (initial 7) (ground arith) top_raised_lem) (ground arith)
      top_dropped_lem

top_dropped-InOrder : InOrder tree top_dropped-Reachable
unfolding InOrder top_dropped-Reachable
top_dropped-InOrder = tt

top_dropped_total : count_of 0 top_dropped.total_count ≡ 0
unfolding raise_objection drop_objection m_raise m_drop catch_drain take_first next_object
    m_get_parent find insert erase count_of m_objection_init
top_dropped_total = refl

abbrev leaf : ℕ
leaf = 3

top_zero_quiet_example :
    (get_objection_count top_dropped leaf ≡ 0) × (leaf ≢ 0 → pending top_dropped leaf ≡ 0)
top_zero_quiet_example =
    top_zero_quiet tree top_dropped leaf top_dropped-Reachable top_dropped-InOrder top_dropped_total

abbrev drain_at : ℕ → Context
drain_at obj = record { obj = obj; source = obj; count = 1; objection = 7 }

abbrev two_drains : Objection
two_drains = record (m_objection_init 7) {
  forked_contexts = (1, drain_at 1) ∷ (2, drain_at 2) ∷ [];
  drain_proc = (1, 0) ∷ (2, 1) ∷ [];
  draining = (0, drain_at 1) ∷ (1, drain_at 2) ∷ [];
}

two_drains-IsMatched : IsMatched two_drains
unfolding find m_objection_init
two_drains-IsMatched zero c found = cc
two_drains-IsMatched (suc zero) c found =
    let e : drain_at 1 ≡ c = ground arith in (ap (λ (k : Context). k.obj) (sym e), (0, refl, found))
two_drains-IsMatched (suc (suc zero)) c found =
    let e : drain_at 2 ≡ c = ground arith in (ap (λ (k : Context). k.obj) (sym e), (1, refl, found))
two_drains-IsMatched (suc (suc (suc n))) c found = absurd (ground arith)

-- Not in order: two drains are forked, and the first is taken back before its process starts. The process
-- takes the drain of the other object; a raise there kills the process that the maps name, which is not
-- this one, so that the drain is handed on though it was taken back.
abbrev both_forked : Objection
both_forked =
    let one = state (raise_objection objects 9 empty (some 1) 1) in
    let two = state (raise_objection objects 9 one (some 2) 1) in
    let one_left = state (drop_objection objects 9 two (some 1) 1) in
    let none_left = state (drop_objection objects 9 one_left (some 2) 1) in
    execute_scheduled_fork (execute_scheduled_fork none_left)

abbrev wrong_drain : Objection
wrong_drain =
    let other_started = start_drain (state (raise_objection objects 9 both_forked (some 1) 1)) 0 in
    state (finish_drain objects 9 (state (raise_objection objects 9 other_started (some 2) 1)) 0)

books_lost :
    (count_of 0 wrong_drain.total_count ≡ 1)
    × (get_objection_count wrong_drain 1 ≡ 1)
    × (get_objection_count wrong_drain 2 ≡ 1)
unfolding raise_objection drop_objection m_raise m_drop catch_drain take_first next_object
    m_get_parent find insert erase count_of m_objection_init execute_scheduled_fork start_drain
    finish_drain get_objection_count remove_pid erase_zero
books_lost = (refl, refl, refl)
