-- ===== src/Phase/Samples.antt =====
-- A schedule with one phase, and the theorems on the graph of phases at concrete inputs.
use uvm_systemc.Common.{
  ℕ, zero, suc, ◌-◌, ◌<◌, ◌≡◌, ◌↔◌, refl, Bool, true, false, Option, none, some, ◌==◌, ◌&&◌, arith,
  if◌then◌else◌,
}
use uvm_systemc.Phase.{
  Graph, add_with, phase_imp, phase_node, phase_terminal, phase_schedule, dormant, add_before, is,
  is_before, m_find, first_found, PhaseType,
}
use uvm_systemc.Phase.Placing.{
  add, link, is_bad, is_missing, find, new_node, placed, in_scope, get_schedule, get_domain,
}
use uvm_systemc.Phase.Edges.{IsMutual, link-IsMutual}
use uvm_systemc.Phase.Order.{Reach, add_before-Reach}
use uvm_systemc.Phase.Search.{is_before-Reach}

abbrev types : ℕ → PhaseType
types zero = phase_schedule
types (suc zero) = phase_node
types (suc (suc zero)) = phase_terminal
types _ = phase_imp

-- The start is 0, the node of the implementation 3 is 1, and the end is 2; 4 is another implementation,
-- and from 5 on nothing is there.
abbrev schedule : Graph
schedule = record {
  phase_type = types;
  imp = λ n. if n == 1 then some 3 else none;
  parent = λ n. if n == 1 then some 0 else none;
  end_node = λ n. if n == 0 then some 2 else none;
  predecessors = λ q p. if p == 0 then q == 1 else (p == 1) && (q == 2);
  successors = λ p q. if p == 0 then q == 1 else (p == 1) && (q == 2);
  state = λ n. dormant;
  jump_fwd = λ n. false;
  jump_bkwd = λ n. false;
  jump_phase = λ n. none;
  next = 5;
}

schedule-IsMutual : IsMutual schedule
schedule-IsMutual p q = refl

no_loop : (n : ℕ) → schedule.successors n n ≡ false
no_loop n = ground arith

below_next : (p : ℕ) → schedule.successors p 5 ≡ false
below_next p = ground arith

falls : (p q : ℕ) → schedule.successors p q ≡ true → (2 - q) < (2 - p)
falls p q e = ground arith

known : (p q : ℕ) → schedule.successors p q ≡ true → q < 5
known p q e = ground arith

link-IsMutual_example : IsMutual (add_before schedule 5 5 2)
unfolding link
link-IsMutual_example =
    link-IsMutual 5 schedule (add_before schedule 5 5 2) 5 5 none none (some 2) schedule-IsMutual
      (λ p. below_next p) (λ p. refl) no_loop refl refl (λ a n e f. absurd (ground arith)) refl

add_before-Reach_example : Reach (add_before schedule 5 5 2).successors 5 2
add_before-Reach_example =
    (add_before-Reach schedule 5 2 schedule-IsMutual (λ p. below_next p) (λ p. refl) refl).1

is_before-Reach_example : (is_before schedule 5 0 3 ≡ true) ↔ (
    (is schedule 0 3 ≡ false)
    × ((m : ℕ) × (is schedule m 3 ≡ true) × Reach schedule.successors 0 m))
is_before-Reach_example = is_before-Reach schedule (λ n. 2 - n) 5 0 3 falls known (omega arith)

-- Added before an implementation, the new node 5 is linked to the implementation 3 itself and not to its
-- node 1.
abbrev links_of : Option Graph → Option (Bool × Bool)
links_of none = none
links_of (some h) = some (h.successors 5 3, h.predecessors 1 5)

before_implementation : links_of (add 5 schedule 0 4 none none (some 3)) ≡ some (true, false)
unfolding add link new_node placed is_bad is_missing find m_find is first_found in_scope
    get_schedule get_domain add_before
before_implementation = refl

-- Added in parallel with the schedule, the new node has no link with its start or its end.
abbrev start_of : Option Graph → Option (Bool × Bool)
start_of none = none
start_of (some h) = some (h.successors 0 5, h.successors 5 2)

parallel_with_schedule : start_of (add 5 schedule 0 4 (some 0) none none) ≡ some (false, false)
unfolding add link new_node placed is_bad is_missing add_with
parallel_with_schedule = refl
