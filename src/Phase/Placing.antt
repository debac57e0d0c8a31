-- ===== src/Phase/Placing.antt =====
-- How a phase is put into the graph: find and add of src/uvmsc/phasing/uvm_phase.cpp.
use uvm_systemc.Common.{
  ℕ, zero, suc, Bool, true, false, not, ◌&&◌, ◌||◌, Option, none, some, ◌==◌, if◌then◌else◌,
}
use uvm_systemc.Phase.{
  phase_node, phase_schedule, dormant, phase_domain, PhaseType, Graph, points_to, is_imp, assign,
  nowhere, is, m_find, found, is_before, add_with, add_before, add_after, add_between,
}

-- Is it a domain?
abbrev pub is_domain : PhaseType → Bool
is_domain phase_domain = true
is_domain _ = false

-- `get_domain`: the search upwards, with fuel for the parents.
unfoldable pub get_domain : Graph → ℕ → Option ℕ → Option ℕ
get_domain g fuel none = none
get_domain g zero (some n) = none
get_domain g (suc fuel) (some n) =
    let above = get_domain g fuel (g.parent n) in
    if is_domain (g.phase_type n) then some n else above

-- `get_schedule` with `hier` false.
abbrev pub parent_schedule : Graph → Option ℕ → Option ℕ
parent_schedule g none = none
parent_schedule g (some p) = if is_domain (g.phase_type p) then none else some p

unfoldable pub get_schedule : Graph → ℕ → Option ℕ
get_schedule g n = elim (g.phase_type n) [
  | phase_schedule ↦ some n
  | phase_node ↦ parent_schedule g (g.parent n)
  | _ ↦ none
]

-- Equality of pointers.
abbrev pub same_pointer : Option ℕ → Option ℕ → Bool
same_pointer none none = true
same_pointer (some m) (some n) = m == n
same_pointer _ _ = false

-- `stay_in_scope`: an edge is followed only to the schedule or the domain of the start.
unfoldable pub in_scope : Graph → ℕ → ℕ → ℕ → Bool
unfolding get_schedule get_domain
in_scope g fuel orig n =
    same_pointer (get_schedule g n) (get_schedule g orig)
    || same_pointer (get_domain g fuel (some n)) (get_domain g fuel (some orig))

-- `find` within the scope.
unfoldable pub find : Graph → ℕ → ℕ → ℕ → Option ℕ
unfolding m_find in_scope is
find g fuel phase this =
    let back = m_find g (λ n k. g.predecessors n k && in_scope g fuel this k) fuel phase this in
    let ahead = m_find g (λ n k. g.successors n k && in_scope g fuel this k) fuel phase this in
    if is g this phase then some phase else elim back [ some n ↦ some n | none ↦ ahead ]

-- The test at the start of `add` on each of the three phases: an implementation has to be found. What
-- `find` returns is not kept.
unfoldable pub is_missing : Graph → ℕ → ℕ → Option ℕ → Bool
unfolding find
is_missing g fuel this none = false
is_missing g fuel this (some p) = is_imp (g.phase_type p) && not (found (find g fuel p this))

-- A new node for an implementation.
unfoldable pub new_node : Graph → ℕ → ℕ → Graph
new_node g this phase = record g {
  phase_type = assign g.phase_type g.next phase_node;
  imp = assign g.imp g.next (some phase);
  parent = assign g.parent g.next (some this);
  end_node = assign g.end_node g.next none;
  predecessors = assign g.predecessors g.next nowhere;
  successors = assign g.successors g.next nowhere;
  state = assign g.state g.next dormant;
  jump_fwd = assign g.jump_fwd g.next false;
  jump_bkwd = assign g.jump_bkwd g.next false;
  jump_phase = assign g.jump_phase g.next none;
  next = suc g.next;
}

-- The branch that `add` takes by the phases that are given.
unfoldable pub link : ℕ → Graph → ℕ → ℕ → Option ℕ → Option ℕ → Option ℕ → Option Graph
unfolding add_with add_before add_after add_between is_before
link fuel g b e (some w) a p = some (add_with g b e w)
link fuel g b e none none (some p) = some (add_before g b e p)
link fuel g b e none (some a) none = some (add_after g b e a)
link fuel g b e none (some a) (some p) =
    if is_before g fuel a p then some (add_between g b e a p) else none
link fuel g b e none none none = some g

-- The last adjustments: in parallel with the schedule itself is from its start to its end (`with_phase`
-- is kept), and at the end is the default.
unfoldable pub placed : Graph → ℕ → Option ℕ → Option ℕ → Option ℕ → Option ℕ × Option ℕ × Option ℕ
placed g this none none none = (none, none, g.end_node this)
placed g this (some w) a p =
    if w == this then (some w, some this, g.end_node this) else (some w, a, p)
placed g this none a p = (none, a, p)

abbrev pub both_given : Option ℕ → Option ℕ → Option ℕ → Bool
both_given (some w) (some a) p = true
both_given (some w) none (some p) = true
both_given _ _ _ = false

-- The tests of `add` on the arguments.
unfoldable pub is_bad : Graph → ℕ → ℕ → Option ℕ → Option ℕ → Option ℕ → Bool
unfolding is_missing
is_bad g fuel this with_phase after_phase before_phase =
    is_missing g fuel this with_phase
    || is_missing g fuel this before_phase
    || is_missing g fuel this after_phase
    || both_given with_phase after_phase before_phase
    || points_to before_phase this
    || same_pointer after_phase (g.end_node this)
    || same_pointer with_phase (g.end_node this)

-- `add`, for a phase that is not null.
unfoldable pub add : ℕ → Graph → ℕ → ℕ → Option ℕ → Option ℕ → Option ℕ → Option Graph
unfolding is_bad new_node placed link
add fuel g this phase with_phase after_phase before_phase =
    let (w, a, p) = placed g this with_phase after_phase before_phase in
    let node = link fuel (new_node g this phase) g.next g.next w a p in
    let moved = record g { parent = assign g.parent phase (some this) } in
    let schedule : Option Graph = elim (g.end_node phase) [
      | none ↦ none
      | some e ↦ link fuel moved phase e w a p
    ] in
    if is_bad g fuel this with_phase after_phase before_phase
    then none
    else if is_imp (g.phase_type phase)
    then node
    else schedule
