-- ===== src/Phase.antt =====
-- The graph of phases: src/uvmsc/phasing/uvm_phase.cpp. A phase object is an address; a map of phases
-- to `true` is its membership test, and is walked in the order of the addresses. Addresses from `next`
-- on are unused. A fatal report ends the run, so its state is `none`. Traces are left out, and so is
-- the execution of phases, whose processes wait for each other.
pub mod Placing
pub mod Jumping
pub mod Edges
pub mod Order
pub mod Search
mod Samples
use uvm_systemc.Common.{
  ℕ, zero, suc, ◌+◌, Bool, true, false, not, ◌&&◌, ◌||◌, Option, none, some, List, [], ◌∷◌, ◌==◌,
  ltb, if◌then◌else◌,
}

-- `uvm_phase_type`
pub data PhaseType : Type 0 where
  phase_imp phase_node phase_terminal phase_schedule phase_domain phase_global : PhaseType

-- `uvm_phase_state`
pub data State : Type 0 where
  dormant scheduled syncing started executing ready_to_end ended cleanup done jumping : State

pub record Graph : Type 0 where
  pub phase_type : ℕ → PhaseType
  pub imp : ℕ → Option ℕ
  pub parent : ℕ → Option ℕ
  pub end_node : ℕ → Option ℕ
  pub predecessors : ℕ → ℕ → Bool
  pub successors : ℕ → ℕ → Bool
  pub state : ℕ → State
  pub jump_fwd : ℕ → Bool
  pub jump_bkwd : ℕ → Bool
  pub jump_phase : ℕ → Option ℕ
  pub next : ℕ

-- The pointer is not null, and is the address.
abbrev pub points_to : Option ℕ → ℕ → Bool
points_to none n = false
points_to (some m) n = m == n

abbrev pub is_imp : PhaseType → Bool
is_imp phase_imp = true
is_imp _ = false

-- A member of one object is assigned.
abbrev pub assign {ℓ} : {A : Type ℓ} → (ℕ → A) → ℕ → A → ℕ → A
assign m n v p = if p == n then v else m p

-- `m[n][x] = true` and `m[n].erase(x)`, for each `n` of a set.
abbrev pub mark_each : (ℕ → Bool) → ℕ → (ℕ → ℕ → Bool) → ℕ → ℕ → Bool
mark_each who x m p q = if who p && (q == x) then true else m p q

abbrev pub erase_each : (ℕ → Bool) → ℕ → (ℕ → ℕ → Bool) → ℕ → ℕ → Bool
erase_each who x m p q = if who p && (q == x) then false else m p q

-- The set of one address, and the empty set.
abbrev pub only : ℕ → ℕ → Bool
only n p = p == n

abbrev pub nowhere : ℕ → Bool
nowhere p = false

-- The first answer of a loop over the addresses below a bound.
unfoldable pub first_found : (ℕ → Option ℕ) → ℕ → Option ℕ
first_found f zero = none
first_found f (suc k) = elim (first_found f k) [ some n ↦ some n | none ↦ f k ]

-- `is`
unfoldable pub is : Graph → ℕ → ℕ → Bool
is g this phase = points_to (g.imp this) phase || (this == phase)

-- `m_find_predecessor` and `m_find_successor`, along the predecessors or the successors, with no
-- restriction to a scope.
unfoldable pub m_find : Graph → (ℕ → ℕ → Bool) → ℕ → ℕ → ℕ → Option ℕ
unfolding is first_found
m_find g edges zero phase this = none
m_find g edges (suc fuel) phase this =
    let further =
      first_found (λ n. if edges this n then m_find g edges fuel phase n else none) g.next in
    if is g this phase then some this else further

abbrev pub found : Option ℕ → Bool
found none = false
found (some n) = true

unfoldable pub is_before : Graph → ℕ → ℕ → ℕ → Bool
unfolding m_find is
is_before g fuel this phase = not (is g this phase) && found (m_find g g.successors fuel phase this)

unfoldable pub is_after : Graph → ℕ → ℕ → ℕ → Bool
unfolding m_find is
is_after g fuel this phase =
    not (is g this phase) && found (m_find g g.predecessors fuel phase this)

-- The branches of `add`, which link the nodes from `b` to `e`: in parallel with a phase,
unfoldable pub add_with : Graph → ℕ → ℕ → ℕ → Graph
add_with g b e with_phase =
    let ends = record g {
      predecessors = assign g.predecessors b (g.predecessors with_phase);
      successors = assign g.successors e (g.successors with_phase);
    } in
    let into = record ends {
      successors = mark_each (ends.predecessors with_phase) b ends.successors;
    } in
    record into { predecessors = mark_each (into.successors with_phase) e into.predecessors }

-- before a phase,
unfoldable pub add_before : Graph → ℕ → ℕ → ℕ → Graph
add_before g b e before_phase =
    let ends = record g {
      predecessors = assign g.predecessors b (g.predecessors before_phase);
      successors = mark_each (only e) before_phase g.successors;
    } in
    let into = record ends {
      successors =
          mark_each (ends.predecessors before_phase) b
            (erase_each (ends.predecessors before_phase) before_phase ends.successors);
    } in
    record into {
      predecessors =
          mark_each (only before_phase) e (assign into.predecessors before_phase nowhere);
    }

-- after a phase,
unfoldable pub add_after : Graph → ℕ → ℕ → ℕ → Graph
add_after g b e after_phase =
    let ends = record g {
      successors = assign g.successors e (g.successors after_phase);
      predecessors = mark_each (only b) after_phase g.predecessors;
    } in
    let into = record ends {
      predecessors =
          mark_each (ends.successors after_phase) e
            (erase_each (ends.successors after_phase) after_phase ends.predecessors);
    } in
    record into {
      successors = mark_each (only after_phase) b (assign into.successors after_phase nowhere);
    }

-- and between two. The last erasure is made in the successors of `before_phase`.
unfoldable pub add_between : Graph → ℕ → ℕ → ℕ → ℕ → Graph
add_between g b e after_phase before_phase =
    let linked = record g {
      predecessors =
          mark_each (only before_phase) e (mark_each (only b) after_phase g.predecessors);
      successors = mark_each (only after_phase) b (mark_each (only e) before_phase g.successors);
    } in
    if linked.successors after_phase before_phase
    then record linked {
      successors =
          erase_each (only before_phase) after_phase
            (erase_each (only after_phase) before_phase linked.successors);
    }
    else linked
