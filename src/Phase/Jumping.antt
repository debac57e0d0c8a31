-- ===== src/Phase/Jumping.antt =====
-- Jumps between phases: jump, clear_phase and clear_successors of src/uvmsc/phasing/uvm_phase.cpp.
use uvm_systemc.Common.{
  ℕ, zero, suc, Bool, true, false, not, Option, none, some, ◌==◌, if◌then◌else◌,
}
use uvm_systemc.Phase.{started, executing, ready_to_end, State, Graph, assign, m_find}

-- Is the phase active?
abbrev pub is_active : State → Bool
is_active started = true
is_active executing = true
is_active ready_to_end = true
is_active _ = false

-- `jump`: the graph, and whether the error was reported that the phase is not active. The target is the
-- node that is found, forwards or backwards.
unfoldable pub jump : ℕ → Graph → ℕ → ℕ → Option (Graph × Bool)
unfolding m_find
jump fuel g this phase =
    let idle = not (is_active (g.state this)) in
    let forward : Option (Graph × Bool) = elim (m_find g g.successors fuel phase this) [
      | none ↦ none
      | some d ↦ some (
        record g {
          jump_fwd = assign g.jump_fwd this true;
          jump_phase = assign g.jump_phase this (some d);
        },
        idle,
      )
    ] in
    elim (m_find g g.predecessors fuel phase this) [
      | none ↦ forward
      | some d ↦ some (
        record g {
          jump_bkwd = assign g.jump_bkwd this true;
          jump_phase = assign g.jump_phase this (some d);
        },
        idle,
      )
    ]

-- A loop over the addresses below a bound that changes the graph.
unfoldable pub for_each_below : (Graph → ℕ → Graph) → ℕ → Graph → Graph
for_each_below f zero g = g
for_each_below f (suc k) g = f (for_each_below f k g) k

-- `clear_phase`, without its objection and event.
unfoldable pub clear_phase : Graph → State → ℕ → Graph
clear_phase g state this = record g { state = assign g.state this state }

unfoldable pub clear_successors : ℕ → Graph → State → ℕ → ℕ → Graph
unfolding clear_phase for_each_below
clear_successors zero g state end_state this = g
clear_successors (suc fuel) g state end_state this =
    let cleared =
      for_each_below
        (λ h n. if h.successors this n then clear_successors fuel h state end_state n else h) g.next
        (clear_phase g state this) in
    if this == end_state then g else cleared
