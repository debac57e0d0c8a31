-- ===== src/Objection/Reach.antt =====
-- The life of an objection as a step relation, and what its balance means for the end of a phase.
use uvm_systemc.Common.{
  ℕ, zero, suc, ◌*◌, ◌≤◌, ◌<◌, ◌≡◌, ◌≢◌, refl, subst, false, Option, some, List, [], ◌∷◌, arith,
  ◌==◌, Bool-cases, inl, inr, ==_iff,
}
use uvm_systemc.Common.Maps.{find, nat_key}
use uvm_systemc.Objection.Hierarchy.{Objects, IsTree, occurrences, m_get_parent}
use uvm_systemc.Objection.{
  Context, Objection, m_objection_init, count_of, get_objection_count, or_object, raise_objection,
  drop_objection,
}
use uvm_systemc.Objection.Draining.{execute_scheduled_fork, start_drain, finish_drain}
use uvm_systemc.Objection.Ledger.{flow, sum_flows, pending}
use uvm_systemc.Objection.Balance.{IsBalanced, Ends, ne_of_test}
use uvm_systemc.Objection.Drop.{drop_objection-IsBalanced}
use uvm_systemc.Objection.Raise.{raise_objection-IsBalanced}
use uvm_systemc.Objection.Drains.{finish_drain-IsBalanced}
use uvm_systemc.Objection.Forks.{CanFork, execute_scheduled_fork-IsBalanced}
use uvm_systemc.Objection.Starts.{CanStart, start_drain-IsBalanced}

-- The states that raises, drops and the steps of drain processes lead to, in any order, each call with
-- more fuel than the depth of its object.
pub data Reachable {h : Objects} (tree : IsTree h) : Objection → Type 0 where
  initial : (self : ℕ) → Reachable tree (m_objection_init self)
  raises :
      {s t : Objection} (fuel : ℕ) (obj : Option ℕ) (n : ℕ)
      → Reachable tree s
      → tree.depth (or_object h obj) < fuel
      → raise_objection h fuel s obj n ≡ some t
      → Reachable tree t
  drops :
      {s t : Objection} (fuel : ℕ) (obj : Option ℕ) (n : ℕ)
      → Reachable tree s
      → tree.depth (or_object h obj) < fuel
      → drop_objection h fuel s obj n ≡ some t
      → Reachable tree t
  forks : {s : Objection} → Reachable tree s → Reachable tree (execute_scheduled_fork s)
  starts : {s : Objection} (pid : ℕ) → Reachable tree s → Reachable tree (start_drain s pid)
  ends :
      {s t : Objection} (fuel pid : ℕ)
      → Reachable tree s
      → ((c : Context) → find pid s.draining ≡ some c → tree.depth c.obj ≤ fuel)
      → finish_drain h fuel s pid ≡ some t
      → Reachable tree t

module _ {h : Objects} (tree : IsTree h) where
  -- On the way to the state, each drain was forked while no drain of the objection was running at its
  -- object, and each process that started was not draining yet and found its own drain, the one that
  -- `m_drain_proc` names it for, as the first of the forked ones, or none.
  unfoldable pub InOrder : {s : Objection} → Reachable tree s → Type 0
  InOrder (initial self) = Unit
  InOrder (raises fuel obj n r short e) = InOrder r
  InOrder (drops fuel obj n r short e) = InOrder r
  InOrder (forks {s} r) = InOrder r × CanFork tree s
  InOrder (starts {s} pid r) = InOrder r × CanStart tree s pid
  InOrder (ends fuel pid r short e) = InOrder r

  no_flow : (self : ℕ) (cs : List ℕ) → sum_flows (m_objection_init self) cs ≡ 0
  unfolding m_objection_init flow count_of find
  no_flow self [] = refl
  no_flow self (c ∷ cs) = omega (arith, no_flow self cs)

  init-IsBalanced : (self : ℕ) → IsBalanced tree (m_objection_init self)
  unfolding m_objection_init count_of find
  init-IsBalanced self = (
    record {
      hierarchical = refl;
      matched = λ obj c found. cc;
      once = tt;
      deep_scheduled = tt;
      deep_forked = tt;
      deep_draining = tt;
    },
    λ p. ground (arith, no_flow self (tree.children p)),
  )

  at_end : (r : Option Objection) (t : Objection) → Ends tree r → r ≡ some t → IsBalanced tree t
  at_end r t (u, e, v) e' = let same : u ≡ t = ground arith in subst (IsBalanced tree) same v

  -- Every state that raises, drops, forks, starts and ends of drains lead to, with enough fuel and in any
  -- order in which no drain is forked while another of the objection runs at its object and each process
  -- that starts is not draining yet and takes its own drain, is balanced: the total of an object is what it has raised itself and what its children
  -- have passed on, which is their totals and the counts of their drains that have not ended. Without that
  -- condition a raise can kill the process of another drain, and the books are lost.
  pub Reachable-IsBalanced : (s : Objection) (r : Reachable tree s) → InOrder r → IsBalanced tree s
  unfolding InOrder
  Reachable-IsBalanced s (initial self) o = init-IsBalanced self
  Reachable-IsBalanced s (raises fuel obj n r short e) o =
      at_end _ s (raise_objection-IsBalanced tree fuel _ obj n short (Reachable-IsBalanced _ r o)) e
  Reachable-IsBalanced s (drops fuel obj n r short e) o =
      at_end _ s (drop_objection-IsBalanced tree fuel _ obj n short (Reachable-IsBalanced _ r o)) e
  Reachable-IsBalanced s (forks r) o =
      execute_scheduled_fork-IsBalanced tree _ o.1 (Reachable-IsBalanced _ r o.0)
  Reachable-IsBalanced s (starts pid r) o =
      start_drain-IsBalanced tree _ pid o.1 (Reachable-IsBalanced _ r o.0)
  Reachable-IsBalanced s (ends fuel pid r short e) o =
      at_end _ s (finish_drain-IsBalanced tree fuel _ pid short (Reachable-IsBalanced _ r o)) e

  flow-le-sum : (s : Objection) (c : ℕ) (cs : List ℕ) → flow s c * occurrences c cs ≤ sum_flows s cs
  flow-le-sum s c [] = omega arith
  flow-le-sum s c (x ∷ cs) = ground (arith, ==_iff x c, flow-le-sum s c cs)

  pending-le-flow : (s : Objection) (c : ℕ) → pending s c ≤ flow s c
  unfolding flow
  pending-le-flow s c = omega arith

  -- What an object passes on is part of its parent's total.
  flow-le-parent :
      (s : Objection) (c : ℕ)
      → IsBalanced tree s
      → (c == h.top) ≡ false
      → flow s c ≤ count_of (m_get_parent h c) s.total_count
  flow-le-parent s c v below = ground (
    arith,
    v.1 (m_get_parent h c),
    flow-le-sum s c (tree.children (m_get_parent h c)),
    tree.lists (m_get_parent h c) c,
  )

  total-le-top :
      (bound : ℕ) (s : Objection) (c : ℕ)
      → tree.depth c < bound
      → IsBalanced tree s
      → count_of c s.total_count ≤ count_of h.top s.total_count
  unfolding flow
  total-le-top zero s c short v = absurd (omega arith)
  total-le-top (suc bound) s c short v = elim (Bool-cases (c == h.top)) [
    | inl at_top ↦ ground (arith, ==_iff c h.top)
    | inr below ↦
        let up : tree.depth (m_get_parent h c) < tree.depth c =
          tree.climbs c (ne_of_test tree c h.top below) in
        ground (
          arith,
          flow-le-parent s c v below,
          total-le-top bound s (m_get_parent h c) (omega arith) v,
        )
  ]

  IsBalanced-quiet :
      (s : Objection) (obj : ℕ)
      → IsBalanced tree s
      → count_of h.top s.total_count ≡ 0
      → (get_objection_count s obj ≡ 0) × (obj ≢ h.top → pending s obj ≡ 0)
  unfolding get_objection_count flow
  IsBalanced-quiet s obj v zero_top = (
    ground (arith, v.1 obj, total-le-top (suc (tree.depth obj)) s obj (omega arith) v),
    λ below. quiet (below_test below),
  )
    where
      below_test : obj ≢ h.top → (obj == h.top) ≡ false
      below_test below = elim (Bool-cases (obj == h.top)) [
        | inl same ↦ absurd (below ((==_iff obj h.top).0 same))
        | inr other ↦ other
      ]

      quiet : (obj == h.top) ≡ false → pending s obj ≡ 0
      quiet below = omega (
        arith,
        pending-le-flow s obj,
        flow-le-parent s obj v below,
        total-le-top (suc (tree.depth (m_get_parent h obj))) s (m_get_parent h obj) (omega arith) v,
      )

  -- In every state that raises, drops, forks, starts and ends of drains lead to, with enough fuel and in any
  -- order in which no drain is forked while another of the objection runs at its object and each process
  -- that starts is not draining yet and takes its own drain: when the total at
  -- the top is 0 no object has an objection raised, and below the top no drain is pending.
  pub top_zero_quiet :
      (s : Objection) (obj : ℕ) (r : Reachable tree s)
      → InOrder r
      → count_of h.top s.total_count ≡ 0
      → (get_objection_count s obj ≡ 0) × (obj ≢ h.top → pending s obj ≡ 0)
  top_zero_quiet s obj r o zero_top = IsBalanced-quiet s obj (Reachable-IsBalanced s r o) zero_top
