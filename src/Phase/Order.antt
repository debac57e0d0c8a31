-- ===== src/Phase/Order.antt =====
-- The order of the phases: what `add` of src/uvmsc/phasing/uvm_phase.cpp does to it.
use uvm_systemc.Common.{
  ℕ, ◌≡◌, refl, ap, ◌∙◌, sym, Bool, true, false, ◌==◌, if◌then◌else◌, arith, inl, inr, Bool-cases,
  ==_iff, ◌↔◌,
}
use uvm_systemc.Phase.{Graph, add_before}
use uvm_systemc.Phase.Edges.{IsMutual, NoPredecessors, NoSuccessors}

-- The second phase is the first or comes after it.
pub data Reach (edges : ℕ → ℕ → Bool) : ℕ → ℕ → Type 0 where
  stop : {a : ℕ} → Reach edges a a
  go : {a b c : ℕ} → edges a b ≡ true → Reach edges b c → Reach edges a c

module _ (g : Graph) (b n : ℕ) (paired : IsMutual g) (no_pred : NoPredecessors g b)
    (no_succ : NoSuccessors g b) (other : (n == b) ≡ false) where
  -- The edges afterwards: into the new node from what was before the phase, out of it to the phase,
  in_edge : (p : ℕ) → (add_before g b b n).successors p b ≡ g.successors p n
  unfolding add_before
  in_edge p = ground (arith, paired p n, paired p b, no_pred p, (==_iff b b).1 refl)

  out_edge : (q : ℕ) → (add_before g b b n).successors b q ≡ (q == n)
  unfolding add_before
  out_edge q = ground (arith, paired b n, no_succ n, no_succ q, (==_iff b b).1 refl)

  -- and elsewhere as they were, but for those into the phase.
  old_edge :
      (p q : ℕ)
      → (p == b) ≡ false
      → (q == b) ≡ false
      → (add_before g b b n).successors p q ≡ (if q == n then false else g.successors p q)
  unfolding add_before
  old_edge p q not_p not_q = elim (Bool-cases (q == n)) [
    | inl at_n ↦ ground (arith, paired p n, ap (g.successors p) ((==_iff q n).0 at_n))
    | inr off ↦ ground arith
  ]

  abbrev After : ℕ → ℕ → Type 0
  After = Reach (add_before g b b n).successors

  -- A step of before is a step, or two through the new node.
  kept : {x y : ℕ} → Reach g.successors x y → After x y
  kept stop = stop
  kept (go {a} {b = q} edge rest) = elim (Bool-cases (q == n)) [
    | inl at_n ↦
        go (in_edge a ∙ sym (ap (g.successors a) ((==_iff q n).0 at_n)) ∙ edge)
          (go (out_edge q ∙ at_n) (kept rest))
    | inr off ↦
        go (old_edge a q (leaves a q edge) (arrives a q edge) ∙ ground (arith, edge)) (kept rest)
  ]
    where
      leaves : (a q : ℕ) → g.successors a q ≡ true → (a == b) ≡ false
      leaves a q edge = elim (Bool-cases (a == b)) [
        | inl e ↦
            absurd (ground (arith, ap (λ t. g.successors t q) ((==_iff a b).0 e), no_succ q, edge))
        | inr e ↦ e
      ]

      arrives : (a q : ℕ) → g.successors a q ≡ true → (q == b) ≡ false
      arrives a q edge = elim (Bool-cases (q == b)) [
        | inl e ↦
            absurd
              (ground (arith, ap (g.successors a) ((==_iff q b).0 e), paired a b, no_pred a, edge))
        | inr e ↦ e
      ]

  direct :
      (a q : ℕ)
      → (a == b) ≡ false
      → (q == b) ≡ false
      → (add_before g b b n).successors a q ≡ true
      → g.successors a q ≡ true
  direct a q from to edge = ground (arith, old_edge a q from to, edge)

  same_node : (m : ℕ) → (m == m) ≡ true
  same_node m = (==_iff m m).1 refl

  to_phase : (q r : ℕ) → (q == b) ≡ true → (add_before g b b n).successors q r ≡ true → r ≡ n
  to_phase q r new next = (==_iff r n).0 (
      sym (out_edge r)
      ∙ sym (ap (λ t. (add_before g b b n).successors t r) ((==_iff q b).0 new))
      ∙ next)

  -- Between phases other than the new one there is no other order.
  reflected : {x y : ℕ} → After x y → (x == b) ≡ false → (y == b) ≡ false → Reach g.successors x y
  reflected stop from to = stop
  reflected (go {a} {b = q} edge stop) from to = go (direct a q from to edge) stop
  reflected (go {a} {b = q} edge (go {b = r} next rest)) from to = elim (Bool-cases (q == b)) [
    | inr old ↦ go (direct a q from old edge) (reflected (go next rest) old to)
    | inl new ↦ go (through a q r new edge next) (reflected rest (lands q r new next) to)
  ]
    where
      lands :
          (q r : ℕ)
          → (q == b) ≡ true
          → (add_before g b b n).successors q r ≡ true
          → (r == b) ≡ false
      lands q r new next = ap (λ t. t == b) (to_phase q r new next) ∙ other

      through :
          (a q r : ℕ)
          → (q == b) ≡ true
          → (add_before g b b n).successors a q ≡ true
          → (add_before g b b n).successors q r ≡ true
          → g.successors a r ≡ true
      through a q r new edge next =
          ap (g.successors a) (to_phase q r new next)
          ∙ sym (in_edge a)
          ∙ sym (ap ((add_before g b b n).successors a) ((==_iff q b).0 new))
          ∙ edge

-- A new node that `add` puts before a phase comes after everything that was directly before the phase,
-- and before the phase; and between any two phases other than the new one, the order is what it was.
-- The edges are paired, and the new node has none.
pub add_before-Reach :
    (g : Graph) (b n : ℕ)
    → IsMutual g
    → NoPredecessors g b
    → NoSuccessors g b
    → (n == b) ≡ false
    → let h = add_before g b b n in
      ((p : ℕ) → g.predecessors n p ≡ true → Reach h.successors p b)
      × Reach h.successors b n
      × ((x y : ℕ)
          → (x == b) ≡ false
          → (y == b) ≡ false
          → Reach g.successors x y ↔ Reach h.successors x y)
add_before-Reach g b n paired no_pred no_succ other = (
  λ p before. go (in_edge g b n paired no_pred no_succ other p ∙ paired p n ∙ before) stop,
  go (out_edge g b n paired no_pred no_succ other n ∙ (==_iff n n).1 refl) stop,
  λ x y from to. (
    kept g b n paired no_pred no_succ other,
    λ path. reflected g b n paired no_pred no_succ other path from to,
  ),
)
