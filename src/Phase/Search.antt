-- ===== src/Phase/Search.antt =====
-- The searches in the graph of phases: m_find_predecessor, m_find_successor and is_before of
-- src/uvmsc/phasing/uvm_phase.cpp.
use uvm_systemc.Common.{
  ℕ, zero, suc, ◌<◌, ◌≡◌, ap, ◌∙◌, sym, subst, Bool, true, false, not, ◌&&◌, ◌==◌, if◌then◌else◌,
  if_true, if_false, arith, inl, inr, Bool-cases, Option-cases, Option, none, some, ◌↔◌, ==_iff,
}
use uvm_systemc.Phase.{Graph, is, m_find, first_found, found, is_before}
use uvm_systemc.Phase.Order.{Reach, stop, go}

first_found-some :
    (f : ℕ → Option ℕ) (n m : ℕ) → first_found f n ≡ some m → (k : ℕ) × (f k ≡ some m)
unfolding first_found
first_found-some f zero m e = absurd (ground arith)
first_found-some f (suc n) m e = elim (Option-cases (first_found f n)) [
  | inl nothing ↦ (n, ground arith)
  | inr earlier ↦ first_found-some f n m (ground arith)
]

found-first_found :
    (f : ℕ → Option ℕ) (n k : ℕ) → k < n → found (f k) ≡ true → found (first_found f n) ≡ true
unfolding first_found
found-first_found f zero k below h = absurd (omega arith)
found-first_found f (suc n) k below h = elim (Option-cases (first_found f n)) [
  | inl nothing ↦ elim (Bool-cases (k == n)) [
    | inl last ↦
        ap (λ (o : Option ℕ). found (elim o [ some m ↦ some m | none ↦ f n ])) nothing
        ∙ sym (ap (λ t. found (f t)) ((==_iff k n).0 last))
        ∙ h
    | inr earlier ↦ absurd (ground (arith, found-first_found f n k (ground arith) h))
  ]
  | inr earlier ↦ ground arith
]

some_injective : {A : Type 0} {a b : A} → some a ≡ some b → a ≡ b
some_injective e = cc

-- The loop over the edges from one phase.
abbrev further : Graph → (ℕ → ℕ → Bool) → ℕ → ℕ → ℕ → ℕ → Option ℕ
further g edges fuel phase this n = if edges this n then m_find g edges fuel phase n else none

-- What is found is the phase or its node, and can be reached.
pub m_find-Reach :
    (g : Graph) (edges : ℕ → ℕ → Bool) (fuel phase this m : ℕ)
    → m_find g edges fuel phase this ≡ some m
    → (is g m phase ≡ true) × Reach edges this m
unfolding m_find
m_find-Reach g edges zero phase this m e = absurd (ground arith)
m_find-Reach g edges (suc fuel) phase this m e = elim (Bool-cases (is g this phase)) [
  | inl here ↦
      let same = some_injective (sym (if_true _ _ _ here) ∙ e) in
      (subst (λ t. is g t phase ≡ true) same here, subst (Reach edges this) same stop)
  | inr away ↦
      let (k, from_k) =
        first_found-some (further g edges fuel phase this) g.next m
          (sym (if_false _ _ _ away) ∙ e) in
      elim (Bool-cases (edges this k)) [
        | inl edge ↦
            let (hit, path) =
              m_find-Reach g edges fuel phase k m (sym (if_true _ _ _ edge) ∙ from_k) in
            (hit, go edge path)
        | inr none_there ↦ absurd (ground (arith, sym (if_false _ _ _ none_there) ∙ from_k))
      ]
]

-- If the search could go on for ever it would, so the edges come with a rank that falls along each, and
-- the fuel is more than the rank.
found-m_find :
    (g : Graph) (edges : ℕ → ℕ → Bool) (rank : ℕ → ℕ) (fuel phase this m : ℕ)
    → ((p q : ℕ) → edges p q ≡ true → rank q < rank p)
    → ((p q : ℕ) → edges p q ≡ true → q < g.next)
    → rank this < fuel
    → is g m phase ≡ true
    → Reach edges this m
    → found (m_find g edges fuel phase this) ≡ true
unfolding m_find
found-m_find g edges rank zero phase this m falls known enough hit path = absurd (omega arith)
found-m_find g edges rank (suc fuel) phase this m falls known enough hit stop =
    ap found (if_true _ _ _ hit)
found-m_find g edges rank (suc fuel) phase this m falls known enough hit (go {b = q} edge path) =
    elim (Bool-cases (is g this phase)) [
      | inl here ↦ ap found (if_true _ _ _ here)
      | inr away ↦
          ap found (if_false _ _ _ away)
          ∙ found-first_found (further g edges fuel phase this) g.next q (known this q edge) (
              ap found (if_true _ _ _ edge)
              ∙ found-m_find g edges rank fuel phase q m falls known
                  (omega (arith, falls this q edge)) hit path)
    ]

-- `is_before` answers whether a node of the phase comes after the phase on which it is called, itself
-- excepted. This is for a graph in which a rank falls along the edges to the successors, as in one
-- without cycles, and with more fuel than the rank of the phase.
pub is_before-Reach :
    (g : Graph) (rank : ℕ → ℕ) (fuel this phase : ℕ)
    → ((p q : ℕ) → g.successors p q ≡ true → rank q < rank p)
    → ((p q : ℕ) → g.successors p q ≡ true → q < g.next)
    → rank this < fuel
    → (is_before g fuel this phase ≡ true)
      ↔ ((is g this phase ≡ false) × ((m : ℕ) × (is g m phase ≡ true) × Reach g.successors this m))
unfolding is_before
is_before-Reach g rank fuel this phase falls known enough = (to, from)
  where
    to :
        (not (is g this phase) && found (m_find g g.successors fuel phase this)) ≡ true
        → (is g this phase ≡ false) × ((m : ℕ) × (is g m phase ≡ true) × Reach g.successors this m)
    to yes_before = elim (Option-cases (m_find g g.successors fuel phase this)) [
      | inl nothing ↦ absurd (ground arith)
      | inr something ↦ (
        ground arith,
        let (hit, path) = m_find-Reach g g.successors fuel phase this something.0 something.1 in
            (something.0, hit, path),
      )
    ]

    from :
        (is g this phase ≡ false) × ((m : ℕ) × (is g m phase ≡ true) × Reach g.successors this m)
        → (not (is g this phase) && found (m_find g g.successors fuel phase this)) ≡ true
    from (other, (m, hit, path)) =
        ground
          (arith, found-m_find g g.successors rank fuel phase this m falls known enough hit path)
