-- ===== src/Phase/Edges.antt =====
-- The two directions of the edges in the graph of phases: the branches of `add` in
-- src/uvmsc/phasing/uvm_phase.cpp.
use uvm_systemc.Common.{
  ℕ, ◌≡◌, refl, ap, ◌∙◌, sym, true, false, ◌==◌, arith, inl, inr, Bool-cases, ==_iff, if_true,
  if_false, Option, none, some, subst,
}
use uvm_systemc.Phase.{
  Graph, add_with, add_before, add_after, add_between, only, mark_each, erase_each, points_to,
  is_before,
}
use uvm_systemc.Phase.Placing.{link}

-- Every phase is a predecessor of its successors, and a successor of its predecessors.
abbrev pub IsMutual : Graph → Type 0
IsMutual g = (p q : ℕ) → g.successors p q ≡ g.predecessors q p

-- The phase is not linked: nothing comes before or after it.
abbrev pub NoPredecessors : Graph → ℕ → Type 0
NoPredecessors g n = (p : ℕ) → g.predecessors n p ≡ false

abbrev pub NoSuccessors : Graph → ℕ → Type 0
NoSuccessors g n = (p : ℕ) → g.successors n p ≡ false

-- Two addresses are the same or not, and what is known of one is known of the other.
module _ (g : Graph) (paired : IsMutual g) where
  -- No edge leads to a phase without predecessors.
  no_way_in : (b : ℕ) → NoPredecessors g b → (p q : ℕ) → (q == b) ≡ true → g.successors p q ≡ false
  no_way_in b no_pred p q e = ap (g.successors p) ((==_iff q b).0 e) ∙ paired p b ∙ no_pred p

  no_entry : (b : ℕ) → NoPredecessors g b → (p q : ℕ) → (q == b) ≡ true → g.predecessors q p ≡ false
  no_entry b no_pred p q e = sym (paired p q) ∙ no_way_in b no_pred p q e

  -- No edge leads out of a phase without successors.
  no_exit : (e : ℕ) → NoSuccessors g e → (p q : ℕ) → (p == e) ≡ true → g.successors p q ≡ false
  no_exit e no_succ p q same = ap (λ t. g.successors t q) ((==_iff p e).0 same) ∙ no_succ q

  no_way_out : (e : ℕ) → NoSuccessors g e → (p q : ℕ) → (p == e) ≡ true → g.predecessors q p ≡ false
  no_way_out e no_succ p q same = sym (paired p q) ∙ no_exit e no_succ p q same

add_with-IsMutual :
    (g : Graph) (b e w : ℕ)
    → IsMutual g
    → NoPredecessors g b
    → NoSuccessors g e
    → g.successors w w ≡ false
    → IsMutual (add_with g b e w)
unfolding add_with
add_with-IsMutual g b e w paired no_pred no_succ no_loop p q = elim (Bool-cases (q == b)) [
  | inl at_b ↦ ground (
    arith,
    paired p q,
    paired w q,
    paired w w,
    no_way_in g paired b no_pred p q at_b,
    no_way_in g paired b no_pred w q at_b,
    no_entry g paired b no_pred p q at_b,
  )
  | inr off ↦ elim (Bool-cases (p == e)) [
    | inl at_e ↦
        ground (arith, paired p q, paired w q, paired w w, no_exit g paired e no_succ p q at_e)
    | inr out ↦ ground (arith, paired p q, paired w q, paired w w)
  ]
]

add_before-IsMutual :
    (g : Graph) (b e n : ℕ)
    → IsMutual g
    → NoPredecessors g b
    → NoSuccessors g e
    → (n == b) ≡ false
    → IsMutual (add_before g b e n)
unfolding add_before
add_before-IsMutual g b e n paired no_pred no_succ other p q = elim (Bool-cases (q == b)) [
  | inl at_b ↦ ground (
    arith,
    paired p q,
    paired p n,
    no_way_in g paired b no_pred p q at_b,
    no_entry g paired b no_pred p q at_b,
    (==_iff q b).0 at_b,
  )
  | inr off ↦ elim (Bool-cases (q == n)) [
    | inl at_n ↦ ground (
      arith,
      paired p q,
      paired p n,
      ap (g.successors p) ((==_iff q n).0 at_n),
      no_succ n,
      ap (λ t. g.successors t n),
      ==_iff p e,
    )
    | inr out ↦ ground (arith, paired p q, paired p n)
  ]
]

add_after-IsMutual :
    (g : Graph) (b e n : ℕ)
    → IsMutual g
    → NoPredecessors g b
    → NoSuccessors g e
    → (n == e) ≡ false
    → IsMutual (add_after g b e n)
unfolding add_after
add_after-IsMutual g b e n paired no_pred no_succ other p q = elim (Bool-cases (p == e)) [
  | inl at_e ↦ ground (
    arith,
    paired p q,
    paired n q,
    no_exit g paired e no_succ p q at_e,
    no_way_out g paired e no_succ p q at_e,
    (==_iff p e).0 at_e,
  )
  | inr off ↦ elim (Bool-cases (p == n)) [
    | inl at_n ↦ ground (
      arith,
      paired p q,
      paired n q,
      ap (λ t. g.successors t q) ((==_iff p n).0 at_n),
      no_pred n,
      ==_iff q b,
    )
    | inr out ↦ ground (arith, paired p q, paired n q)
  ]
]

add_between-IsMutual :
    (g : Graph) (b e a n : ℕ)
    → IsMutual g
    → g.successors a n ≡ false
    → (n == b) ≡ false
    → (a == e) ≡ false
    → IsMutual (add_between g b e a n)
unfolding add_between
add_between-IsMutual g b e a n paired apart other another p q =
    ap (λ (h : Graph). h.successors p q) whole
    ∙ ground (arith, paired p q)
    ∙ sym (ap (λ (h : Graph). h.predecessors q p) whole)
  where
    linked : Graph
    linked = record g {
      predecessors = mark_each (only n) e (mark_each (only b) a g.predecessors);
      successors = mark_each (only a) b (mark_each (only e) n g.successors);
    }

    whole : add_between g b e a n ≡ linked
    whole = if_false (linked.successors a n) _ _ (ground (arith, apart, other, another))

-- Between two phases of which the one follows the other directly, `add` drops the edge from the first to
-- the second in one direction only: the second keeps the first among its predecessors.
pub add_between_half :
    (g : Graph) (b e a n : ℕ)
    → g.successors a n ≡ true
    → g.predecessors n a ≡ true
    → (n == b) ≡ false
    → (a == e) ≡ false
    → let h = add_between g b e a n in (h.successors a n ≡ false) × (h.predecessors n a ≡ true)
unfolding add_between
add_between_half g b e a n ahead back other another = (
  ap (λ (h : Graph). h.successors a n) whole
      ∙ ground (arith, (==_iff a a).1 refl, (==_iff n n).1 refl),
  ap (λ (h : Graph). h.predecessors n a) whole ∙ ground (arith, back),
)
  where
    linked : Graph
    linked = record g {
      predecessors = mark_each (only n) e (mark_each (only b) a g.predecessors);
      successors = mark_each (only a) b (mark_each (only e) n g.successors);
    }

    whole : add_between g b e a n ≡ record linked {
      successors = erase_each (only n) a (erase_each (only a) n linked.successors);
    }
    whole = if_true (linked.successors a n) _ _ (ground (arith, ahead))

some_injective : {A : Type 0} {a b : A} → some a ≡ some b → a ≡ b
some_injective e = cc

-- What `add` links is linked both ways, in parallel with a phase, before or after one, or between two of
-- which the one does not follow the other directly: if every phase is a predecessor of its successors
-- and the reverse, then it is so afterwards. Nothing comes before the first of the nodes or after the
-- last, no phase follows itself, the phase before which they are put is not the first of them, and the
-- phase after which they are put is not the last.
pub link-IsMutual :
    (fuel : ℕ) (g h : Graph) (b e : ℕ) (with_phase after_phase before_phase : Option ℕ)
    → IsMutual g
    → NoPredecessors g b
    → NoSuccessors g e
    → ((n : ℕ) → g.successors n n ≡ false)
    → points_to before_phase b ≡ false
    → points_to after_phase e ≡ false
    → ((a n : ℕ) → after_phase ≡ some a → before_phase ≡ some n → g.successors a n ≡ false)
    → link fuel g b e with_phase after_phase before_phase ≡ some h
    → IsMutual h
unfolding link
link-IsMutual fuel g h b e (some w) a n paired no_pred no_succ no_loop not_b not_e apart linked =
    subst IsMutual (some_injective linked)
      (add_with-IsMutual g b e w paired no_pred no_succ (no_loop w))
link-IsMutual fuel g h b e none none (some n) paired no_pred no_succ no_loop not_b not_e apart
      linked =
    subst IsMutual (some_injective linked)
      (add_before-IsMutual g b e n paired no_pred no_succ not_b)
link-IsMutual fuel g h b e none (some a) none paired no_pred no_succ no_loop not_b not_e apart
      linked =
    subst IsMutual (some_injective linked) (add_after-IsMutual g b e a paired no_pred no_succ not_e)
link-IsMutual fuel g h b e none (some a) (some n) paired no_pred no_succ no_loop not_b not_e apart
      linked =
    elim (Bool-cases (is_before g fuel a n)) [
      | inl ordered ↦
          subst IsMutual (some_injective (sym (if_true _ _ _ ordered) ∙ linked))
            (add_between-IsMutual g b e a n paired (apart a n refl refl) not_b not_e)
      | inr unordered ↦ absurd (
          ground (
            arith,
            sym (if_false (is_before g fuel a n) (some (add_between g b e a n)) none unordered)
                ∙ linked,
          ))
    ]
link-IsMutual fuel g h b e none none none paired no_pred no_succ no_loop not_b not_e apart linked =
    subst IsMutual (some_injective linked) paired
