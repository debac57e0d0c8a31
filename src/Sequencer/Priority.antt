-- ===== src/Sequencer/Priority.antt =====
-- The strict arbitration of a sequencer goes by priority.
use uvm_systemc.Common.{
  ℕ, suc, ◌+◌, ◌≤◌, ◌≡◌, refl, sym, subst, ◌∙◌, some, List, [], ◌∷◌, ◌++◌, arith, ◌==◌, ltb,
  get_elem?, Bool-cases, inl, inr, All, All-append, ==_iff,
}
use uvm_systemc.Sequencer.{
  Sequence, Request, Sequencer, Chooser, Arbitration, strict_fifo, grant_queued_locks, is_available,
  available, first, highest, choose, choose_among, m_choose_next_request, m_get_seq_item_priority,
}
use uvm_systemc.Sequencer.Choice.{All-weaken}
use uvm_systemc.Sequencer.Randomness.{IsFree, available-IsFree, recheck-all}

abbrev IsAt : List Request → ℕ × Request → Type 0
IsAt q a = get_elem? q a.0 ≡ some (a.1)

available-places :
    (locks : List Sequence) (i : ℕ) (q : List Request)
    → All (λ a. (d : ℕ) × (a.0 ≡ i + d) × (get_elem? q d ≡ some (a.1))) (available locks i q)
unfolding available
available-places locks i [] = tt
available-places locks i (r ∷ rs) =
    let later =
      All-weaken (λ a. (d : ℕ) × (a.0 ≡ suc i + d) × (get_elem? rs d ≡ some (a.1)))
        (λ a. (d : ℕ) × (a.0 ≡ i + d) × (get_elem? (r ∷ rs) d ≡ some (a.1)))
        (λ a (d, e, m). (suc d, omega (arith, e), m)) (available locks (suc i) rs)
        (available-places locks (suc i) rs) in
    elim (Bool-cases (is_available locks r)) [
      | inl hit ↦ rw hit ((0, omega arith, refl), later)
      | inr miss ↦ rw miss later
    ]

available-IsAt : (locks : List Sequence) (q : List Request) → All (IsAt q) (available locks 0 q)
available-IsAt locks q =
    All-weaken _ (IsAt q)
      (λ a (d, e, m). subst (λ k. get_elem? q k ≡ some (a.1)) (omega (arith, e)) m)
      (available locks 0 q) (available-places locks 0 q)

abbrev pub AtMost : ℕ → List (ℕ × Request) → Type 0
AtMost m = All (λ a. m_get_seq_item_priority a.1 ≤ m)

-- The list that `highest` builds holds entries of its list, all of one priority that none exceeds.
highest-AtMost :
    (q : List Request) (pri : ℕ) (found xs : List (ℕ × Request))
    → All (λ a. (m_get_seq_item_priority a.1 ≡ pri) × IsAt q a) found
    → All (IsAt q) xs
    → (m : ℕ) × (pri ≤ m)
      × All (λ a. (m_get_seq_item_priority a.1 ≡ m) × IsAt q a) (highest pri found xs)
      × AtMost m xs
unfolding highest
highest-AtMost q pri found [] f a = (pri, omega arith, f, tt)
highest-AtMost q pri found (x ∷ xs) f a =
    elim (Bool-cases (ltb pri (m_get_seq_item_priority x.1))) [
      | inl more ↦
          let (m, le, best, most) =
            highest-AtMost q (m_get_seq_item_priority x.1) (x ∷ []) xs ((refl, a.0), tt) a.1 in
          rw more (m, ground (arith, le), best, (le, most))
      | inr less ↦ elim (Bool-cases (m_get_seq_item_priority x.1 == pri)) [
        | inl same ↦
            let e : m_get_seq_item_priority x.1 ≡ pri =
              (==_iff (m_get_seq_item_priority x.1) pri).0 same in
            let (m, le, best, most) =
              highest-AtMost q pri (found ++ x ∷ []) xs
                (All-append _ found (x ∷ []) f ((e, a.0), tt)) a.1 in
            rw (less, same) (m, le, best, (omega (arith, e, le), most))
        | inr other ↦
            let (m, le, best, most) = highest-AtMost q pri found xs f a.1 in
            rw (less, other) (m, le, best, (ground (arith, le), most))
      ]
    ]

-- An entry of the queue whose priority no request of the list exceeds.
abbrev pub IsHighest : List Request → List (ℕ × Request) → ℕ → Type 0
IsHighest q xs i = (r : Request) × (get_elem? q i ≡ some r) × AtMost (m_get_seq_item_priority r) xs

first-IsHighest :
    (q : List Request) (m : ℕ) (best xs : List (ℕ × Request)) (i : ℕ)
    → first best ≡ some i
    → All (λ a. (m_get_seq_item_priority a.1 ≡ m) × IsAt q a) best
    → AtMost m xs
    → IsHighest q xs i
first-IsHighest q m [] xs i e f most = cc
first-IsHighest q m (x ∷ best) xs i e f most =
    let at : x.0 ≡ i = ground arith in
    (
      x.1,
      subst (λ k. get_elem? q k ≡ some (x.1)) at (f.0.1),
      subst (λ k. AtMost k xs) (sym (f.0.0)) most,
    )

choose-strict_fifo :
    (c : Chooser) (locks : List Sequence) (x y : ℕ × Request) (xs : List (ℕ × Request))
    → IsFree locks (x ∷ y ∷ xs)
    → choose c strict_fifo locks (x ∷ y ∷ xs) ≡ first (highest 0 [] (x ∷ y ∷ xs))
unfolding choose choose_among
choose-strict_fifo c locks x y xs f = rw (recheck-all locks (x ∷ y ∷ xs) f) refl

choose-IsHighest :
    (c : Chooser) (q : List Request) (locks : List Sequence) (xs : List (ℕ × Request)) (i : ℕ)
    → choose c strict_fifo locks xs ≡ some i
    → IsFree locks xs
    → All (IsAt q) xs
    → IsHighest q xs i
unfolding choose choose_among
choose-IsHighest c q locks [] i e f a = cc
choose-IsHighest c q locks (x ∷ []) i e f a =
    let at : x.0 ≡ i = ground arith in
    (x.1, subst (λ k. get_elem? q k ≡ some (x.1)) at (a.0), (omega arith, tt))
choose-IsHighest c q locks (x ∷ y ∷ xs) i e f a =
    let (m, le, best, most) = highest-AtMost q 0 [] (x ∷ y ∷ xs) tt a in
    first-IsHighest q m (highest 0 [] (x ∷ y ∷ xs)) (x ∷ y ∷ xs) i
      (sym (choose-strict_fifo c locks x y xs f) ∙ e) best most

choose-IsHighest_in :
    (c : Chooser) (m : Arbitration) (q : List Request) (locks : List Sequence)
    (xs : List (ℕ × Request)) (i : ℕ)
    → m ≡ strict_fifo
    → choose c m locks xs ≡ some i
    → IsFree locks xs
    → All (IsAt q) xs
    → IsHighest q xs i
choose-IsHighest_in c m q locks xs i em e f a =
    choose-IsHighest c q locks xs i (subst (λ k. choose c k locks xs ≡ some i) em e) f a

-- Under the strict arbitration in order of arrival, no request that may go has a higher priority than the
-- one chosen.
pub strict_fifo-IsHighest :
    (c : Chooser) (s : Sequencer) (i : ℕ)
    → s.arbitration ≡ strict_fifo
    → (m_choose_next_request c s).1 ≡ some i
    → IsHighest
        (Sequencer.arb_sequence_q (grant_queued_locks s))
        (available
          (Sequencer.lock_list (grant_queued_locks s))
          0
          (Sequencer.arb_sequence_q (grant_queued_locks s)))
        i
unfolding m_choose_next_request grant_queued_locks
strict_fifo-IsHighest c s i mode e =
    choose-IsHighest_in c s.arbitration _ _ _ i mode e (available-IsFree _ 0 _) (available-IsAt _ _)
