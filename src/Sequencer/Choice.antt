-- ===== src/Sequencer/Choice.antt =====
-- The choice of the next request by the arbitration of a sequencer.
use uvm_systemc.Common.{
  ℕ, zero, suc, ◌+◌, ◌≡◌, ◌≢◌, refl, subst, true, false, some, List, [], ◌∷◌, ◌++◌, arith, ◌==◌,
  ltb, get_elem?, Bool-cases, inl, inr, All, All-append,
}
use uvm_systemc.Sequencer.{
  Sequence, Request, Sequencer, Chooser, Arbitration, fifo, weighted, random, strict_fifo,
  strict_random, user, is_blocked, is_req, Info, RequestKind, seq_type_req, seq_type_lock,
  seq_type_grab, grant_queued_locks, is_available, available, first, still_free, recheck, by_weight,
  highest, place_at, choose_among, choose_several, choose_later, choose, m_choose_next_request,
  m_get_seq_item_priority, info,
}
use uvm_systemc.Sequencer.Locks.{Allows, is_blocked-Allows}

-- An entry of the queue that may be chosen: a request for an item, of a relevant sequence that every
-- lock lets go on.
abbrev pub MayGo : List Sequence → List Request → ℕ → Type 0
MayGo locks q i =
    (r : Request) × (get_elem? q i ≡ some r)
    × (r.request ≡ seq_type_req)
    × (Info.is_relevant (info r.sequence) ≡ true)
    × All (λ l. Allows l r.sequence) locks

is_req-kind : (r : Request) → is_req r ≡ true → r.request ≡ seq_type_req
is_req-kind r e = by_kind r.request e
  where
    by_kind :
        (k : RequestKind)
        → (elim k [ seq_type_req ↦ true | seq_type_lock ↦ false | seq_type_grab ↦ false ]) ≡ true
        → k ≡ seq_type_req
    by_kind seq_type_req e = refl
    by_kind seq_type_lock e = cc
    by_kind seq_type_grab e = cc

may_go :
    (locks : List Sequence) (r : Request) (rs : List Request)
    → is_available locks r ≡ true
    → MayGo locks (r ∷ rs) 0
unfolding is_available
may_go locks r rs e = (
  r,
  refl,
  is_req-kind r (ground arith),
  ground arith,
  is_blocked-Allows locks r.sequence (ground arith),
)

module _ (P Q : ℕ × Request → Type 0) (h : (a : ℕ × Request) → P a → Q a) where
  pub All-weaken : (xs : List (ℕ × Request)) → All P xs → All Q xs
  All-weaken [] a = tt
  All-weaken (x ∷ xs) a = (h x a.0, All-weaken xs a.1)

later-MayGo :
    (locks : List Sequence) (i : ℕ) (r : Request) (rs : List Request)
    → All (λ a. (d : ℕ) × (a.0 ≡ suc i + d) × MayGo locks rs d) (available locks (suc i) rs)
    → All (λ a. (d : ℕ) × (a.0 ≡ i + d) × MayGo locks (r ∷ rs) d) (available locks (suc i) rs)
later-MayGo locks i r rs =
    All-weaken _ _ (λ a (d, e, m). (suc d, omega (arith, e), m)) (available locks (suc i) rs)

available-MayGo :
    (locks : List Sequence) (i : ℕ) (q : List Request)
    → All (λ a. (d : ℕ) × (a.0 ≡ i + d) × MayGo locks q d) (available locks i q)
unfolding available
available-MayGo locks i [] = tt
available-MayGo locks i (r ∷ rs) = elim (Bool-cases (is_available locks r)) [
  | inl hit ↦ rw hit (
    (0, omega arith, may_go locks r rs hit),
    later-MayGo locks i r rs (available-MayGo locks (suc i) rs),
  )
  | inr miss ↦ rw miss (later-MayGo locks i r rs (available-MayGo locks (suc i) rs))
]

available-MayGo-zero :
    (locks : List Sequence) (q : List Request) → All (λ a. MayGo locks q a.0) (available locks 0 q)
available-MayGo-zero locks q =
    All-weaken _ (λ a. MayGo locks q a.0)
      (λ a (d, e, m). subst (MayGo locks q) (omega (arith, e)) m) (available locks 0 q)
      (available-MayGo locks 0 q)

-- Every step of the choice picks from its list.
module _ (P : ℕ → Type 0) where
  abbrev Each : List (ℕ × Request) → Type 0
  Each = All (λ a. P a.0)

  first-Each : (xs : List (ℕ × Request)) (i : ℕ) → first xs ≡ some i → Each xs → P i
  first-Each [] i e a = cc
  first-Each (x ∷ xs) i e a = subst P (ground arith) a.0

  still_free-Each :
      (locks : List Sequence) (xs : List (ℕ × Request)) → Each xs → Each (still_free locks xs)
  unfolding still_free
  still_free-Each locks [] a = tt
  still_free-Each locks (x ∷ xs) a = elim (Bool-cases (is_blocked locks (Request.sequence x.1))) [
    | inl out ↦ rw out (still_free-Each locks xs a.1)
    | inr stays ↦ rw stays (a.0, still_free-Each locks xs a.1)
  ]

  by_weight-Each :
      (temp sum : ℕ) (xs : List (ℕ × Request)) (i : ℕ)
      → by_weight temp sum xs ≡ some i
      → Each xs
      → P i
  unfolding by_weight
  by_weight-Each temp sum [] i e a = cc
  by_weight-Each temp sum (x ∷ xs) i e a =
      elim (Bool-cases (ltb temp (m_get_seq_item_priority x.1 + sum))) [
        | inl here ↦ subst P (ground arith) a.0
        | inr on ↦ by_weight-Each temp (sum + m_get_seq_item_priority x.1) xs i (ground arith) a.1
      ]

  highest-Each :
      (pri : ℕ) (found xs : List (ℕ × Request)) → Each found → Each xs → Each (highest pri found xs)
  unfolding highest
  highest-Each pri found [] f a = f
  highest-Each pri found (x ∷ xs) f a = elim (Bool-cases (ltb pri (m_get_seq_item_priority x.1))) [
    | inl more ↦ rw more (highest-Each (m_get_seq_item_priority x.1) (x ∷ []) xs (a.0, tt) a.1)
    | inr less ↦ elim (Bool-cases (m_get_seq_item_priority x.1 == pri)) [
      | inl same ↦
          rw (less, same)
            (highest-Each pri (found ++ x ∷ []) xs (All-append _ found (x ∷ []) f (a.0, tt)) a.1)
      | inr other ↦ rw (less, other) (highest-Each pri found xs f a.1)
    ]
  ]

  place_at-Each : (xs : List (ℕ × Request)) (k i : ℕ) → place_at xs k ≡ some i → Each xs → P i
  place_at-Each [] k i e a = cc
  place_at-Each (x ∷ xs) zero i e a = subst P (ground arith) a.0
  place_at-Each (x ∷ xs) (suc k) i e a = place_at-Each xs k i e a.1

  choose_among-Each :
      (c : Chooser) (m : Arbitration) (xs : List (ℕ × Request)) (i : ℕ)
      → m ≢ user
      → choose_among c m xs ≡ some i
      → Each xs
      → P i
  unfolding choose_among
  choose_among-Each c fifo xs i own e a = cc
  choose_among-Each c weighted xs i own e a = by_weight-Each _ 0 xs i e a
  choose_among-Each c random xs i own e a = place_at-Each xs _ i e a
  choose_among-Each c strict_fifo xs i own e a =
      first-Each (highest 0 [] xs) i e (highest-Each 0 [] xs tt a)
  choose_among-Each c strict_random xs i own e a =
      place_at-Each (highest 0 [] xs) _ i e (highest-Each 0 [] xs tt a)
  choose_among-Each c user xs i own e a = absurd (own refl)

  choose_several-Each :
      (c : Chooser) (m : Arbitration) (xs : List (ℕ × Request)) (i : ℕ)
      → m ≢ user
      → choose_several c m xs ≡ some i
      → Each xs
      → P i
  choose_several-Each c m [] i own e a = cc
  choose_several-Each c m (x ∷ []) i own e a = subst P (ground arith) a.0
  choose_several-Each c m (x ∷ y ∷ xs) i own e a = choose_among-Each c m (x ∷ y ∷ xs) i own e a

  recheck-Each :
      (locks : List Sequence) (xs : List (ℕ × Request)) → Each xs → Each (recheck locks xs)
  recheck-Each [] xs a = a
  recheck-Each (l ∷ ls) xs a = still_free-Each (l ∷ ls) xs a

  choose_later-Each :
      (c : Chooser) (m : Arbitration) (locks : List Sequence) (xs : List (ℕ × Request)) (i : ℕ)
      → m ≢ user
      → choose_later c m locks xs ≡ some i
      → Each xs
      → P i
  choose_later-Each c m locks [] i own e a = cc
  choose_later-Each c m locks (x ∷ []) i own e a = subst P (ground arith) a.0
  choose_later-Each c m locks (x ∷ y ∷ xs) i own e a =
      choose_several-Each c m (recheck locks (x ∷ y ∷ xs)) i own e
        (recheck-Each locks (x ∷ y ∷ xs) a)

  choose-Each :
      (c : Chooser) (m : Arbitration) (locks : List Sequence) (xs : List (ℕ × Request)) (i : ℕ)
      → m ≢ user
      → choose c m locks xs ≡ some i
      → Each xs
      → P i
  unfolding choose
  choose-Each c fifo locks xs i own e a = first-Each xs i e a
  choose-Each c weighted locks xs i own e a = choose_later-Each c weighted locks xs i own e a
  choose-Each c random locks xs i own e a = choose_later-Each c random locks xs i own e a
  choose-Each c strict_fifo locks xs i own e a = choose_later-Each c strict_fifo locks xs i own e a
  choose-Each c strict_random locks xs i own e a =
      choose_later-Each c strict_random locks xs i own e a
  choose-Each c user locks xs i own e a = absurd (own refl)

-- Whatever the random number, an arbitration that is not the user's chooses only a request for an item,
-- of a relevant sequence that no lock blocks after the queued locks have been granted.
pub m_choose_next_request-MayGo :
    (c : Chooser) (s : Sequencer) (i : ℕ)
    → s.arbitration ≢ user
    → (m_choose_next_request c s).1 ≡ some i
    → MayGo
        (Sequencer.lock_list (m_choose_next_request c s).0)
        (Sequencer.arb_sequence_q (m_choose_next_request c s).0)
        i
unfolding m_choose_next_request grant_queued_locks
m_choose_next_request-MayGo c s i own e =
    let t = grant_queued_locks s in
    choose-Each (MayGo t.lock_list t.arb_sequence_q) c s.arbitration t.lock_list
      (available t.lock_list 0 t.arb_sequence_q) i own e
      (available-MayGo-zero t.lock_list t.arb_sequence_q)
