-- ===== src/Sequencer/Randomness.antt =====
-- What `urandom_range` makes of a random arbitration.
use uvm_systemc.Common.{
  ℕ, zero, suc, ◌-◌, ◌%◌, ◌≤◌, ◌<◌, ◌≡◌, refl, ◌∙◌, subst, false, some, List, [], ◌∷◌, arith,
  length, get_elem?, Bool-cases, inl, inr, All, ==_iff,
}
use native.Mathlib.Nat.{mod-lt}
use uvm_systemc.Sequencer.{
  Sequence, Request, Sequencer, Chooser, Arbitration, random, urandom_range, is_blocked,
  grant_queued_locks, is_available, available, still_free, recheck, place_at, choose, choose_among,
  m_choose_next_request,
}

abbrev pub IsFree : List Sequence → List (ℕ × Request) → Type 0
IsFree locks = All (λ a. is_blocked locks (Request.sequence a.1) ≡ false)

pub available-IsFree :
    (locks : List Sequence) (i : ℕ) (q : List Request) → IsFree locks (available locks i q)
unfolding available is_available
available-IsFree locks i [] = tt
available-IsFree locks i (r ∷ rs) = elim (Bool-cases (is_available locks r)) [
  | inl hit ↦ rw hit (ground arith, available-IsFree locks (suc i) rs)
  | inr miss ↦ rw miss (available-IsFree locks (suc i) rs)
]

still_free-all :
    (locks : List Sequence) (xs : List (ℕ × Request)) → IsFree locks xs → still_free locks xs ≡ xs
unfolding still_free
still_free-all locks [] f = refl
still_free-all locks (x ∷ xs) f = rw (f.0, still_free-all locks xs f.1) refl

pub recheck-all :
    (locks : List Sequence) (xs : List (ℕ × Request)) → IsFree locks xs → recheck locks xs ≡ xs
recheck-all [] xs f = refl
recheck-all (l ∷ ls) xs f = still_free-all (l ∷ ls) xs f

get_elem?-inside :
    (xs : List (ℕ × Request)) (k : ℕ)
    → k < length xs
    → (a : ℕ × Request) × (get_elem? xs k ≡ some a)
get_elem?-inside [] k h = absurd (omega arith)
get_elem?-inside (x ∷ xs) zero h = (x, refl)
get_elem?-inside (x ∷ xs) (suc k) h = get_elem?-inside xs k (omega arith)

urandom_range-bounds :
    (rand max : ℕ) → 0 < max → (0 < urandom_range rand max 0) × (urandom_range rand max 0 ≤ max)
unfolding urandom_range
urandom_range-bounds rand max h = ground (arith, in_range, ==_iff 0 max)
  where
    in_range : rand % (max - 0) < max
    in_range = let e : 0 < max - 0 = omega (arith, h) in omega (arith, mod-lt rand e)

place_at-hit :
    (xs : List (ℕ × Request)) (k : ℕ) (a : ℕ × Request)
    → get_elem? xs k ≡ some a
    → place_at xs k ≡ some (a.0)
place_at-hit xs k a e = rw (place_at, e) refl

choose-random :
    (c : Chooser) (locks : List Sequence) (x y : ℕ × Request) (rest : List (ℕ × Request))
    → IsFree locks (x ∷ y ∷ rest)
    → choose c random locks (x ∷ y ∷ rest)
      ≡ place_at (x ∷ y ∷ rest) (urandom_range c.rand (length (x ∷ y ∷ rest) - 1) 0)
unfolding choose choose_among
choose-random c locks x y rest free = rw (recheck-all locks (x ∷ y ∷ rest) free) refl

choose-random_at :
    (c : Chooser) (m : Arbitration) (locks : List Sequence) (xs : List (ℕ × Request))
    (x y : ℕ × Request) (rest : List (ℕ × Request))
    → m ≡ random
    → xs ≡ x ∷ y ∷ rest
    → IsFree locks xs
    → choose c m locks xs
      ≡ place_at (x ∷ y ∷ rest) (urandom_range c.rand (length (x ∷ y ∷ rest) - 1) 0)
choose-random_at c m locks xs x y rest em exs free =
    rw (em, exs) (choose-random c locks x y rest (subst (IsFree locks) exs free))

-- With two requests or more that may go, a random arbitration always chooses one of them, but never the
-- first of them, whatever `rand` gives.
pub random_skips_first :
    (c : Chooser) (s : Sequencer) (x y : ℕ × Request) (rest : List (ℕ × Request))
    → s.arbitration ≡ random
    → available
        (Sequencer.lock_list (grant_queued_locks s))
        0
        (Sequencer.arb_sequence_q (grant_queued_locks s))
      ≡ x ∷ y ∷ rest
    → (k : ℕ) × (a : ℕ × Request) × (0 < k)
      × (get_elem? (x ∷ y ∷ rest) k ≡ some a)
      × ((m_choose_next_request c s).1 ≡ some (a.0))
unfolding m_choose_next_request grant_queued_locks
random_skips_first c s x y rest mode e =
    let k = urandom_range c.rand (length (x ∷ y ∷ rest) - 1) 0 in
    let (low, high) = urandom_range-bounds c.rand (length (x ∷ y ∷ rest) - 1) (omega arith) in
    let (a, hit) = get_elem?-inside (x ∷ y ∷ rest) k (omega (arith, high)) in
    (
      k,
      a,
      low,
      hit,
      choose-random_at c s.arbitration _ _ x y rest mode e (available-IsFree _ 0 _)
          ∙ place_at-hit (x ∷ y ∷ rest) k a hit,
    )
