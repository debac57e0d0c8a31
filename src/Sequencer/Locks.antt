-- ===== src/Sequencer/Locks.antt =====
-- The locks of a sequencer: who may hold one beside others, and what granting does.
use uvm_systemc.Common.{
  ℕ, ◌≡◌, ◌⊎◌, ==_iff, Bool, true, false, not, ◌&&◌, List, [], ◌∷◌, ◌++◌, arith, ◌==◌, Bool-cases,
  inl, inr, All, All-append,
}
use uvm_systemc.Sequencer.{
  Sequence, Request, Sequencer, is_child, is_blocked, blocks, get_inst_id, is_lock, grant_locks,
  grant_queued_locks, m_lock_req, remove_lock, m_unlock_req,
}

-- Each holder is the same sequence as every earlier holder, or below it.
abbrev pub IsChain : List Sequence → Type 0
IsChain [] = Unit {0}
IsChain (l ∷ ls) = All (λ s. blocks l s ≡ false) ls × IsChain ls

is_blocked-append :
    (ls : List Sequence) (l s : Sequence)
    → is_blocked ls s ≡ true
    → is_blocked (ls ++ l ∷ []) s ≡ true
unfolding is_blocked
is_blocked-append [] l s e = cc
is_blocked-append (k ∷ ls) l s e = ground (arith, is_blocked-append ls l s)

IsChain-append :
    (ls : List Sequence) (s : Sequence)
    → is_blocked ls s ≡ false
    → IsChain ls
    → IsChain (ls ++ s ∷ [])
unfolding is_blocked
IsChain-append [] s e c = (tt, tt)
IsChain-append (l ∷ ls) s e c = (
  All-append (λ t. blocks l t ≡ false) ls (s ∷ []) c.0 (ground arith, tt),
  IsChain-append ls s (ground arith) c.1,
)

pub remove_lock-All :
    (P : Sequence → Type 0) (s : Sequence) (ls : List Sequence)
    → All P ls
    → All P (remove_lock s ls)
unfolding remove_lock
remove_lock-All P s [] a = tt
remove_lock-All P s (l ∷ ls) a = elim (Bool-cases (get_inst_id l == get_inst_id s)) [
  | inl hit ↦ rw hit a.1
  | inr miss ↦ rw miss (a.0, remove_lock-All P s ls a.1)
]

remove_lock-IsChain : (s : Sequence) (ls : List Sequence) → IsChain ls → IsChain (remove_lock s ls)
unfolding remove_lock
remove_lock-IsChain s [] c = tt
remove_lock-IsChain s (l ∷ ls) c = elim (Bool-cases (get_inst_id l == get_inst_id s)) [
  | inl hit ↦ rw hit c.1
  | inr miss ↦
      rw miss (remove_lock-All (λ t. blocks l t ≡ false) s ls c.0, remove_lock-IsChain s ls c.1)
]

grant_locks-IsChain :
    (rs : List Request) (locks : List Sequence) (done : List ℕ)
    → IsChain locks
    → IsChain (grant_locks rs locks done).1
unfolding grant_locks
grant_locks-IsChain [] locks done c = c
grant_locks-IsChain (r ∷ rs) locks done c =
    elim (Bool-cases (is_lock r && not (is_blocked locks r.sequence))) [
      | inl grant ↦ rw grant (
          grant_locks-IsChain rs (locks ++ r.sequence ∷ []) (r.request_id ∷ done)
            (IsChain-append locks r.sequence (ground arith) c))
      | inr keep ↦ rw keep (grant_locks-IsChain rs locks done c)
    ]

grant_queued_locks-IsChain :
    (s : Sequencer) → IsChain s.lock_list → IsChain (Sequencer.lock_list (grant_queued_locks s))
unfolding grant_queued_locks
grant_queued_locks-IsChain s c = grant_locks-IsChain s.arb_sequence_q s.lock_list s.arb_completed c

-- Granting the queued locks, a request for a lock or a grab, and an unlock keep the holders a chain: each
-- is the same sequence as every earlier holder, or a descendant of it.
pub locks-IsChain :
    (s : Sequencer) (sequence : Sequence) (lock : Bool)
    → IsChain s.lock_list
    → IsChain (Sequencer.lock_list (grant_queued_locks s))
      × IsChain (Sequencer.lock_list (m_lock_req s sequence lock))
      × IsChain (Sequencer.lock_list (m_unlock_req s sequence))
unfolding m_lock_req m_unlock_req
locks-IsChain s sequence lock c = (
  grant_queued_locks-IsChain s c,
  grant_queued_locks-IsChain _ c,
  remove_lock-IsChain sequence s.lock_list c,
)

-- The locks only grow.
still_blocked :
    (rs : List Request) (locks : List Sequence) (done : List ℕ) (s : Sequence)
    → is_blocked locks s ≡ true
    → is_blocked (grant_locks rs locks done).1 s ≡ true
unfolding grant_locks
still_blocked [] locks done s e = e
still_blocked (r ∷ rs) locks done s e =
    elim (Bool-cases (is_lock r && not (is_blocked locks r.sequence))) [
      | inl grant ↦ rw grant (
          still_blocked rs (locks ++ r.sequence ∷ []) (r.request_id ∷ done) s
            (is_blocked-append locks r.sequence s e))
      | inr keep ↦ rw keep (still_blocked rs locks done s e)
    ]

-- What is left of a queue: no lock that could be granted.
abbrev pub IsSettled : List Sequence → List Request → Type 0
IsSettled locks rs = All (λ r. (is_lock r && not (is_blocked locks r.sequence)) ≡ false) rs

grant_locks-IsSettled :
    (rs : List Request) (locks : List Sequence) (done : List ℕ)
    → IsSettled (grant_locks rs locks done).1 (grant_locks rs locks done).0
unfolding grant_locks
grant_locks-IsSettled [] locks done = tt
grant_locks-IsSettled (r ∷ rs) locks done =
    elim (Bool-cases (is_lock r && not (is_blocked locks r.sequence))) [
      | inl grant ↦
          rw grant (grant_locks-IsSettled rs (locks ++ r.sequence ∷ []) (r.request_id ∷ done))
      | inr keep ↦ rw keep (
        ground (arith, still_blocked rs locks done r.sequence),
        grant_locks-IsSettled rs locks done,
      )
    ]

-- Granting the queued locks grants every lock that no other lock blocks, wherever it stands in the queue:
-- each lock request that stays is blocked by the locks that are then held. So a lock does not wait for the
-- earlier requests of other kinds to complete, as the comment of uvm_sequence_base::lock says, nor for its
-- turn at the head of the queue, of which the comment in grant_queued_locks speaks.
pub grant_queued_locks-IsSettled :
    (s : Sequencer)
    → IsSettled
        (Sequencer.lock_list (grant_queued_locks s))
        (Sequencer.arb_sequence_q (grant_queued_locks s))
unfolding grant_queued_locks
grant_queued_locks-IsSettled s = grant_locks-IsSettled s.arb_sequence_q s.lock_list s.arb_completed

-- A lock lets its holder and the descendants of its holder go on.
abbrev pub Allows : Sequence → Sequence → Type 0
Allows l s = (get_inst_id l ≡ get_inst_id s) ⊎ (is_child l s ≡ true)

Allows-of_blocks : (l s : Sequence) → blocks l s ≡ false → Allows l s
Allows-of_blocks l s e = elim (Bool-cases (get_inst_id l == get_inst_id s)) [
  | inl same ↦ inl ((==_iff (get_inst_id l) (get_inst_id s)).0 same)
  | inr other ↦ inr (ground arith)
]

pub is_blocked-Allows :
    (ls : List Sequence) (s : Sequence) → is_blocked ls s ≡ false → All (λ l. Allows l s) ls
unfolding is_blocked
is_blocked-Allows [] s e = tt
is_blocked-Allows (l ∷ ls) s e =
    (Allows-of_blocks l s (ground arith), is_blocked-Allows ls s (ground arith))
