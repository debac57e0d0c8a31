-- ===== src/Sequencer/Fairness.antt =====
-- A request that waits in a sequencer with the arbitration FIFO (src/uvmsc/seq/uvm_sequencer_base.cpp).
use mathlib.Core.List.{append_assoc}
use uvm_systemc.Common.{
  ℕ, suc, ◌≤◌, ◌≡◌, refl, ap, ◌∙◌, sym, subst, ==_iff, true, false, Option, List, [], ◌∷◌, ◌++◌,
  arith, Bool-cases, inl, inr, ◌⊎◌, All, All-append, length, if_false, if_ind,
}
use uvm_systemc.Sequencer.{
  Sequence, Request, Sequencer, Chooser, seq_type_req, fifo, is_lock, is_blocked, blocks,
  is_available, remove_lock, m_unlock_req,
}
use uvm_systemc.Sequencer.Locks.{remove_lock-All}
use uvm_systemc.Sequencer.Service.{
  Selection, wait_for_grant, m_select_sequence, m_wait_for_arbitration_completed, goes_with,
  without_requests, without_locks, remove_sequence_from_queues,
}
use uvm_systemc.Sequencer.Served.{
  granted, granted_ids, NoLocks, after_request, Picks, Picks-All, Picks-exists, select_picked,
}

-- What the argument goes by: the request waits behind `before`.
pub record Waits (r : Request) (before after : List Request) (s : Sequencer) : Type 0 where
  pub in_fifo : s.arbitration ≡ fifo
  pub queue : s.arb_sequence_q ≡ before ++ r ∷ after
  pub no_locks : NoLocks (before ++ r ∷ after)
  pub may_go : is_available s.lock_list r ≡ true

-- Fewer locks block no more.
abbrev FreeOf : Sequence → List Sequence → Type 0
FreeOf t ls = All (λ l. blocks l t ≡ false) ls

is_blocked-FreeOf : (ls : List Sequence) (t : Sequence) → is_blocked ls t ≡ false → FreeOf t ls
unfolding is_blocked
is_blocked-FreeOf [] t h = tt
is_blocked-FreeOf (l ∷ ls) t h = elim (Bool-cases (blocks l t)) [
  | inl e ↦ absurd (ground arith)
  | inr e ↦ (e, is_blocked-FreeOf ls t (ground arith))
]

FreeOf-is_blocked : (ls : List Sequence) (t : Sequence) → FreeOf t ls → is_blocked ls t ≡ false
unfolding is_blocked
FreeOf-is_blocked [] t h = refl
FreeOf-is_blocked (l ∷ ls) t h = if_false _ _ _ h.0 ∙ FreeOf-is_blocked ls t h.1

without_locks-All :
    (P : Sequence → Type 0) (s : Sequence) (ls : List Sequence)
    → All P ls
    → All P (without_locks s ls)
unfolding without_locks
without_locks-All P s [] h = tt
without_locks-All P s (l ∷ ls) h =
    if_ind (All P) (goes_with s l) (without_locks-All P s ls h.1)
      (h.0, without_locks-All P s ls h.1)

still_available :
    (ls ls' : List Sequence) (r : Request)
    → (FreeOf r.sequence ls → FreeOf r.sequence ls')
    → is_available ls r ≡ true
    → is_available ls' r ≡ true
unfolding is_available
still_available ls ls' r fewer h = ground (
  arith,
  FreeOf-is_blocked ls' r.sequence (fewer (is_blocked-FreeOf ls r.sequence (ground arith))),
)

without_requests-All :
    (P : Request → Type 0) (s : Sequence) (rs : List Request)
    → All P rs
    → All P (without_requests s rs)
unfolding without_requests
without_requests-All P s [] h = tt
without_requests-All P s (r ∷ rs) h =
    if_ind (All P) (goes_with s r.sequence) (without_requests-All P s rs h.1)
      (h.0, without_requests-All P s rs h.1)

without_requests-append :
    (s : Sequence) (before : List Request) (r : Request) (after : List Request)
    → goes_with s r.sequence ≡ false
    → without_requests s (before ++ r ∷ after)
      ≡ without_requests s before ++ r ∷ without_requests s after
unfolding without_requests
without_requests-append s [] r after h = if_false _ _ _ h
without_requests-append s (x ∷ before) r after h = elim (Bool-cases (goes_with s x.sequence)) [
  | inl e ↦ rw e (without_requests-append s before r after h)
  | inr e ↦ rw e (ap (λ rs. x ∷ rs) (without_requests-append s before r after h))
]

pub length-without_requests :
    (s : Sequence) (rs : List Request) → length (without_requests s rs) ≤ length rs
unfolding without_requests
length-without_requests s [] = omega arith
length-without_requests s (r ∷ rs) = elim (Bool-cases (goes_with s r.sequence)) [
  | inl e ↦ rw e (omega (arith, length-without_requests s rs))
  | inr e ↦ rw e (omega (arith, length-without_requests s rs))
]

module _ (r : Request) where
  -- An event that is no selection leaves the request waiting, behind no more requests than before.
  pub arrives-Waits :
      (s : Sequencer) (before after : List Request) (sequence : Sequence) (priority : Option ℕ)
      → Waits r before after s
      → (after' : List Request) × Waits r before after'
          (after_request (wait_for_grant s sequence priority false) s)
  unfolding wait_for_grant
  arrives-Waits s before after sequence priority w = (
    after ++ new ∷ [],
    record {
      in_fifo = w.in_fifo;
      queue = ap (λ q. q ++ new ∷ []) w.queue ∙ shifted;
      no_locks = subst NoLocks shifted (
          All-append (λ x. is_lock x ≡ false) (before ++ r ∷ after) (new ∷ []) w.no_locks
            (refl, tt));
      may_go = w.may_go;
    },
  )
    where
      new : Request
      new = record {
        request_id = s.next_request_id;
        request = seq_type_req;
        sequence = sequence;
        item_priority = priority;
      }

      shifted : (before ++ r ∷ after) ++ new ∷ [] ≡ before ++ r ∷ (after ++ new ∷ [])
      shifted = append_assoc before (r ∷ after) (new ∷ [])

  pub exits-Waits :
      (s : Sequencer) (before after : List Request) (sequence : Sequence)
      → goes_with sequence r.sequence ≡ false
      → Waits r before after s
      → Waits r
          (without_requests sequence before)
          (without_requests sequence after)
          (remove_sequence_from_queues s sequence)
  unfolding remove_sequence_from_queues
  exits-Waits s before after sequence spared w = record {
    in_fifo = w.in_fifo;
    queue = ap (without_requests sequence) w.queue ∙ split;
    no_locks =
        subst NoLocks split
          (without_requests-All (λ x. is_lock x ≡ false) sequence (before ++ r ∷ after) w.no_locks);
    may_go =
        still_available s.lock_list (without_locks sequence s.lock_list) r
          (without_locks-All (λ l. blocks l r.sequence ≡ false) sequence s.lock_list) w.may_go;
  }
    where
      split :
          without_requests sequence (before ++ r ∷ after)
          ≡ without_requests sequence before ++ r ∷ without_requests sequence after
      split = without_requests-append sequence before r after spared

  pub unlocks-Waits :
      (s : Sequencer) (before after : List Request) (sequence : Sequence)
      → Waits r before after s
      → Waits r before after (m_unlock_req s sequence)
  unfolding m_unlock_req
  unlocks-Waits s before after sequence w = record {
    in_fifo = w.in_fifo;
    queue = w.queue;
    no_locks = w.no_locks;
    may_go =
        still_available s.lock_list (remove_lock sequence s.lock_list) r
          (remove_lock-All (λ l. blocks l r.sequence ≡ false) sequence s.lock_list) w.may_go;
  }

  pub collects-Waits :
      (s : Sequencer) (before after : List Request) (id : ℕ)
      → Waits r before after s
      → Waits r before after (m_wait_for_arbitration_completed s id).0
  unfolding m_wait_for_arbitration_completed
  collects-Waits s before after id w = record {
    in_fifo = w.in_fifo;
    queue = w.queue;
    no_locks = w.no_locks;
    may_go = w.may_go;
  }

  -- A selection grants the request, or one that was before it.
  pub selects-Waits :
      (c : Chooser) (s : Sequencer) (before after : List Request)
      → Waits r before after s
      → (granted r.request_id (granted_ids (m_select_sequence c s).1) ≡ true)
        ⊎ ((b : List Request) × Waits r b after (m_select_sequence c s).0
            × (suc (length b) ≡ length before))
  selects-Waits c s before after w = from_pick (Picks-exists before r after w.may_go)
    where
      Goal : Sequencer × Selection → Type 0
      Goal p =
          (granted r.request_id (granted_ids p.1) ≡ true)
          ⊎ ((b : List Request) × Waits r b after p.0 × (suc (length b) ≡ length before))

      same_id : (id : ℕ) → id ≡ r.request_id → granted r.request_id (id ∷ []) ≡ true
      same_id id e = ground (arith, (==_iff id r.request_id).1 e)

      from_pick :
          ((i : ℕ) × (x : Request) × (rest : List Request) × Picks s.lock_list
              (before ++ r ∷ after)
              i
              x
              rest
            × ((x ≡ r)
                ⊎ ((b : List Request) × (rest ≡ b ++ r ∷ after)
                    × (suc (length b) ≡ length before))))
          → Goal (m_select_sequence c s)
      from_pick (i, x, rest, picks, which) =
          subst Goal
            (sym (
              select_picked c s w.in_fifo (subst NoLocks (sym w.queue) w.no_locks)
                (subst (λ q. Picks s.lock_list q i x rest) (sym w.queue) picks)))
            (elim which [
              | inl e ↦ inl (same_id x.request_id (ap (λ (t : Request). t.request_id) e))
              | inr later ↦ inr (
                later.0,
                record {
                  in_fifo = w.in_fifo;
                  queue = later.1;
                  no_locks =
                      subst NoLocks later.1 (Picks-All (λ t. is_lock t ≡ false) picks w.no_locks);
                  may_go = w.may_go;
                },
                later.2,
              )
            ])
