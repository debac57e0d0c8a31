-- ===== src/Sequencer/Served.antt =====
-- A sequencer with the arbitration FIFO (src/uvmsc/seq/uvm_sequencer_base.cpp) while sequences request,
-- exit, give locks back and collect their grants, and the driver selects.
use uvm_systemc.Common.{
  ℕ, suc, ◌+◌, ◌≡◌, refl, ap, ◌∙◌, Bool, true, false, not, ◌&&◌, ◌||◌, Option, none, some, List, [],
  ◌∷◌, ◌++◌, ◌==◌, arith, Bool-cases, inl, inr, ◌⊎◌, All, length, get_elem?, if_true, if_false,
}
use uvm_systemc.Sequencer.{
  Sequence, Request, Sequencer, Chooser, Arbitration, fifo, is_lock, is_blocked, is_available,
  available, first, choose, grant_locks, grant_queued_locks, m_unlock_req, m_choose_next_request,
}
use uvm_systemc.Sequencer.Service.{
  Selection, waits, grants, undefined, wait_for_grant, erase_at, grant_at, m_select_sequence,
  m_wait_for_arbitration_completed, goes_with, remove_sequence_from_queues,
}

-- What may happen between two selections, and a selection.
pub data Event : Type 0 where
  arrives : Sequence → Option ℕ → Event
  exits : Sequence → Event
  unlocks : Sequence → Event
  collects : ℕ → Event
  selects : Event

abbrev pub after_request : Option Sequencer → Sequencer → Sequencer
after_request none s = s
after_request (some t) s = t

abbrev pub granted_ids : Selection → List ℕ
granted_ids (grants id) = id ∷ []
granted_ids _ = []

-- The state after an event, and the requests that it grants.
unfoldable pub step : Chooser → Sequencer → Event → Sequencer × List ℕ
step c s (arrives sequence priority) =
    (after_request (wait_for_grant s sequence priority false) s, [])
step c s (exits sequence) = (remove_sequence_from_queues s sequence, [])
step c s (unlocks sequence) = (m_unlock_req s sequence, [])
step c s (collects id) = ((m_wait_for_arbitration_completed s id).0, [])
step c s selects = let (t, selection) = m_select_sequence c s in (t, granted_ids selection)

unfoldable pub run : Chooser → Sequencer → List Event → Sequencer × List ℕ
unfolding step
run c s [] = (s, [])
run c s (e ∷ es) = let (t, ids) = step c s e in let (last, more) = run c t es in (last, ids ++ more)

abbrev pub selections : List Event → ℕ
selections [] = 0
selections (selects ∷ es) = suc (selections es)
selections (_ ∷ es) = selections es

abbrev pub granted : ℕ → List ℕ → Bool
granted id [] = false
granted id (j ∷ js) = (j == id) || granted id js

-- The sequence of a request does not exit, and no sequence above it.
abbrev pub Spares : Request → Event → Type 0
Spares r (exits sequence) = goes_with sequence r.sequence ≡ false
Spares r _ = Unit

-- The queue holds no request for a lock.
abbrev pub NoLocks : List Request → Type 0
NoLocks rs = All (λ r. is_lock r ≡ false) rs

grant_locks_none :
    (rs : List Request) (locks : List Sequence) (done : List ℕ)
    → NoLocks rs
    → grant_locks rs locks done ≡ (rs, locks, done)
unfolding grant_locks
grant_locks_none [] locks done h = refl
grant_locks_none (r ∷ rs) locks done h =
    if_false _ _ _ (unlocked h.0)
    ∙ ap (λ (g : List Request × List Sequence × List ℕ). (r ∷ g.0, g.1, g.2))
        (grant_locks_none rs locks done h.1)
  where
    unlocked : is_lock r ≡ false → (is_lock r && not (is_blocked locks r.sequence)) ≡ false
    unlocked e = ground arith

grant_queued_locks_none : (s : Sequencer) → NoLocks s.arb_sequence_q → grant_queued_locks s ≡ s
unfolding grant_queued_locks
grant_queued_locks_none s h =
    ap
      (λ (g : List Request × List Sequence × List ℕ). record s {
        arb_sequence_q = g.0;
        lock_list = g.1;
        arb_completed = g.2;
      })
      (grant_locks_none s.arb_sequence_q s.lock_list s.arb_completed h)

-- The first request that may go, its place, and the queue without it.
pub data Picks (locks : List Sequence) : List Request → ℕ → Request → List Request → Type 0 where
  here :
      {x : Request} {rs : List Request} → is_available locks x ≡ true → Picks locks (x ∷ rs) 0 x rs
  there :
      {x y : Request} {i : ℕ} {rs rest : List Request}
      → is_available locks y ≡ false
      → Picks locks rs i x rest
      → Picks locks (y ∷ rs) (suc i) x (y ∷ rest)

module _ {locks : List Sequence} where
  Picks-first :
      {q rest : List Request} {i : ℕ} {x : Request}
      → Picks locks q i x rest
      → (n : ℕ) → first (available locks n q) ≡ some (n + i)
  unfolding available
  Picks-first (here free) n = ap first (if_true _ _ _ free) ∙ ap some (omega arith)
  Picks-first (there busy later) n =
      ap first (if_false _ _ _ busy) ∙ Picks-first later (suc n) ∙ ap some (omega arith)

  Picks-get_elem? :
      {q rest : List Request} {i : ℕ} {x : Request}
      → Picks locks q i x rest
      → get_elem? q i ≡ some x
  Picks-get_elem? (here free) = refl
  Picks-get_elem? (there busy later) = Picks-get_elem? later

  Picks-erase_at :
      {q rest : List Request} {i : ℕ} {x : Request} → Picks locks q i x rest → erase_at i q ≡ rest
  unfolding erase_at
  Picks-erase_at (here free) = refl
  Picks-erase_at (there {y = y} busy later) = ap (λ rs. y ∷ rs) (Picks-erase_at later)

  pub Picks-All :
      (P : Request → Type 0) {q rest : List Request} {i : ℕ} {x : Request}
      → Picks locks q i x rest
      → All P q
      → All P rest
  Picks-All P (here free) h = h.1
  Picks-All P (there busy later) h = (h.0, Picks-All P later h.1)

  -- With a request that may go, one is picked: it, or one before it.
  pub Picks-exists :
      (before : List Request) (r : Request) (after : List Request)
      → is_available locks r ≡ true
      → (i : ℕ) × (x : Request) × (rest : List Request) × Picks locks (before ++ r ∷ after) i x rest
        × ((x ≡ r)
            ⊎ ((b : List Request) × (rest ≡ b ++ r ∷ after) × (suc (length b) ≡ length before)))
  Picks-exists [] r after free = (0, r, after, here free, inl refl)
  Picks-exists (y ∷ before) r after free = elim (Bool-cases (is_available locks y)) [
    | inl go ↦ (0, y, before ++ r ∷ after, here go, inr (before, refl, refl))
    | inr stay ↦ extend stay (Picks-exists before r after free)
  ]
    where
      Goal : List Request → List Request → Type 0
      Goal q ahead =
          (i : ℕ) × (x : Request) × (rest : List Request) × Picks locks q i x rest
          × ((x ≡ r)
              ⊎ ((b : List Request) × (rest ≡ b ++ r ∷ after) × (suc (length b) ≡ length ahead)))

      extend :
          is_available locks y ≡ false
          → Goal (before ++ r ∷ after) before
          → Goal (y ∷ before ++ r ∷ after) (y ∷ before)
      extend stay (i, x, rest, picks, inl e) = (suc i, x, y ∷ rest, there stay picks, inl e)
      extend stay (i, x, rest, picks, inr (b, e, l)) =
          (suc i, x, y ∷ rest, there stay picks, inr (y ∷ b, ap (λ rs. y ∷ rs) e, ap suc l))

-- What a selection does in FIFO, with the request that is picked.
pub select_picked :
    (c : Chooser) (s : Sequencer) {i : ℕ} {x : Request} {rest : List Request}
    → s.arbitration ≡ fifo
    → NoLocks s.arb_sequence_q
    → Picks s.lock_list s.arb_sequence_q i x rest
    → m_select_sequence c s ≡ (
      record s { arb_completed = x.request_id ∷ s.arb_completed; arb_sequence_q = rest },
      grants x.request_id,
    )
unfolding m_select_sequence m_choose_next_request choose grant_at
select_picked c s {i} {x} {rest} in_fifo free picks =
    ap (λ (p : Sequencer × Option ℕ). elim p.1 [ none ↦ (p.0, waits) | some j ↦ grant_at p.0 j ])
      chosen
    ∙ ap
        (λ (o : Option Request). elim o [
          | none ↦ (s, undefined)
          | some r ↦ (given r (erase_at i s.arb_sequence_q), grants r.request_id)
        ])
        (Picks-get_elem? picks)
    ∙ ap (λ q. (given x q, grants x.request_id)) (Picks-erase_at picks)
  where
    given : Request → List Request → Sequencer
    given r q = record s { arb_completed = r.request_id ∷ s.arb_completed; arb_sequence_q = q }

    from_zero : 0 + i ≡ i
    from_zero = omega arith

    chosen : m_choose_next_request c s ≡ (s, some i)
    chosen =
        ap
          (λ (t : Sequencer).
            (t, choose c t.arbitration t.lock_list (available t.lock_list 0 t.arb_sequence_q)))
          (grant_queued_locks_none s free)
        ∙ ap
            (λ (a : Arbitration).
              (s, choose c a s.lock_list (available s.lock_list 0 s.arb_sequence_q)))
            in_fifo
        ∙ ap (λ o. (s, o)) (Picks-first picks 0 ∙ ap some from_zero)
