-- ===== src/Sequencer/Serving.antt =====
-- A request that waits is granted: selections of a sequencer with the arbitration FIFO
-- (src/uvmsc/seq/uvm_sequencer_base.cpp).
use uvm_systemc.Common.{
  ℕ, ◌<◌, ◌≡◌, true, List, [], ◌∷◌, ◌++◌, ◌==◌, arith, Bool-cases, inl, inr, All, length,
}
use uvm_systemc.Sequencer.{Request, Sequencer, Chooser, fifo, is_available}
use uvm_systemc.Sequencer.Service.{m_select_sequence}
use uvm_systemc.Sequencer.Served.{
  Event, arrives, exits, unlocks, collects, selects, step, run, selections, granted, granted_ids,
  Spares, NoLocks,
}
use uvm_systemc.Sequencer.Fairness.{
  arrives-Waits, exits-Waits, unlocks-Waits, collects-Waits, selects-Waits, Waits,
  length-without_requests,
}

granted-append_right :
    (id : ℕ) (js ks : List ℕ) → granted id ks ≡ true → granted id (js ++ ks) ≡ true
granted-append_right id [] ks h = h
granted-append_right id (j ∷ js) ks h = ground (arith, granted-append_right id js ks h)

granted-append_left :
    (id : ℕ) (js ks : List ℕ) → granted id js ≡ true → granted id (js ++ ks) ≡ true
granted-append_left id [] ks h = absurd (ground arith)
granted-append_left id (j ∷ js) ks h = elim (Bool-cases (j == id)) [
  | inl e ↦ ground arith
  | inr e ↦ ground (arith, granted-append_left id js ks (ground arith))
]

served :
    (c : Chooser) (es : List Event) (s : Sequencer) (r : Request) (before after : List Request)
    → Waits r before after s
    → All (Spares r) es
    → length before < selections es
    → granted r.request_id (run c s es).1 ≡ true
unfolding run step
served c [] s r before after w spared enough = absurd (omega arith)
served c (arrives sequence priority ∷ es) s r before after w spared enough =
    let next = arrives-Waits r s before after sequence priority w in
    served c es _ r before next.0 next.1 spared.1 enough
served c (exits sequence ∷ es) s r before after w spared enough =
    served c es _ r _ _ (exits-Waits r s before after sequence spared.0 w) spared.1
      (omega (arith, length-without_requests sequence before))
served c (unlocks sequence ∷ es) s r before after w spared enough =
    served c es _ r before after (unlocks-Waits r s before after sequence w) spared.1 enough
served c (collects id ∷ es) s r before after w spared enough =
    served c es _ r before after (collects-Waits r s before after id w) spared.1 enough
served c (selects ∷ es) s r before after w spared enough =
    elim (selects-Waits r c s before after w) [
      | inl now ↦
          granted-append_left r.request_id (granted_ids (m_select_sequence c s).1)
            (run c (m_select_sequence c s).0 es).1 now
      | inr later ↦
          granted-append_right r.request_id (granted_ids (m_select_sequence c s).1)
            (run c (m_select_sequence c s).0 es).1
            (served c es (m_select_sequence c s).0 r later.0 after later.1 spared.1
              (omega (arith, later.2)))
    ]

-- Under FIFO a request is served: if it stands in the queue behind `before`, its sequence is relevant and
-- not blocked, and no lock is requested, then it is granted by the time that one selection more has been
-- made than there are requests before it, whatever else happens in between: other requests arrive,
-- sequences exit, give locks back, and collect their grants. Its own sequence and those above it do not
-- exit.
pub fifo_serves :
    (c : Chooser) (s : Sequencer) (es : List Event) (before : List Request) (r : Request)
    (after : List Request)
    → s.arbitration ≡ fifo
    → s.arb_sequence_q ≡ before ++ r ∷ after
    → NoLocks (before ++ r ∷ after)
    → is_available s.lock_list r ≡ true
    → All (Spares r) es
    → length before < selections es
    → granted r.request_id (run c s es).1 ≡ true
fifo_serves c s es before r after in_fifo queue no_locks may_go spared enough =
    served c es s r before after
      (record { in_fifo = in_fifo; queue = queue; no_locks = no_locks; may_go = may_go }) spared
      enough
