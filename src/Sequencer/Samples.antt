-- ===== src/Sequencer/Samples.antt =====
-- The properties of the arbitration on a sequence, its child and a stranger.
use uvm_systemc.Common.{ℕ, ◌≡◌, refl, true, false, none, some, List, [], ◌∷◌, ◌≢◌}
use uvm_systemc.Sequencer.{
  Info, Sequence, top_sequence, child_of, Request, RequestKind, seq_type_req, seq_type_lock,
  Sequencer, Chooser, Arbitration, fifo, random, strict_fifo, user, is_child, is_blocked,
  grant_queued_locks, m_lock_req, m_unlock_req, is_available, available, choose, highest,
  m_get_seq_item_priority, choose_among, still_free, m_choose_next_request,
}
use uvm_systemc.Sequencer.Locks.{IsChain, IsSettled, locks-IsChain, grant_queued_locks-IsSettled}
use uvm_systemc.Sequencer.Choice.{MayGo, m_choose_next_request-MayGo}
use uvm_systemc.Sequencer.Priority.{IsHighest, strict_fifo-IsHighest}
use uvm_systemc.Sequencer.Service.{goes_with}
use uvm_systemc.Sequencer.Served.{arrives, exits, unlocks, selects, run, granted}
use uvm_systemc.Sequencer.Serving.{fifo_serves}
use native.Mathlib.Omega.{arith}

abbrev numbered : ℕ → Info
numbered n = record { inst_id = n; priority = 100; is_relevant = true }

abbrev elder : Sequence
elder = top_sequence (numbered 1)

abbrev younger : Sequence
younger = child_of elder (numbered 2)

abbrev stranger : Sequence
stranger = top_sequence (numbered 3)

abbrev asks : ℕ → RequestKind → Sequence → Request
asks n kind s = record { request_id = n; request = kind; sequence = s; item_priority = none }

abbrev chooser : Chooser
chooser = record { rand = 5; user_priority_arbitration = λ xs. 0 }

abbrev waiting : Arbitration → Sequencer
waiting mode = record {
  arbitration = mode;
  arb_sequence_q =
      asks 0 seq_type_lock elder
      ∷ asks 1 seq_type_lock younger
      ∷ asks 2 seq_type_lock stranger
      ∷ asks 3 seq_type_req stranger
      ∷ asks 4 seq_type_req younger
      ∷ asks 5 seq_type_req younger
      ∷ [];
  lock_list = elder ∷ [];
  arb_completed = [];
  next_request_id = 6;
}

locks-IsChain_example :
    IsChain (Sequencer.lock_list (grant_queued_locks (waiting fifo)))
    × IsChain (Sequencer.lock_list (m_lock_req (waiting fifo) younger false))
    × IsChain (Sequencer.lock_list (m_unlock_req (waiting fifo) younger))
locks-IsChain_example = locks-IsChain (waiting fifo) younger false (tt, tt)

grant_queued_locks-IsSettled_example :
    IsSettled
      (Sequencer.lock_list (grant_queued_locks (waiting fifo)))
      (Sequencer.arb_sequence_q (grant_queued_locks (waiting fifo)))
grant_queued_locks-IsSettled_example = grant_queued_locks-IsSettled (waiting fifo)

first_choice : (m_choose_next_request chooser (waiting fifo)).1 ≡ some 2
unfolding m_choose_next_request grant_queued_locks choose available is_available is_blocked is_child
first_choice = refl

fifo_own : fifo ≢ user
fifo_own e = cc

m_choose_next_request-MayGo_example :
    MayGo
      (Sequencer.lock_list (m_choose_next_request chooser (waiting fifo)).0)
      (Sequencer.arb_sequence_q (m_choose_next_request chooser (waiting fifo)).0)
      2
m_choose_next_request-MayGo_example =
    m_choose_next_request-MayGo chooser (waiting fifo) 2 fifo_own first_choice

abbrev two_free : List (ℕ × Request)
two_free = (2, asks 4 seq_type_req younger) ∷ (3, asks 5 seq_type_req younger) ∷ []

two_free_lem :
    available
      (Sequencer.lock_list (grant_queued_locks (waiting random)))
      0
      (Sequencer.arb_sequence_q (grant_queued_locks (waiting random)))
    ≡ two_free
unfolding grant_queued_locks available is_available is_blocked is_child
two_free_lem = refl

strict_choice : (m_choose_next_request chooser (waiting strict_fifo)).1 ≡ some 2
unfolding m_choose_next_request grant_queued_locks choose available is_available is_blocked is_child
    highest m_get_seq_item_priority choose_among still_free
strict_choice = refl

strict_fifo-IsHighest_example :
    IsHighest
      (Sequencer.arb_sequence_q (grant_queued_locks (waiting strict_fifo)))
      (available
        (Sequencer.lock_list (grant_queued_locks (waiting strict_fifo)))
        0
        (Sequencer.arb_sequence_q (grant_queued_locks (waiting strict_fifo))))
      2
strict_fifo-IsHighest_example =
    strict_fifo-IsHighest chooser (waiting strict_fifo) 2 refl strict_choice

abbrev unlocked : Sequencer
unlocked = record (waiting fifo) {
  arb_sequence_q = asks 3 seq_type_req stranger ∷ asks 4 seq_type_req younger ∷ [];
  lock_list = [];
}

goes_alone : is_available [] (asks 4 seq_type_req younger) ≡ true
unfolding is_available is_blocked
goes_alone = refl

stays : goes_with stranger younger ≡ false
unfolding is_child
stays = refl

-- The request of the child waits behind the stranger's, which exits while a newcomer arrives.
fifo_serves_example :
    granted 4
      (run chooser unlocked
        (arrives stranger (some 900) ∷ selects ∷ exits stranger ∷ unlocks elder ∷ selects ∷ [])).1
    ≡ true
fifo_serves_example =
    fifo_serves chooser unlocked
      (arrives stranger (some 900) ∷ selects ∷ exits stranger ∷ unlocks elder ∷ selects ∷ [])
      (asks 3 seq_type_req stranger ∷ []) (asks 4 seq_type_req younger) [] refl refl
      (refl, (refl, tt)) goes_alone (tt, (tt, (stays, (tt, (tt, tt))))) (omega arith)
