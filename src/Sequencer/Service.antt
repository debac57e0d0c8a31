-- ===== src/Sequencer/Service.antt =====
-- How a request of a sequence enters the queue and leaves it: wait_for_grant, m_select_sequence,
-- m_wait_for_arbitration_completed and remove_sequence_from_queues of
-- src/uvmsc/seq/uvm_sequencer_base.cpp. A sequence is known by its instance, which stands for the
-- identifier that it has with the sequencer once it is registered.
use uvm_systemc.Common.{
  ℕ, zero, suc, Bool, true, false, ◌||◌, Option, none, some, List, [], ◌∷◌, ◌++◌, ◌==◌,
  if◌then◌else◌, get_elem?,
}
use uvm_systemc.Sequencer.{
  Sequence, Request, Sequencer, Chooser, seq_type_req, get_inst_id, is_child, m_choose_next_request,
}

-- `wait_for_grant` up to its wait. With a request for a lock, the queue is left with a pointer to a
-- request that has been freed: the state after that is `none`.
unfoldable pub wait_for_grant : Sequencer → Sequence → Option ℕ → Bool → Option Sequencer
wait_for_grant s sequence item_priority true = none
wait_for_grant s sequence item_priority false =
    let r : Request = record {
      request_id = s.next_request_id;
      request = seq_type_req;
      sequence = sequence;
      item_priority = item_priority;
    } in
    some record s {
      arb_sequence_q = s.arb_sequence_q ++ r ∷ [];
      next_request_id = suc s.next_request_id;
    }

-- `arb_sequence_q.erase(arb_sequence_q.begin() + i)`
unfoldable pub erase_at : ℕ → List Request → List Request
erase_at i [] = []
erase_at zero (r ∷ rs) = rs
erase_at (suc i) (r ∷ rs) = r ∷ erase_at i rs

-- What one round of the loop of `m_select_sequence` comes to: it waits for a change, or grants a
-- request. An index that is not in the queue, which a user's arbitration may return, is undefined.
pub data Selection : Type 0 where
  waits undefined : Selection
  grants : ℕ → Selection

-- `m_set_arbitration_completed` and the erasure.
unfoldable pub grant_at : Sequencer → ℕ → Sequencer × Selection
unfolding erase_at
grant_at s i = elim (get_elem? s.arb_sequence_q i) [
  | none ↦ (s, undefined)
  | some r ↦ (
    record s {
      arb_completed = r.request_id ∷ s.arb_completed;
      arb_sequence_q = erase_at i s.arb_sequence_q;
    },
    grants r.request_id,
  )
]

unfoldable pub m_select_sequence : Chooser → Sequencer → Sequencer × Selection
unfolding grant_at
m_select_sequence c s =
    let (t, selected) = m_choose_next_request c s in
    elim selected [ none ↦ (t, waits) | some i ↦ grant_at t i ]

unfoldable pub take_completed : ℕ → List ℕ → List ℕ × Bool
take_completed id [] = ([], false)
take_completed id (j ∷ js) =
    let (rest, found) = take_completed id js in if j == id then (rest, true) else (j ∷ rest, found)

-- One check of `m_wait_for_arbitration_completed`: whether the wait is over.
unfoldable pub m_wait_for_arbitration_completed : Sequencer → ℕ → Sequencer × Bool
unfolding take_completed
m_wait_for_arbitration_completed s id =
    let (rest, found) = take_completed id s.arb_completed in
    (record s { arb_completed = rest }, found)

-- The sequence itself, or one below it.
abbrev pub goes_with : Sequence → Sequence → Bool
goes_with sequence t = (get_inst_id t == get_inst_id sequence) || is_child sequence t

-- The two loops of `remove_sequence_from_queues`.
unfoldable pub without_requests : Sequence → List Request → List Request
without_requests sequence [] = []
without_requests sequence (r ∷ rs) =
    let rest = without_requests sequence rs in
    if goes_with sequence r.sequence then rest else r ∷ rest

unfoldable pub without_locks : Sequence → List Sequence → List Sequence
without_locks sequence [] = []
without_locks sequence (l ∷ ls) =
    let rest = without_locks sequence ls in if goes_with sequence l then rest else l ∷ rest

unfoldable pub remove_sequence_from_queues : Sequencer → Sequence → Sequencer
unfolding without_requests without_locks
remove_sequence_from_queues s sequence = record s {
  arb_sequence_q = without_requests sequence s.arb_sequence_q;
  lock_list = without_locks sequence s.lock_list;
}
