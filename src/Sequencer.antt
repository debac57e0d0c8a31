-- ===== src/Sequencer.antt =====
-- Arbitration of a sequencer: src/uvmsc/seq/uvm_sequencer_base.cpp. A sequence is the chain of its
-- parents; a priority is not negative, and the item priority -1 is `none`. Reports are left out, and so
-- are the waits and events of the processes and the parts of a request that only they read.
pub mod Locks
pub mod Choice
pub mod Randomness
pub mod Priority
pub mod Service
pub mod Served
pub mod Fairness
pub mod Serving
mod Samples
use uvm_systemc.Common.{
  ℕ, zero, suc, ◌+◌, ◌-◌, ◌%◌, ◌^◌, Bool, true, false, not, ◌&&◌, ◌||◌, Option, none, some, List,
  [], ◌∷◌, ◌++◌, ◌==◌, ltb, if◌then◌else◌, length, get_elem?,
}

pub record Info : Type 0 where
  pub inst_id : ℕ
  pub priority : ℕ
  pub is_relevant : Bool

-- A sequence with no parent sequence, or with one.
pub data Sequence : Type 0 where
  top_sequence : Info → Sequence
  child_of : Sequence → Info → Sequence

abbrev pub info : Sequence → Info
info (top_sequence i) = i
info (child_of p i) = i

abbrev pub get_inst_id : Sequence → ℕ
get_inst_id s = Info.inst_id (info s)

unfoldable pub is_child : Sequence → Sequence → Bool
is_child parent (top_sequence i) = false
is_child parent (child_of p i) =
    let further = is_child parent p in if get_inst_id p == get_inst_id parent then true else further

-- `seq_req_t`
pub data RequestKind : Type 0 where
  seq_type_req seq_type_lock seq_type_grab : RequestKind

pub record Request : Type 0 where
  pub request_id : ℕ
  pub request : RequestKind
  pub sequence : Sequence
  pub item_priority : Option ℕ

-- `SEQ_ARB_TYPE`
pub data Arbitration : Type 0 where
  fifo weighted random strict_fifo strict_random user : Arbitration

-- `arb_completed` lists the requests that are marked in the map of that name, `next_request_id` is the
-- static `g_request_id`.
pub record Sequencer : Type 0 where
  pub arbitration : Arbitration
  pub arb_sequence_q : List Request
  pub lock_list : List Sequence
  pub arb_completed : List ℕ
  pub next_request_id : ℕ

-- The number that `rand` gives, and the arbitration of the user.
pub record Chooser : Type 0 where
  pub rand : ℕ
  pub user_priority_arbitration : List ℕ → ℕ

-- Called with `max` at least `min`, so nothing wraps.
unfoldable pub urandom_range : ℕ → ℕ → ℕ → ℕ
urandom_range rand max min = if min == max then min else rand % (max - min) + min + 1

abbrev pub blocks : Sequence → Sequence → Bool
blocks l s = not (get_inst_id l == get_inst_id s) && not (is_child l s)

-- `is_blocked`, on the list of locks.
unfoldable pub is_blocked : List Sequence → Sequence → Bool
is_blocked [] s = false
is_blocked (l ∷ ls) s = if blocks l s then true else is_blocked ls s

unfoldable pub has_lock : List Sequence → Sequence → Bool
has_lock [] s = false
has_lock (l ∷ ls) s = if get_inst_id l == get_inst_id s then true else has_lock ls s

unfoldable pub m_get_seq_item_priority : Request → ℕ
m_get_seq_item_priority r = elim r.item_priority [
  | none ↦ Info.priority (info r.sequence)
  | some p ↦ p
]

abbrev pub is_lock : Request → Bool
is_lock r = elim r.request [ seq_type_req ↦ false | seq_type_lock ↦ true | seq_type_grab ↦ false ]

abbrev pub is_req : Request → Bool
is_req r = elim r.request [ seq_type_req ↦ true | seq_type_lock ↦ false | seq_type_grab ↦ false ]

-- The loops of `grant_queued_locks`: the requests that stay, the locks, and the completed requests.
unfoldable pub grant_locks :
    List Request → List Sequence → List ℕ → List Request × List Sequence × List ℕ
grant_locks [] locks done = ([], locks, done)
grant_locks (r ∷ rs) locks done =
    let granted = grant_locks rs (locks ++ r.sequence ∷ []) (r.request_id ∷ done) in
    let (rs', locks', done') = grant_locks rs locks done in
    if is_lock r && not (is_blocked locks r.sequence) then granted else (r ∷ rs', locks', done')

unfoldable pub grant_queued_locks : Sequencer → Sequencer
unfolding grant_locks
grant_queued_locks s =
    let (rs, locks, done) = grant_locks s.arb_sequence_q s.lock_list s.arb_completed in
    record s { arb_sequence_q = rs; lock_list = locks; arb_completed = done }

-- `m_lock_req` up to its wait; `lock` is false for a grab.
unfoldable pub m_lock_req : Sequencer → Sequence → Bool → Sequencer
m_lock_req s sequence lock =
    let r : Request = record {
      request_id = s.next_request_id;
      request = seq_type_lock;
      sequence = sequence;
      item_priority = none;
    } in
    grant_queued_locks (record s {
      arb_sequence_q = if lock then s.arb_sequence_q ++ r ∷ [] else r ∷ s.arb_sequence_q;
      next_request_id = suc s.next_request_id;
    })

unfoldable pub remove_lock : Sequence → List Sequence → List Sequence
remove_lock s [] = []
remove_lock s (l ∷ ls) = if get_inst_id l == get_inst_id s then ls else l ∷ remove_lock s ls

unfoldable pub m_unlock_req : Sequencer → Sequence → Sequencer
m_unlock_req s sequence = record s { lock_list = remove_lock sequence s.lock_list }

-- May the request be chosen? The first test of `m_choose_next_request`.
unfoldable pub is_available : List Sequence → Request → Bool
is_available locks r =
    is_req r && (not (is_blocked locks r.sequence) && Info.is_relevant (info r.sequence))

-- The requests that may be chosen, each with its place in the queue.
unfoldable pub available : List Sequence → ℕ → List Request → List (ℕ × Request)
available locks i [] = []
available locks i (r ∷ rs) =
    let rest = available locks (suc i) rs in if is_available locks r then (i, r) ∷ rest else rest

abbrev pub first : List (ℕ × Request) → Option ℕ
first [] = none
first ((i, r) ∷ rs) = some i

-- The second check of the locks, made if there are any.
unfoldable pub still_free : List Sequence → List (ℕ × Request) → List (ℕ × Request)
still_free locks [] = []
still_free locks (a ∷ rest) =
    let kept = still_free locks rest in
    if is_blocked locks (Request.sequence a.1) then kept else a ∷ kept

abbrev pub recheck : List Sequence → List (ℕ × Request) → List (ℕ × Request)
recheck [] xs = xs
recheck (l ∷ ls) xs = still_free (l ∷ ls) xs

unfoldable pub sum_priority : List (ℕ × Request) → ℕ
sum_priority [] = 0
sum_priority (a ∷ rest) = m_get_seq_item_priority a.1 + sum_priority rest

-- The weighted choice, from the sum of the priorities passed; `none` is the fatal error after it.
unfoldable pub by_weight : ℕ → ℕ → List (ℕ × Request) → Option ℕ
by_weight temp sum [] = none
by_weight temp sum (a ∷ rest) =
    if ltb temp (m_get_seq_item_priority a.1 + sum)
    then some a.0
    else by_weight temp (sum + m_get_seq_item_priority a.1) rest

-- The list of those with the highest priority, from that found so far.
unfoldable pub highest : ℕ → List (ℕ × Request) → List (ℕ × Request) → List (ℕ × Request)
highest pri found [] = found
highest pri found (a ∷ rest) =
    if ltb pri (m_get_seq_item_priority a.1)
    then highest (m_get_seq_item_priority a.1) (a ∷ []) rest
    else highest pri (if m_get_seq_item_priority a.1 == pri then found ++ a ∷ [] else found) rest

-- An index out of range is `none`.
abbrev pub place_at : List (ℕ × Request) → ℕ → Option ℕ
place_at xs i = elim (get_elem? xs i) [ none ↦ none | some a ↦ some (a.0) ]

abbrev pub indices : List (ℕ × Request) → List ℕ
indices [] = []
indices (a ∷ rest) = a.0 ∷ indices rest

-- The choice among several requests.
unfoldable pub choose_among : Chooser → Arbitration → List (ℕ × Request) → Option ℕ
choose_among c fifo xs = none
choose_among c weighted xs =
    by_weight (urandom_range c.rand ((sum_priority xs + 2 ^ 32 - 1) % 2 ^ 32) 0) 0 xs
choose_among c random xs = place_at xs (urandom_range c.rand (length xs - 1) 0)
choose_among c strict_fifo xs = first (highest 0 [] xs)
choose_among c strict_random xs =
    let best = highest 0 [] xs in place_at best (urandom_range c.rand (length best - 1) 0)
choose_among c user xs = some (c.user_priority_arbitration (indices xs))

abbrev pub choose_several : Chooser → Arbitration → List (ℕ × Request) → Option ℕ
choose_several c a [] = none
choose_several c a (x ∷ []) = some (x.0)
choose_several c a (x ∷ y ∷ rest) = choose_among c a (x ∷ y ∷ rest)

-- The return for one request comes before the second check.
abbrev pub choose_later : Chooser → Arbitration → List Sequence → List (ℕ × Request) → Option ℕ
choose_later c a locks [] = none
choose_later c a locks (x ∷ []) = some (x.0)
choose_later c a locks (x ∷ y ∷ rest) = choose_several c a (recheck locks (x ∷ y ∷ rest))

-- The choice from the available requests. FIFO takes the first at once.
unfoldable pub choose : Chooser → Arbitration → List Sequence → List (ℕ × Request) → Option ℕ
choose c fifo locks xs = first xs
choose c a locks xs = choose_later c a locks xs

-- `m_choose_next_request`: the place of a request in the queue, `none` for -1.
unfoldable pub m_choose_next_request : Chooser → Sequencer → Sequencer × Option ℕ
m_choose_next_request c s =
    let t = grant_queued_locks s in
    (t, choose c t.arbitration t.lock_list (available t.lock_list 0 t.arb_sequence_q))
