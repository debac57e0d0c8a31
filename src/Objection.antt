-- ===== src/Objection.antt =====
-- Objections: src/uvmsc/phasing/uvm_objection.cpp. One objection is modelled, with the static list of
-- scheduled drains that it shares with the others. Counts are numbers: an `int` count is taken as not
-- negative and below 2^31. The callbacks of components are recorded in `log`; what user code does in
-- them is left out, and so are trace messages, the wake-up of waiting processes and the reuse of context
-- objects.
pub mod Hierarchy
pub mod Draining
pub mod Ledger
pub mod Updates
pub mod Balance
pub mod Drop
pub mod Catch
pub mod Raise
pub mod Drains
pub mod Forks
pub mod Starts
pub mod Clearing
pub mod Reach
mod Samples
use uvm_systemc.Common.{
  ℕ, zero, suc, ◌+◌, ◌-◌, Bool, true, false, not, ◌&&◌, ◌||◌, Option, none, some, List, [], ◌∷◌,
  ◌++◌, ◌==◌, ltb, if◌then◌else◌,
}
use uvm_systemc.Common.Maps.{Map, find, insert, erase, nat_key}
use mathlib.Core.Option
use Hierarchy.{Objects, m_get_parent}

-- A drain that waits to be forked, waits to start, or runs (`uvm_objection_context_object`).
pub record Context : Type 0 where
  pub obj : ℕ
  pub source : ℕ
  pub count : ℕ
  pub objection : ℕ

-- A call of a callback, or the fatal error of a drop below zero, with the object, source and count.
pub data Event : Type 0 where
  raised dropped all_dropped : ℕ → ℕ → ℕ → Event
  below_zero : ℕ → Event

-- `fresh` are the drain processes that have been spawned and have not run, `draining` those that wait
-- out a drain time, with the context that each has taken.
pub record Objection : Type 0 where
  pub self : ℕ
  pub source_count : Map ℕ ℕ
  pub total_count : Map ℕ ℕ
  pub drain_time : Map ℕ ℕ
  pub cleared : Bool
  pub hier_mode : Bool
  pub top_all_dropped : Bool
  pub scheduled : List Context
  pub forked_list : List Context
  pub scheduled_contexts : Map ℕ Context
  pub forked_contexts : Map ℕ Context
  pub drain_proc : Map ℕ ℕ
  pub fresh : List ℕ
  pub draining : Map ℕ Context
  pub next_pid : ℕ
  pub log : List Event

-- `m_objection_init`, which also empties the static list.
unfoldable pub m_objection_init : ℕ → Objection
m_objection_init self = record {
  self = self;
  source_count = [];
  total_count = [];
  drain_time = [];
  cleared = false;
  hier_mode = true;
  top_all_dropped = false;
  scheduled = [];
  forked_list = [];
  scheduled_contexts = [];
  forked_contexts = [];
  drain_proc = [];
  fresh = [];
  draining = [];
  next_pid = 0;
  log = [];
}

-- The entry of a count map, 0 where there is none.
unfoldable pub count_of : ℕ → Map ℕ ℕ → ℕ
count_of k m = elim (find k m) [ none ↦ 0 | some n ↦ n ]

unfoldable pub get_objection_count : Objection → ℕ → ℕ
unfolding count_of
get_objection_count s obj = count_of obj s.source_count

abbrev pub emit : Objection → Event → Objection
emit s e = record s { log = s.log ++ e ∷ [] }

-- The first context that passes a test, and the list without it.
unfoldable pub take_first : (Context → Bool) → List Context → Option (Context × List Context)
take_first p [] = none
take_first p (x ∷ xs) =
    if p x then some (x, xs) else Option.map (λ r. (r.0, x ∷ r.1)) (take_first p xs)

abbrev pub is_own : ℕ → ℕ → Context → Bool
is_own self obj x = (x.obj == obj) && (x.objection == self)

abbrev pub is_at : ℕ → Context → Bool
is_at obj x = x.obj == obj

unfoldable pub remove_pid : ℕ → List ℕ → List ℕ
remove_pid pid [] = []
remove_pid pid (x ∷ xs) = let rest = remove_pid pid xs in if x == pid then rest else x ∷ rest

-- `m_drain_proc[obj].kill(); m_drain_proc.erase(obj)`
abbrev pub kill_drain : Objection → ℕ → Option ℕ → Objection
kill_drain s obj none = record s { drain_proc = erase obj s.drain_proc }
kill_drain s obj (some pid) = record s {
  fresh = remove_pid pid s.fresh;
  draining = erase pid s.draining;
  drain_proc = erase obj s.drain_proc;
}

abbrev pub catch_forked : Objection → ℕ → Option Context → Objection × Option Context
catch_forked s obj none = (s, none)
catch_forked s obj (some c) = (
  kill_drain (record s { forked_contexts = erase obj s.forked_contexts }) obj
      (find obj s.drain_proc),
  some c,
)

abbrev pub catch_listed :
    Objection → ℕ → Option (Context × List Context) → Objection × Option Context
catch_listed s obj none = catch_forked s obj (find obj s.forked_contexts)
catch_listed s obj (some (c, rest)) =
    (record s { forked_list = rest; scheduled_contexts = erase c.obj s.scheduled_contexts }, some c)

abbrev pub catch_scheduled :
    Objection → ℕ → Option (Context × List Context) → Objection × Option Context
catch_scheduled s obj none = catch_listed s obj (take_first (is_at obj) s.forked_list)
catch_scheduled s obj (some (c, rest)) = (record s { scheduled = rest }, some c)

-- The three searches of `m_raise`: a raise takes the drain at the object back, wherever it stands.
unfoldable pub catch_drain : Objection → ℕ → Objection × Option Context
catch_drain s obj = catch_scheduled s obj (take_first (is_own s.self obj) s.scheduled)

abbrev pub schedule : Objection → ℕ → ℕ → ℕ → Objection
schedule s obj source n = record s {
  scheduled =
      s.scheduled ++ record { obj = obj; source = source; count = n; objection = s.self } ∷ [];
}

-- May the object's count be lowered?
abbrev pub covers : ℕ → ℕ → Map ℕ ℕ → Bool
covers obj n m = elim (find obj m) [ none ↦ false | some k ↦ not (ltb k n) ]

abbrev pub refuse_drop : Objection → ℕ → Objection
refuse_drop s obj = if s.cleared then s else emit s (below_zero obj)

-- The counts of `m_drop`, and its callback.
abbrev pub lower : Objection → ℕ → ℕ → ℕ → Objection
lower s obj source n =
    emit
      (record s {
        source_count =
            if obj == source
            then insert obj (count_of obj s.source_count - n) s.source_count
            else s.source_count;
        total_count = insert obj (count_of obj s.total_count - n) s.total_count;
      })
      (dropped obj source n)

-- The counts of `m_raise`, and its callback.
abbrev pub lift : Objection → ℕ → ℕ → ℕ → Objection
lift s obj source n =
    emit
      (record s {
        source_count =
            if obj == source
            then insert obj (count_of obj s.source_count + n) s.source_count
            else s.source_count;
        total_count = insert obj (count_of obj s.total_count + n) s.total_count;
      })
      (raised obj source n)

-- `m_propagate` and the choice before it: the object to which the change goes on, or none at the top.
unfoldable pub next_object : Objects → Objection → ℕ → Option ℕ
next_object h s obj =
    if obj == h.top then none else some (if s.hier_mode then m_get_parent h obj else h.top)

-- `m_drop`; `none` if the fuel runs out.
unfoldable pub m_drop : Objects → ℕ → Objection → ℕ → ℕ → ℕ → Option Objection
m_drop h zero s obj source n = none
m_drop h (suc fuel) s obj source n =
    if covers obj n s.total_count && (not (obj == source) || covers obj n s.source_count)
    then (let t = lower s obj source n in
        if count_of obj t.total_count == 0
        then some (schedule t obj source n)
        else elim (next_object h t obj) [ none ↦ some t | some p ↦ m_drop h fuel t p source n ])
    else some (refuse_drop s obj)

-- `m_raise`; `none` if the fuel runs out.
unfoldable pub m_raise : Objects → ℕ → Objection → ℕ → ℕ → ℕ → Option Objection
m_raise h zero s obj source n = none
m_raise h (suc fuel) s obj source n =
    let (t, caught) = catch_drain (lift s obj source n) obj in
    elim (next_object h t obj) [
      | none ↦ some t
      | some p ↦ elim caught [
        | none ↦ m_raise h fuel t p source n
        | some c ↦ elim (ltb c.count n) [
          | true ↦ m_raise h fuel t p source (n - c.count)
          | false ↦ elim (ltb n c.count) [
            | true ↦ m_drop h fuel t p source (c.count - n)
            | false ↦ some t
          ]
        ]
      ]
    ]

-- `obj` is null for the top.
abbrev pub or_object : Objects → Option ℕ → ℕ
or_object h none = h.top
or_object h (some obj) = obj

unfoldable pub raise_objection : Objects → ℕ → Objection → Option ℕ → ℕ → Option Objection
raise_objection h fuel s obj n =
    m_raise h fuel (record s { cleared = false; top_all_dropped = false }) (or_object h obj)
      (or_object h obj) n

unfoldable pub drop_objection : Objects → ℕ → Objection → Option ℕ → ℕ → Option Objection
drop_objection h fuel s obj n = m_drop h fuel s (or_object h obj) (or_object h obj) n

-- `m_set_hier_mode`, called at the end, returns at once in hierarchical mode, the only mode that
-- `m_objection_init` leads to.
unfoldable pub set_drain_time : Objects → Objection → Option ℕ → ℕ → Objection
set_drain_time h s obj drain = record s { drain_time = insert (or_object h obj) drain s.drain_time }

unfoldable pub get_drain_time : Objects → Objection → Option ℕ → ℕ
unfolding count_of
get_drain_time h s obj = count_of (or_object h obj) s.drain_time
