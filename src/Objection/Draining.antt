-- ===== src/Objection/Draining.antt =====
-- The drains of an objection (src/uvmsc/phasing/uvm_objection.cpp), from the scheduled context to the drop
-- at the parent, and `clear`, which stops them.
use uvm_systemc.Common.{
  ℕ, suc, true, false, ◌&&◌, Option, none, some, List, [], ◌∷◌, ◌++◌, ◌==◌, if◌then◌else◌,
}
use uvm_systemc.Common.Maps.{Map, find, insert, erase, nat_key}
use mathlib.Core.Option
use uvm_systemc.Objection.Hierarchy.{Objects}
use uvm_systemc.Objection.{
  Context, all_dropped, Objection, count_of, emit, remove_pid, kill_drain, covers, next_object,
  m_drop,
}

-- One round of `m_execute_scheduled_forks`: the first context leaves the static list, and if it is this
-- objection's a drain process is spawned.
unfoldable pub execute_scheduled_fork : Objection → Objection
execute_scheduled_fork s = elim s.scheduled [
  | [] ↦ s
  | c ∷ rest ↦
      if c.objection == s.self
      then record s {
        scheduled = rest;
        scheduled_contexts = insert c.obj c s.scheduled_contexts;
        forked_list = s.forked_list ++ c ∷ [];
        fresh = s.fresh ++ s.next_pid ∷ [];
        drain_proc = insert c.obj s.next_pid s.drain_proc;
        next_pid = suc s.next_pid;
      }
      else record s { scheduled = rest }
]

-- `m_forked_drain_guard` up to the wait in `m_forked_drain`, which is no wait for an object with no drain
-- time: then `finish_drain` follows at once. The process takes the first forked context,
-- whichever that is, or ends.
unfoldable pub start_drain : Objection → ℕ → Objection
start_drain s pid = elim s.forked_list [
  | [] ↦ record s { fresh = remove_pid pid s.fresh }
  | c ∷ rest ↦ record s {
    fresh = remove_pid pid s.fresh;
    forked_list = rest;
    scheduled_contexts = erase c.obj s.scheduled_contexts;
    forked_contexts = insert c.obj c s.forked_contexts;
    draining = insert pid c s.draining;
  }
]

-- `if (count exists && count == 0) erase`
unfoldable pub erase_zero : ℕ → Map ℕ ℕ → Map ℕ ℕ
erase_zero k m = if covers k 0 m && (count_of k m == 0) then erase k m else m

-- The rest of `m_forked_drain` up to the propagation.
abbrev pub all_drop : Objects → Objection → Context → Objection
all_drop h s c =
    emit
      (record s {
        source_count = erase_zero c.obj s.source_count;
        total_count = erase_zero c.obj s.total_count;
        top_all_dropped = if c.obj == h.top then true else s.top_all_dropped;
      })
      (all_dropped c.obj c.source c.count)

-- The end of `m_forked_drain_guard`, where the process ends too.
abbrev pub end_drain : ℕ → Context → Objection → Objection
end_drain pid c t = record t {
  drain_proc = erase c.obj t.drain_proc;
  forked_contexts = erase c.obj t.forked_contexts;
  draining = erase pid t.draining;
}

-- A draining process after its wait; nothing happens if it has been killed.
unfoldable pub finish_drain : Objects → ℕ → Objection → ℕ → Option Objection
finish_drain h fuel s pid = elim (find pid s.draining) [
  | none ↦ some s
  | some c ↦
      let t = all_drop h s c in
      Option.map (end_drain pid c) (elim (next_object h t c.obj) [
        | none ↦ some t
        | some p ↦ m_drop h fuel t p c.source c.count
      ])
]

unfoldable pub drop_own : ℕ → List Context → List Context
drop_own self [] = []
drop_own self (x ∷ xs) =
    let rest = drop_own self xs in if x.objection == self then rest else x ∷ rest

abbrev pub clear_first : Objection → Objection
clear_first s = elim s.forked_contexts [
  | [] ↦ s
  | (obj, c) ∷ rest ↦
      kill_drain (record s { forked_contexts = erase obj s.forked_contexts }) obj
        (find obj s.drain_proc)
]

abbrev pub clear_forked : Objection → Map ℕ Context → Option Objection
clear_forked s [] = some s
clear_forked s (a ∷ []) = some (clear_first s)
clear_forked s (a ∷ b ∷ []) = some (clear_first s)
clear_forked s (a ∷ b ∷ c ∷ rest) = none

-- `clear`. The loop over the forked contexts compares an index that grows with a size that falls, and
-- keeps the iterator of the entry that it has erased: it ends after the first of two entries, and with
-- three it uses that iterator, which is undefined behaviour, here `none`.
unfoldable pub clear : Objection → Option Objection
unfolding drop_own
clear s =
    let t = record s {
      source_count = [];
      total_count = [];
      scheduled = drop_own s.self s.scheduled;
      scheduled_contexts = [];
      forked_list = [];
    } in
    Option.map {A = Objection} (λ u. record u { top_all_dropped = false; cleared = true })
      (clear_forked t t.forked_contexts)
