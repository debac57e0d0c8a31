-- ===== src/Objection/Starts.antt =====
-- The start of a forked drain keeps the books of an objection balanced.
use uvm_systemc.Common.{
  ℕ, ◌+◌, ◌≡◌, refl, ap, sym, subst, ◌∙◌, none, some, List, [], ◌∷◌, arith, ◌==◌, if◌then◌else◌,
  Bool-cases, inl, inr, ==_iff, All,
}
use uvm_systemc.Common.Maps.{Map, find, insert, erase, nat_key, find-insert}
use uvm_systemc.Objection.Hierarchy.{Objects, IsTree}
use uvm_systemc.Objection.{Context, Objection, remove_pid, is_at}
use uvm_systemc.Objection.Draining.{start_drain}
use uvm_systemc.Objection.Ledger.{flow, pending_procs, pending_in}
use uvm_systemc.Objection.Balance.{IsDeep, IsMatched, HasOnce, IsBalanced}
use uvm_systemc.Objection.Forks.{move-Books}

HasOnce-insert :
    (pid : ℕ) (c : Context) (m : Map ℕ Context)
    → find pid m ≡ none
    → HasOnce m
    → HasOnce (insert pid c m)
unfolding insert find
HasOnce-insert pid c [] e o = (refl, tt)
HasOnce-insert pid c ((i, d) ∷ m) e o = elim (Bool-cases (i == pid)) [
  | inl hit ↦ absurd (ground arith)
  | inr miss ↦ rw miss (
    ground (arith, find-insert i pid c m, o.0, ==_iff i pid, ==_iff pid i),
    HasOnce-insert pid c m (ground arith) o.1,
  )
]

insert-All :
    (P : Context → Type 0) (pid : ℕ) (c : Context) (m : Map ℕ Context)
    → P c
    → All (λ pc. P pc.1) m
    → All (λ pc. P pc.1) (insert pid c m)
unfolding insert
insert-All P pid c [] d a = (d, tt)
insert-All P pid c ((i, x) ∷ m) d a = elim (Bool-cases (i == pid)) [
  | inl hit ↦ rw hit (d, a.1)
  | inr miss ↦ rw miss (a.0, insert-All P pid c m d a.1)
]

insert-pending :
    (pid x : ℕ) (c : Context) (m : Map ℕ Context)
    → find pid m ≡ none
    → pending_procs x (insert pid c m) ≡ (if is_at x c then c.count else 0) + pending_procs x m
unfolding insert find
insert-pending pid x c [] e = refl
insert-pending pid x c ((i, d) ∷ m) e = ground (arith, insert-pending pid x c m)

module _ {h : Objects} (tree : IsTree h) where
  -- The process that starts is the one that the maps name for the first forked context.
  abbrev pub CanStart : Objection → ℕ → Type 0
  CanStart s pid =
      (find pid s.draining ≡ none)
      × ((c : Context) (rest : List Context)
          → s.forked_list ≡ c ∷ rest
          → find c.obj s.drain_proc ≡ some pid)

  start-IsMatched :
      (s : Objection) (c : Context) (pid : ℕ)
      → find pid s.draining ≡ none
      → find c.obj s.drain_proc ≡ some pid
      → IsMatched s
      → IsMatched (record s {
        forked_contexts = insert c.obj c s.forked_contexts;
        draining = insert pid c s.draining;
      })
  start-IsMatched s c pid free proc v obj' c' found = elim (Bool-cases (c.obj == obj')) [
    | inl same ↦
        let e : c.obj ≡ obj' = (==_iff c.obj obj').0 same in
        let e' : c ≡ c' = ground (arith, find-insert obj' c.obj c s.forked_contexts) in
        (
          ap (λ (k : Context). k.obj) (sym e') ∙ e,
          (
            pid,
            subst (λ k. find k s.drain_proc ≡ some pid) e proc,
            ground (arith, find-insert pid pid c s.draining),
          ),
        )
    | inr other ↦ kept (v obj' c' (ground (arith, find-insert obj' c.obj c s.forked_contexts)))
  ]
    where
      kept :
          (c'.obj ≡ obj')
            × ((pid' : ℕ) × (find obj' s.drain_proc ≡ some pid') × (find pid' s.draining ≡ some c'))
          → (c'.obj ≡ obj')
            × ((pid' : ℕ) × (find obj' s.drain_proc ≡ some pid')
                × (find pid' (insert pid c s.draining) ≡ some c'))
      kept (here', (pid', proc', runs')) = (
        here',
        (
          pid',
          proc',
          elim (Bool-cases (pid == pid')) [
            | inl same ↦ absurd (
                let gone : find pid' s.draining ≡ none =
                  subst (λ k. find k s.draining ≡ none) ((==_iff pid pid').0 same) free in
                ground arith)
            | inr differs ↦ ground (arith, find-insert pid' pid c s.draining)
          ],
        ),
      )

  abbrev started : Objection → ℕ → Context → List Context → Objection
  started s pid c rest = record s {
    fresh = remove_pid pid s.fresh;
    forked_list = rest;
    scheduled_contexts = erase c.obj s.scheduled_contexts;
    forked_contexts = insert c.obj c s.forked_contexts;
    draining = insert pid c s.draining;
  }

  started-flow :
      (s : Objection) (pid : ℕ) (c : Context) (rest : List Context)
      → s.forked_list ≡ c ∷ rest
      → find pid s.draining ≡ none
      → (x : ℕ) → flow (started s pid c rest) x ≡ flow s x
  unfolding flow
  started-flow s pid c rest e free x =
      ground (arith, ap (pending_in (is_at x)) e, insert-pending pid x c s.draining)

  after_start : Objection → ℕ → List Context → Objection
  after_start s pid xs = elim xs as (λ x. Objection) [
    | [] ↦ record s { fresh = remove_pid pid s.fresh }
    | c ∷ rest ↦ started s pid c rest
  ]

  after_start-IsBalanced :
      (s : Objection) (pid : ℕ) (xs : List Context)
      → s.forked_list ≡ xs
      → CanStart s pid
      → IsBalanced tree s
      → IsBalanced tree (after_start s pid xs)
  unfolding after_start flow
  after_start-IsBalanced s pid [] e can v = (
    record {
      hierarchical = v.0.hierarchical;
      matched = v.0.matched;
      once = v.0.once;
      deep_scheduled = v.0.deep_scheduled;
      deep_forked = v.0.deep_forked;
      deep_draining = v.0.deep_draining;
    },
    v.1,
  )
  after_start-IsBalanced s pid (c ∷ rest) e can v = (
    record {
      hierarchical = v.0.hierarchical;
      matched = start-IsMatched s c pid can.0 (can.1 c rest e) v.0.matched;
      once = HasOnce-insert pid c s.draining can.0 v.0.once;
      deep_scheduled = v.0.deep_scheduled;
      deep_forked = deep.1;
      deep_draining = insert-All (IsDeep tree) pid c s.draining deep.0 v.0.deep_draining;
    },
    move-Books tree s (started s pid c rest) refl refl (started-flow s pid c rest e can.0) v.1,
  )
    where
      deep : IsDeep tree c × All (IsDeep tree) rest
      deep = subst (All (IsDeep tree)) e v.0.deep_forked

  -- The start of a drain process leaves balanced books balanced, and so does one that finds no forked
  -- context, if the maps name this process for the first forked context.
  pub start_drain-IsBalanced :
      (s : Objection) (pid : ℕ)
      → CanStart s pid
      → IsBalanced tree s
      → IsBalanced tree (start_drain s pid)
  unfolding start_drain after_start
  start_drain-IsBalanced s pid can v = after_start-IsBalanced s pid s.forked_list refl can v
