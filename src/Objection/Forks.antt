-- ===== src/Objection/Forks.antt =====
-- The fork of a scheduled drain keeps the books of an objection balanced.
use uvm_systemc.Common.{
  ℕ, suc, ◌≡◌, refl, ap, subst, true, false, none, some, List, [], ◌∷◌, ◌++◌, arith, ◌==◌,
  if◌then◌else◌, Bool-cases, inl, inr, ==_iff, All, All-append,
}
use uvm_systemc.Common.Maps.{find, insert, nat_key, find-insert}
use uvm_systemc.Objection.Hierarchy.{Objects, IsTree}
use uvm_systemc.Objection.{Context, Objection, is_own, is_at}
use uvm_systemc.Objection.Draining.{execute_scheduled_fork}
use uvm_systemc.Objection.Ledger.{flow, sum_flows, pending_in, pending_in-append}
use uvm_systemc.Objection.Updates.{Books}
use uvm_systemc.Objection.Balance.{IsDeep, IsMatched, IsBalanced}

sum-flows_same :
    (s t : Objection) (cs : List ℕ)
    → ((c : ℕ) → flow t c ≡ flow s c)
    → sum_flows t cs ≡ sum_flows s cs
sum-flows_same s t [] e = refl
sum-flows_same s t (c ∷ cs) e = ground (arith, e c, sum-flows_same s t cs e)

module _ {h : Objects} (tree : IsTree h) where
  pub move-Books :
      (s t : Objection)
      → t.total_count ≡ s.total_count
      → t.source_count ≡ s.source_count
      → ((c : ℕ) → flow t c ≡ flow s c)
      → Books tree s h.top 0 0
      → Books tree t h.top 0 0
  move-Books s t e e' f b p = ground (arith, b p, e, e', sum-flows_same s t (tree.children p) f)

  -- The first context of the static list has no drain of this objection running at its object.
  abbrev pub CanFork : Objection → Type 0
  CanFork s =
      (c : Context) (rest : List Context)
      → s.scheduled ≡ c ∷ rest
      → find c.obj s.forked_contexts ≡ none

  fork-IsMatched :
      (s : Objection) (obj pid : ℕ)
      → find obj s.forked_contexts ≡ none
      → IsMatched s
      → IsMatched (record s { drain_proc = insert obj pid s.drain_proc })
  fork-IsMatched s obj pid free v obj' c' found = elim (Bool-cases (obj == obj')) [
    | inl same ↦ absurd (
        let gone : find obj' s.forked_contexts ≡ none =
          subst (λ k. find k s.forked_contexts ≡ none) ((==_iff obj obj').0 same) free in
        ground arith)
    | inr other ↦ kept other (v obj' c' found)
  ]
    where
      kept :
          (obj == obj') ≡ false
          → (c'.obj ≡ obj')
            × ((pid' : ℕ) × (find obj' s.drain_proc ≡ some pid') × (find pid' s.draining ≡ some c'))
          → (c'.obj ≡ obj')
            × ((pid' : ℕ) × (find obj' (insert obj pid s.drain_proc) ≡ some pid')
                × (find pid' s.draining ≡ some c'))
      kept other (here', (pid', proc', runs')) =
          (here', (pid', ground (arith, find-insert obj' obj pid s.drain_proc), runs'))

  abbrev forked : Objection → Context → List Context → Objection
  forked s c rest = record s {
    scheduled = rest;
    scheduled_contexts = insert c.obj c s.scheduled_contexts;
    forked_list = s.forked_list ++ c ∷ [];
    fresh = s.fresh ++ s.next_pid ∷ [];
    drain_proc = insert c.obj s.next_pid s.drain_proc;
    next_pid = suc s.next_pid;
  }

  forked-flow :
      (s : Objection) (c : Context) (rest : List Context)
      → s.scheduled ≡ c ∷ rest
      → (c.objection == s.self) ≡ true
      → (x : ℕ) → flow (forked s c rest) x ≡ flow s x
  unfolding flow
  forked-flow s c rest e own x = ground (
    arith,
    ap (pending_in (is_own s.self x)) e,
    pending_in-append (is_at x) s.forked_list (c ∷ []),
  )

  skipped-flow :
      (s : Objection) (c : Context) (rest : List Context)
      → s.scheduled ≡ c ∷ rest
      → (c.objection == s.self) ≡ false
      → (x : ℕ) → flow (record s { scheduled = rest }) x ≡ flow s x
  unfolding flow
  skipped-flow s c rest e foreign x = ground (arith, ap (pending_in (is_own s.self x)) e)

  after_fork : Objection → List Context → Objection
  after_fork s xs = elim xs as (λ x. Objection) [
    | [] ↦ s
    | c ∷ rest ↦ if c.objection == s.self then forked s c rest else record s { scheduled = rest }
  ]

  after_fork-IsBalanced :
      (s : Objection) (xs : List Context)
      → s.scheduled ≡ xs
      → CanFork s
      → IsBalanced tree s
      → IsBalanced tree (after_fork s xs)
  unfolding after_fork flow
  after_fork-IsBalanced s [] e free v = v
  after_fork-IsBalanced s (c ∷ rest) e free v = elim (Bool-cases (c.objection == s.self)) [
    | inl own ↦ rw own (
      record {
        hierarchical = v.0.hierarchical;
        matched = fork-IsMatched s c.obj s.next_pid (free c rest e) v.0.matched;
        once = v.0.once;
        deep_scheduled = deep.1;
        deep_forked = All-append (IsDeep tree) s.forked_list _ v.0.deep_forked (deep.0, tt);
        deep_draining = v.0.deep_draining;
      },
      move-Books s (forked s c rest) refl refl (forked-flow s c rest e own) v.1,
    )
    | inr foreign ↦ rw foreign (
      record {
        hierarchical = v.0.hierarchical;
        matched = v.0.matched;
        once = v.0.once;
        deep_scheduled = deep.1;
        deep_forked = v.0.deep_forked;
        deep_draining = v.0.deep_draining;
      },
      move-Books s (record s { scheduled = rest }) refl refl (skipped-flow s c rest e foreign) v.1,
    )
  ]
    where
      deep : IsDeep tree c × All (IsDeep tree) rest
      deep = subst (All (IsDeep tree)) e v.0.deep_scheduled

  -- A round of `m_execute_scheduled_forks` leaves balanced books balanced, whichever objection the first
  -- context of the static list belongs to, if no drain of this objection runs at its object.
  pub execute_scheduled_fork-IsBalanced :
      (s : Objection) → CanFork s → IsBalanced tree s → IsBalanced tree (execute_scheduled_fork s)
  unfolding execute_scheduled_fork after_fork
  execute_scheduled_fork-IsBalanced s free v = after_fork-IsBalanced s s.scheduled refl free v
