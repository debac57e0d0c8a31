-- ===== src/Objection/Balance.antt =====
-- The balance of an objection, and what it rests on: the maps of the running drains.
use uvm_systemc.Common.{
  ℕ, ◌≤◌, ◌<◌, ◌≡◌, ◌≢◌, ap, sym, ◌∙◌, Bool, true, false, Option, none, some, List, [], ◌∷◌, arith,
  ◌==◌, if◌then◌else◌, Bool-cases, inl, inr, ==_iff, All, All-append,
}
use uvm_systemc.Common.Maps.{Map, find, erase, nat_key, find-erase}
use uvm_systemc.Objection.Hierarchy.{Objects, IsTree, m_get_parent}
use uvm_systemc.Objection.{
  Context, Objection, Event, below_zero, schedule, emit, refuse_drop, next_object,
}
use uvm_systemc.Objection.Ledger.{flow}
use uvm_systemc.Objection.Updates.{Books}

-- A context's source lies at or below its object.
abbrev pub IsDeep : {h : Objects} → IsTree h → Context → Type 0
IsDeep tree c = tree.depth c.obj ≤ tree.depth c.source

-- The running drain that the maps name for an object is one, and is that object's.
abbrev pub IsMatched : Objection → Type 0
IsMatched s =
    (obj : ℕ) (c : Context)
    → find obj s.forked_contexts ≡ some c
    → (c.obj ≡ obj)
      × ((pid : ℕ) × (find obj s.drain_proc ≡ some pid) × (find pid s.draining ≡ some c))

-- No process is listed twice.
abbrev pub HasOnce : Map ℕ Context → Type 0
HasOnce [] = Unit {0}
HasOnce ((pid, c) ∷ m) = (find pid m ≡ none) × HasOnce m

-- What the balance rests on, apart from the counts.
pub record IsSound {h : Objects} (tree : IsTree h) (s : Objection) : Type 0 where
  pub hierarchical : s.hier_mode ≡ true
  pub matched : IsMatched s
  pub once : HasOnce s.draining
  pub deep_scheduled : All (IsDeep tree) s.scheduled
  pub deep_forked : All (IsDeep tree) s.forked_list
  pub deep_draining : All (λ pc. IsDeep tree pc.1) s.draining

-- The state is sound, and its books balance but for what `q` has to add or to take away.
abbrev pub IsOwing : {h : Objects} → IsTree h → Objection → ℕ → ℕ → ℕ → Type 0
IsOwing tree s q m l = IsSound tree s × Books tree s q m l

-- Nothing is owed.
abbrev pub IsBalanced : {h : Objects} → IsTree h → Objection → Type 0
IsBalanced {h} tree s = IsOwing tree s h.top 0 0

-- The end of an object's drain leaves the maps to the drains of the others.
pub end-IsMatched :
    (s : Objection) (c : Context) (obj pid : ℕ)
    → c.obj ≡ obj
    → find pid s.draining ≡ some c
    → IsMatched s
    → IsMatched (record s {
      drain_proc = erase obj s.drain_proc;
      forked_contexts = erase obj s.forked_contexts;
      draining = erase pid s.draining;
    })
end-IsMatched s c obj pid here runs v obj' c' found = elim (Bool-cases (obj == obj')) [
  | inl same ↦ absurd (ground (arith, find-erase obj' obj s.forked_contexts))
  | inr other ↦ kept other (v obj' c' (ground (arith, find-erase obj' obj s.forked_contexts)))
]
  where
    kept :
        (obj == obj') ≡ false
        → (c'.obj ≡ obj')
          × ((pid' : ℕ) × (find obj' s.drain_proc ≡ some pid') × (find pid' s.draining ≡ some c'))
        → (c'.obj ≡ obj')
          × ((pid' : ℕ) × (find obj' (erase obj s.drain_proc) ≡ some pid')
              × (find pid' (erase pid s.draining) ≡ some c'))
    kept other (here', (pid', proc', runs')) = (
      here',
      (
        pid',
        ground (arith, find-erase obj' obj s.drain_proc),
        elim (Bool-cases (pid == pid')) [
          | inr differs ↦ ground (arith, find-erase pid' pid s.draining)
          | inl same_pid ↦
              let e : some c ≡ some c' =
                sym runs ∙ ap (λ i. find i s.draining) ((==_iff pid pid').0 same_pid) ∙ runs' in
              let e' : c ≡ c' = ground arith in
              let o : obj ≡ obj' = sym here ∙ ap (λ (k : Context). k.obj) e' ∙ here' in
              absurd (ground arith)
        ],
      ),
    )

module _ {h : Objects} (tree : IsTree h) where
  -- Counts, marks and the log do not matter to soundness.
  pub recount-IsSound :
      (s : Objection) (source total : Map ℕ ℕ) (cleared at_end : Bool) (log : List Event)
      → IsSound tree s
      → IsSound tree (record s {
        source_count = source;
        total_count = total;
        cleared = cleared;
        top_all_dropped = at_end;
        log = log;
      })
  recount-IsSound s source total cleared at_end log v = record {
    hierarchical = v.hierarchical;
    matched = v.matched;
    once = v.once;
    deep_scheduled = v.deep_scheduled;
    deep_forked = v.deep_forked;
    deep_draining = v.deep_draining;
  }

  pub schedule-IsSound :
      (s : Objection) (obj source n : ℕ)
      → tree.depth obj ≤ tree.depth source
      → IsSound tree s
      → IsSound tree (schedule s obj source n)
  schedule-IsSound s obj source n deep v = record {
    hierarchical = v.hierarchical;
    matched = v.matched;
    once = v.once;
    deep_scheduled = All-append (IsDeep tree) s.scheduled _ v.deep_scheduled (deep, tt);
    deep_forked = v.deep_forked;
    deep_draining = v.deep_draining;
  }

  pub move-debt : (s : Objection) (q q' : ℕ) → Books tree s q 0 0 → Books tree s q' 0 0
  move-debt s q q' b p = ground (arith, b p)

  pub refuse_drop-IsBalanced :
      (s : Objection) (obj : ℕ) → IsBalanced tree s → IsBalanced tree (refuse_drop s obj)
  unfolding flow
  refuse_drop-IsBalanced s obj v = by_mark s.cleared
    where
      by_mark : (b : Bool) → IsBalanced tree (if b then s else emit s (below_zero obj))
      by_mark true = v
      by_mark false =
          (recount-IsSound s s.source_count s.total_count s.cleared s.top_all_dropped _ v.0, v.1)

  pub next_object_up :
      (s : Objection) (obj : ℕ)
      → s.hier_mode ≡ true
      → (obj == h.top) ≡ false
      → next_object h s obj ≡ some (m_get_parent h obj)
  unfolding next_object
  next_object_up s obj up below = ground arith

  pub next_object_top :
      (s : Objection) (obj : ℕ) → (obj == h.top) ≡ true → next_object h s obj ≡ none
  unfolding next_object
  next_object_top s obj at_top = ground arith

  -- A call ends in a balanced state.
  abbrev pub Ends : Option Objection → Type 0
  Ends r = (t : Objection) × (r ≡ some t) × IsBalanced tree t

  pub ne_of_test : (a b : ℕ) → (a == b) ≡ false → a ≢ b
  ne_of_test a b e q = ground arith

  pub differs : (a b : ℕ) → tree.depth a < tree.depth b → (a == b) ≡ false
  differs a b lt = elim (Bool-cases (a == b)) [
    | inr e ↦ e
    | inl e ↦
        let same : tree.depth a ≡ tree.depth b = ap tree.depth ((==_iff a b).0 e) in
        absurd (omega arith)
  ]
