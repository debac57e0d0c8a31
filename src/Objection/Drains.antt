-- ===== src/Objection/Drains.antt =====
-- The life of a drain: it is forked, starts, waits, and ends with its callbacks and the drop that it
-- passes on. The books stay balanced.
use uvm_systemc.Common.{
  ℕ, zero, suc, ◌+◌, ◌≤◌, ◌<◌, ◌≡◌, refl, subst, Bool, true, false, not, ◌&&◌, ◌||◌, Option, none,
  some, [], ◌∷◌, arith, ◌==◌, if◌then◌else◌, Option-cases, Bool-cases, inl, inr, ==_iff, All,
}
use mathlib.Core.Option
use native.Mathlib.Nat.{zero-add}
use uvm_systemc.Common.Maps.{Map, find, nat_key}
use uvm_systemc.Objection.Hierarchy.{Objects, IsTree, m_get_parent}
use uvm_systemc.Objection.{
  Context, Objection, emit, below_zero, count_of, covers, lower, next_object, m_drop,
}
use uvm_systemc.Objection.Draining.{erase_zero, all_drop, end_drain, finish_drain}
use uvm_systemc.Objection.Ledger.{count_of-erase, flow}
use uvm_systemc.Objection.Updates.{Books, Mixed, loss-Books, top_loss-Books}
use uvm_systemc.Objection.Balance.{
  IsDeep, IsSound, IsBalanced, end-IsMatched, next_object_up, next_object_top, Ends, ne_of_test,
  differs,
}
use uvm_systemc.Objection.Drop.{m_drop-Ends}
use uvm_systemc.Objection.Catch.{HasOnce-erase, erase-All, erase-pending}

All-find :
    (P : Context → Type 0) (pid : ℕ) (m : Map ℕ Context) (c : Context)
    → find pid m ≡ some c
    → All (λ pc. P pc.1) m
    → P c
unfolding find
All-find P pid [] c e a = cc
All-find P pid ((i, d) ∷ m) c e a = elim (Bool-cases (i == pid)) [
  | inl hit ↦ let same : d ≡ c = ground arith in subst P same a.0
  | inr miss ↦ All-find P pid m c (ground arith) a.1
]

count_of-erase_zero : (x k : ℕ) (m : Map ℕ ℕ) → count_of x (erase_zero k m) ≡ count_of x m
unfolding erase_zero
count_of-erase_zero x k m = ground (arith, count_of-erase x k m, ==_iff k x)

-- A drop reads and writes nothing of the drain that ends.
m_drop-end_drain :
    (h : Objects) (fuel : ℕ) (pid : ℕ) (c : Context) (s : Objection) (obj source n : ℕ)
    → m_drop h fuel (end_drain pid c s) obj source n
      ≡ Option.map (end_drain pid c) (m_drop h fuel s obj source n)
unfolding m_drop next_object
m_drop-end_drain h zero pid c s obj source n = refl
m_drop-end_drain h (suc fuel) pid c s obj source n =
    elim (Bool-cases
      (covers obj n s.total_count && (not (obj == source) || covers obj n s.source_count))) [
        | inr refused ↦ rw refused (by_mark s.cleared)
        | inl ok ↦ rw ok (elim (Bool-cases (count_of obj (lower s obj source n).total_count == 0)) [
          | inl nothing ↦ rw nothing refl
          | inr more ↦ rw more (
              by_next (λ p. m_drop-end_drain h fuel pid c (lower s obj source n) p source n)
                (next_object h (lower s obj source n) obj))
        ])
      ]
  where
    by_mark :
        (b : Bool)
        → some (if b then end_drain pid c s else emit (end_drain pid c s) (below_zero obj))
          ≡ some (end_drain pid c (if b then s else emit s (below_zero obj)))
    by_mark true = refl
    by_mark false = refl

    by_next :
        ((p : ℕ)
          → m_drop h fuel (end_drain pid c (lower s obj source n)) p source n
            ≡ Option.map (end_drain pid c) (m_drop h fuel (lower s obj source n) p source n))
        → (o : Option ℕ)
        → elim o as (λ x. Option Objection) [
          | none ↦ some (end_drain pid c (lower s obj source n))
          | some p ↦ m_drop h fuel (end_drain pid c (lower s obj source n)) p source n
        ]
          ≡ Option.map (end_drain pid c) (elim o as (λ x. Option Objection) [
            | none ↦ some (lower s obj source n)
            | some p ↦ m_drop h fuel (lower s obj source n) p source n
          ])
    by_next step none = refl
    by_next step (some p) = step p

module _ {h : Objects} (tree : IsTree h) where
  module _ (s : Objection) (pid : ℕ) (c : Context) (v : IsBalanced tree s)
      (runs : find pid s.draining ≡ some c) where
    ended : Objection
    ended = end_drain pid c (all_drop h s c)

    ended-IsSound : IsSound tree ended
    unfolding ended
    ended-IsSound = record {
      hierarchical = v.0.hierarchical;
      matched = end-IsMatched s c c.obj pid refl runs v.0.matched;
      once = HasOnce-erase pid s.draining v.0.once;
      deep_scheduled = v.0.deep_scheduled;
      deep_forked = v.0.deep_forked;
      deep_draining = erase-All (IsDeep tree) pid s.draining v.0.deep_draining;
    }

    ended-flow : (x : ℕ) → flow s x ≡ flow ended x + (if c.obj == x then c.count else 0)
    unfolding flow ended
    ended-flow x = ground (
      arith,
      erase-pending pid x s.draining c v.0.once runs,
      count_of-erase_zero x c.obj s.total_count,
    )

    ended-Mixed : (q : ℕ) → Mixed tree s ended q 0 0
    unfolding ended
    ended-Mixed q p = ground (
      arith,
      v.1 p,
      count_of-erase_zero p c.obj s.total_count,
      count_of-erase_zero p c.obj s.source_count,
    )

    -- The propagation of the end, as the drop that it is.
    passes_on :
        (fuel : ℕ)
        → tree.depth c.obj ≤ fuel
        → Ends tree (
            Option.map (end_drain pid c) (elim (next_object h (all_drop h s c) c.obj) [
              | none ↦ some (all_drop h s c)
              | some p ↦ m_drop h fuel (all_drop h s c) p c.source c.count
            ]))
    unfolding ended
    passes_on fuel short = elim (Bool-cases (c.obj == h.top)) [
      | inl at_top ↦ rw (next_object_top tree (all_drop h s c) c.obj at_top) (
        ended,
        refl,
        (
          ended-IsSound,
          top_loss-Books tree s ended c.obj c.count h.top 0 0 at_top ended-flow (ended-Mixed h.top),
        ),
      )
      | inr below ↦ rw (next_object_up tree (all_drop h s c) c.obj v.0.hierarchical below) (
          subst (Ends tree)
            (m_drop-end_drain h fuel pid c (all_drop h s c) (m_get_parent h c.obj) c.source c.count)
            (let up : tree.depth (m_get_parent h c.obj) < tree.depth c.obj =
                tree.climbs c.obj (ne_of_test tree c.obj h.top below) in
              let deep : tree.depth c.obj ≤ tree.depth c.source =
                All-find (IsDeep tree) pid s.draining c runs v.0.deep_draining in
              m_drop-Ends tree fuel ended (m_get_parent h c.obj) c.source c.count (omega arith)
                (omega arith) (differs tree (m_get_parent h c.obj) c.source (omega arith))
                (
                  ended-IsSound,
                  subst (Books tree ended (m_get_parent h c.obj) 0) (zero-add c.count)
                      (loss-Books tree s ended c.obj c.count 0 0 below ended-flow (ended-Mixed _)),
                )))
    ]

  -- The end of a drain, with the drop that it passes on to the parent, leaves balanced books balanced,
  -- and the call returns if its fuel is at least the depth of the drain's object. A process that does not
  -- run changes nothing.
  pub finish_drain-IsBalanced :
      (fuel : ℕ) (s : Objection) (pid : ℕ)
      → ((c : Context) → find pid s.draining ≡ some c → tree.depth c.obj ≤ fuel)
      → IsBalanced tree s
      → Ends tree (finish_drain h fuel s pid)
  unfolding finish_drain
  finish_drain-IsBalanced fuel s pid short v = elim (Option-cases (find pid s.draining)) [
    | inl idle ↦ rw (finish_drain, idle) (s, refl, v)
    | inr (c, runs) ↦ rw (finish_drain, runs) (passes_on s pid c v runs fuel (short c runs))
  ]
