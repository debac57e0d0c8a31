-- ===== src/Objection/Raise.antt =====
-- Raises: `m_raise` and `raise_objection` keep the books of an objection balanced, and end.
use uvm_systemc.Common.{
  ℕ, zero, suc, ◌+◌, ◌-◌, ◌≤◌, ◌<◌, ◌≡◌, refl, subst, true, false, Option, none, some, arith, ◌==◌,
  ltb, Bool-cases, inl, inr,
}
use native.Mathlib.Nat.{zero-add}
use uvm_systemc.Common.Maps.{nat_key}
use uvm_systemc.Objection.Hierarchy.{Objects, IsTree, m_get_parent}
use uvm_systemc.Objection.{
  Context, Objection, count_of, lift, next_object, m_drop, m_raise, or_object, raise_objection,
  catch_drain,
}
use uvm_systemc.Objection.Ledger.{count_of-insert, flow}
use uvm_systemc.Objection.Updates.{
  Books, Mixed, gain-Books, loss-Books, top_gain-Books, top_loss-Books, lift-flow,
}
use uvm_systemc.Objection.Balance.{
  IsSound, IsOwing, IsBalanced, recount-IsSound, next_object_up, next_object_top, Ends, ne_of_test,
  differs,
}
use uvm_systemc.Objection.Drop.{m_drop-Ends}
use uvm_systemc.Objection.Catch.{Caught, caught_count, catch_drain-Caught}

module _ {h : Objects} (tree : IsTree h) where
  lift-Mixed :
      (s : Objection) (obj source n q : ℕ)
      → (obj == source) ≡ false
      → Books tree s obj n 0
      → Mixed tree s (lift s obj source n) q 0 0
  lift-Mixed s obj source n q other b p =
      rw other
        (ground (arith, b p, count_of-insert p obj (count_of obj s.total_count + n) s.total_count))

  lift_own-Mixed :
      (s : Objection) (obj source n q q' : ℕ)
      → (obj == source) ≡ true
      → Books tree s q' 0 0
      → Mixed tree s (lift s obj source n) q 0 0
  lift_own-Mixed s obj source n q q' own b p = rw own (
      ground (
        arith,
        b p,
        count_of-insert p obj (count_of obj s.total_count + n) s.total_count,
        count_of-insert p obj (count_of obj s.source_count + n) s.source_count,
      ))

  -- The search leaves the counts, so it carries what they balance with.
  recounted :
      (t : Objection) (obj q m l : ℕ) (r : Objection × Option Context)
      → Caught tree t obj r
      → Books tree t q m l
      → Mixed tree t r.0 q m l
  recounted t obj q m l r g b p = ground (arith, b p, g.totals, g.sources)

  -- What `m_raise` does after the search.
  abbrev finish_raise : ℕ → Objection → Option Context → ℕ → ℕ → ℕ → Option Objection
  finish_raise fuel t caught obj source n = elim (next_object h t obj) [
    | none ↦ some t
    | some p ↦ elim caught [
      | none ↦ m_raise h fuel t p source n
      | some c ↦ elim (ltb c.count n) [
        | true ↦ m_raise h fuel t p source (n - c.count)
        | false ↦ elim (ltb n c.count) [
          | true ↦ m_drop h fuel t p source (c.count - n)
          | false ↦ some t
        ]
      ]
    ]
  ]

  GoesOn : ℕ → ℕ → ℕ → Type 0
  GoesOn fuel obj source =
      (t : Objection) (n : ℕ)
      → IsOwing tree t (m_get_parent h obj) n 0
      → Ends tree (m_raise h fuel t (m_get_parent h obj) source n)

  -- Below the top, with an amount to add and the caught count to take away.
  settle :
      (fuel : ℕ) (t : Objection) (caught : Option Context) (obj source n : ℕ)
      → (obj == h.top) ≡ false
      → tree.depth obj ≤ fuel
      → tree.depth obj ≤ tree.depth source
      → IsOwing tree t (m_get_parent h obj) n (caught_count caught)
      → GoesOn fuel obj source
      → Ends tree (finish_raise fuel t caught obj source n)
  unfolding GoesOn
  settle fuel t none obj source n below short deep v further =
      rw (finish_raise, next_object_up tree t obj v.0.hierarchical below) (further t n v)
  settle fuel t (some c) obj source n below short deep v further =
      rw (finish_raise, next_object_up tree t obj v.0.hierarchical below)
        (elim (Bool-cases (ltb c.count n)) [
          | inl less ↦ rw less (further t (n - c.count) (v.0, λ p. ground (arith, v.1 p)))
          | inr more ↦ rw more (elim (Bool-cases (ltb n c.count)) [
            | inl drops ↦ rw drops (
                let up : tree.depth (m_get_parent h obj) < tree.depth obj =
                  tree.climbs obj (ne_of_test tree obj h.top below) in
                m_drop-Ends tree fuel t (m_get_parent h obj) source (c.count - n) (omega arith)
                  (omega arith) (differs tree (m_get_parent h obj) source (omega arith))
                  (v.0, λ p. ground (arith, v.1 p)))
            | inr same ↦ rw same (t, refl, (v.0, λ p. ground (arith, v.1 p)))
          ])
        ])

  finish_raise-Ends :
      (fuel : ℕ) (s : Objection) (obj source n : ℕ)
      → IsSound tree s
      → tree.depth obj ≤ fuel
      → tree.depth obj ≤ tree.depth source
      → ((q : ℕ) → Mixed tree s (lift s obj source n) q 0 0)
      → ((obj == h.top) ≡ false → GoesOn fuel obj source)
      → (r : Objection × Option Context) → Caught tree (lift s obj source n) obj r
      → Ends tree (finish_raise fuel r.0 r.1 obj source n)
  finish_raise-Ends fuel s obj source n v short deep mixed further r g =
      elim (Bool-cases (obj == h.top)) [
        | inl at_top ↦
            rw (finish_raise, next_object_top tree r.0 obj at_top)
              (
                r.0,
                refl,
                (
                  g.sound,
                  top_loss-Books tree t r.0 obj (caught_count r.1) h.top 0 0 at_top g.less (
                      recounted t obj h.top 0 0 r g (
                        top_gain-Books tree s t obj n h.top 0 0 at_top (lift-flow s obj source n)
                          (mixed h.top))),
                ),
              )
        | inr below ↦
            settle fuel r.0 r.1 obj source n below short deep (g.sound, less below) (further below)
      ]
    where
      t : Objection
      t = lift s obj source n

      more : (obj == h.top) ≡ false → Books tree t (m_get_parent h obj) n 0
      more below =
          subst (λ k. Books tree t (m_get_parent h obj) k 0) (zero-add n)
            (gain-Books tree s t obj n 0 0 below (lift-flow s obj source n) (mixed _))

      less : (obj == h.top) ≡ false → Books tree r.0 (m_get_parent h obj) n (caught_count r.1)
      less below = subst (Books tree r.0 (m_get_parent h obj) n) (zero-add (caught_count r.1)) (
          loss-Books tree t r.0 obj (caught_count r.1) n 0 below g.less
            (recounted t obj _ n 0 r g (more below)))

  lift-IsSound :
      (s : Objection) (obj source n : ℕ) → IsSound tree s → IsSound tree (lift s obj source n)
  lift-IsSound s obj source n v = recount-IsSound tree s _ _ s.cleared s.top_all_dropped _ v

  m_raise-Ends :
      (fuel : ℕ) (s : Objection) (obj source n : ℕ)
      → tree.depth obj < fuel
      → tree.depth obj ≤ tree.depth source
      → (obj == source) ≡ false
      → IsOwing tree s obj n 0
      → Ends tree (m_raise h fuel s obj source n)
  unfolding m_raise GoesOn
  m_raise-Ends zero s obj source n short deep other v = absurd (omega arith)
  m_raise-Ends (suc fuel) s obj source n short deep other v =
      finish_raise-Ends fuel s obj source n v.0 (omega arith) deep
        (λ q. lift-Mixed s obj source n q other v.1)
        (λ below t m owed.
          let up : tree.depth (m_get_parent h obj) < tree.depth obj =
            tree.climbs obj (ne_of_test tree obj h.top below) in
          m_raise-Ends fuel t (m_get_parent h obj) source m (omega arith) (omega arith)
            (differs tree (m_get_parent h obj) source (omega arith)) owed)
        (catch_drain (lift s obj source n) obj)
        (catch_drain-Caught tree (lift s obj source n) obj (lift-IsSound s obj source n v.0))

  -- Raising any number of objections at any object, whatever drains it takes back on the way up, leaves
  -- balanced books balanced, and the call returns if its fuel exceeds the object's depth.
  pub raise_objection-IsBalanced :
      (fuel : ℕ) (s : Objection) (obj : Option ℕ) (n : ℕ)
      → tree.depth (or_object h obj) < fuel
      → IsBalanced tree s
      → Ends tree (raise_objection h fuel s obj n)
  unfolding raise_objection m_raise GoesOn flow
  raise_objection-IsBalanced zero s obj n short v = absurd (omega arith)
  raise_objection-IsBalanced (suc fuel) s o n short v =
      finish_raise-Ends fuel marked obj obj n sound (omega arith) (omega arith)
        (λ q. lift_own-Mixed marked obj obj n q h.top (ground arith) v.1)
        (λ below t m owed.
          let up : tree.depth (m_get_parent h obj) < tree.depth obj =
            tree.climbs obj (ne_of_test tree obj h.top below) in
          m_raise-Ends fuel t (m_get_parent h obj) obj m (omega arith) (omega arith)
            (differs tree (m_get_parent h obj) obj (omega arith)) owed)
        (catch_drain (lift marked obj obj n) obj)
        (catch_drain-Caught tree (lift marked obj obj n) obj (lift-IsSound marked obj obj n sound))
    where
      obj : ℕ
      obj = or_object h o

      marked : Objection
      marked = record s { cleared = false; top_all_dropped = false }

      sound : IsSound tree marked
      sound = recount-IsSound tree s s.source_count s.total_count false false s.log v.0
