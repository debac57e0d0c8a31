-- ===== src/Objection/Drop.antt =====
-- Drops: `m_drop` and `drop_objection` keep the books of an objection balanced, and end.
use uvm_systemc.Common.{
  ℕ, zero, suc, ◌-◌, ◌≤◌, ◌<◌, ◌≡◌, refl, subst, true, false, not, ◌&&◌, ◌||◌, Option, none, some,
  arith, ◌==◌, if◌then◌else◌, Bool-cases, inl, inr,
}
use native.Mathlib.Nat.{zero-add}
use uvm_systemc.Common.Maps.{Map, nat_key}
use uvm_systemc.Objection.Hierarchy.{Objects, IsTree, m_get_parent}
use uvm_systemc.Objection.{
  Objection, count_of, lower, schedule, covers, refuse_drop, next_object, m_drop, or_object,
  drop_objection,
}
use uvm_systemc.Objection.Ledger.{count_of-insert}
use uvm_systemc.Objection.Updates.{
  Books, Mixed, gain-Books, loss-Books, top_gain-Books, top_loss-Books, lower-flow, schedule-flow,
}
use uvm_systemc.Objection.Balance.{
  IsSound, IsOwing, IsBalanced, recount-IsSound, schedule-IsSound, refuse_drop-IsBalanced,
  move-debt, next_object_up, next_object_top, Ends, ne_of_test, differs,
}

module _ {h : Objects} (tree : IsTree h) where
  -- What `m_drop` does after lowering the counts.
  abbrev finish_drop : ℕ → Objection → ℕ → ℕ → ℕ → Option Objection
  finish_drop fuel t obj source n =
      if count_of obj t.total_count == 0
      then some (schedule t obj source n)
      else elim (next_object h t obj) [ none ↦ some t | some p ↦ m_drop h fuel t p source n ]

  finish_drop-Ends :
      (fuel : ℕ) (s : Objection) (obj source n : ℕ)
      → IsSound tree s
      → n ≤ count_of obj s.total_count
      → tree.depth obj ≤ tree.depth source
      → ((q : ℕ) → Mixed tree s (lower s obj source n) q 0 0)
      → ((obj == h.top) ≡ false
          → IsOwing tree (lower s obj source n) (m_get_parent h obj) 0 n
          → Ends tree (m_drop h fuel (lower s obj source n) (m_get_parent h obj) source n))
      → Ends tree (finish_drop fuel (lower s obj source n) obj source n)
  finish_drop-Ends fuel s obj source n v enough deep mixed further =
      elim (Bool-cases (obj == h.top)) [
        | inl at_top ↦ elim (Bool-cases (count_of obj t.total_count == 0)) [
          | inl nothing ↦ rw nothing (
            schedule t obj source n,
            refl,
            (
              schedule-IsSound tree t obj source n deep sound,
              top_gain-Books tree t (schedule t obj source n) obj n h.top 0 0 at_top
                  (schedule-flow t obj source n) (settled at_top),
            ),
          )
          | inr more ↦
              rw (more, next_object_top tree t obj at_top) (t, refl, (sound, settled at_top))
        ]
        | inr below ↦ elim (Bool-cases (count_of obj t.total_count == 0)) [
          | inl nothing ↦ rw nothing (
            schedule t obj source n,
            refl,
            (schedule-IsSound tree t obj source n deep sound, balanced below),
          )
          | inr more ↦
              rw (more, next_object_up tree t obj v.hierarchical below)
                (further below (sound, owed below))
        ]
      ]
    where
      t : Objection
      t = lower s obj source n

      sound : IsSound tree t
      sound =
          recount-IsSound tree s t.source_count t.total_count s.cleared s.top_all_dropped t.log v

      owed : (obj == h.top) ≡ false → Books tree t (m_get_parent h obj) 0 n
      owed below =
          subst (Books tree t (m_get_parent h obj) 0) (zero-add n) (
            loss-Books tree s t obj n 0 0 below (λ c. lower-flow s obj source n c enough) (mixed _))

      settled : (obj == h.top) ≡ true → Books tree t h.top 0 0
      settled at_top =
          top_loss-Books tree s t obj n h.top 0 0 at_top (λ c. lower-flow s obj source n c enough)
            (mixed h.top)

      balanced : (obj == h.top) ≡ false → Books tree (schedule t obj source n) h.top 0 0
      balanced below p = ground (
        arith,
        gain-Books tree t (schedule t obj source n) obj n 0 n below (schedule-flow t obj source n)
            (owed below) p,
      )

  lower-Mixed :
      (s : Objection) (obj source n q : ℕ)
      → n ≤ count_of obj s.total_count
      → (obj == source) ≡ false
      → Books tree s obj 0 n
      → Mixed tree s (lower s obj source n) q 0 0
  lower-Mixed s obj source n q enough other b p =
      rw other
        (ground (arith, b p, count_of-insert p obj (count_of obj s.total_count - n) s.total_count))

  lower_own-Mixed :
      (s : Objection) (obj source n q q' : ℕ)
      → n ≤ count_of obj s.total_count
      → n ≤ count_of obj s.source_count
      → (obj == source) ≡ true
      → Books tree s q' 0 0
      → Mixed tree s (lower s obj source n) q 0 0
  lower_own-Mixed s obj source n q q' enough enough' own b p = rw own (
      ground (
        arith,
        b p,
        count_of-insert p obj (count_of obj s.total_count - n) s.total_count,
        count_of-insert p obj (count_of obj s.source_count - n) s.source_count,
      ))

  covers-le : (obj n : ℕ) (m : Map ℕ ℕ) → covers obj n m ≡ true → n ≤ count_of obj m
  unfolding count_of
  covers-le obj n m c = ground arith

  covers_of_positive :
      (obj n : ℕ) (m : Map ℕ ℕ) → 0 < n → n ≤ count_of obj m → covers obj n m ≡ true
  unfolding count_of
  covers_of_positive obj n m pos c = ground arith

  -- A drop that is owed is refused only if it is of nothing.
  refused-Ends :
      (s : Objection) (obj n : ℕ)
      → IsOwing tree s obj 0 n
      → covers obj n s.total_count ≡ false
      → Ends tree (some (refuse_drop s obj))
  refused-Ends s obj zero v r = (
    refuse_drop s obj,
    refl,
    refuse_drop-IsBalanced tree s obj (v.0, move-debt tree s obj h.top v.1),
  )
  refused-Ends s obj (suc n) v r =
      absurd (ground (arith, v.1 obj, covers_of_positive obj (suc n) s.total_count))

  -- A drop that an object owes to its books ends with the books balanced.
  pub m_drop-Ends :
      (fuel : ℕ) (s : Objection) (obj source n : ℕ)
      → tree.depth obj < fuel
      → tree.depth obj ≤ tree.depth source
      → (obj == source) ≡ false
      → IsOwing tree s obj 0 n
      → Ends tree (m_drop h fuel s obj source n)
  unfolding m_drop
  m_drop-Ends zero s obj source n short deep other v = absurd (omega arith)
  m_drop-Ends (suc fuel) s obj source n short deep other v =
      elim (Bool-cases
        (covers obj n s.total_count && (not (obj == source) || covers obj n s.source_count))) [
          | inr refused ↦ rw refused (refused-Ends s obj n v (ground arith))
          | inl ok ↦ rw ok (
              finish_drop-Ends fuel s obj source n v.0 (enough ok) deep
                (λ q. lower-Mixed s obj source n q (enough ok) other v.1)
                λ below owed.
                  let up : tree.depth (m_get_parent h obj) < tree.depth obj =
                    tree.climbs obj (ne_of_test tree obj h.top below) in
                  m_drop-Ends fuel (lower s obj source n) (m_get_parent h obj) source n
                    (omega arith) (omega arith)
                    (differs tree (m_get_parent h obj) source (omega arith)) owed)
        ]
    where
      enough :
          (covers obj n s.total_count && (not (obj == source) || covers obj n s.source_count))
            ≡ true
          → n ≤ count_of obj s.total_count
      enough ok = covers-le obj n s.total_count (ground arith)

  -- Dropping any number of objections at any object leaves balanced books balanced, and the call
  -- returns if its fuel exceeds the object's depth.
  pub drop_objection-IsBalanced :
      (fuel : ℕ) (s : Objection) (obj : Option ℕ) (n : ℕ)
      → tree.depth (or_object h obj) < fuel
      → IsBalanced tree s
      → Ends tree (drop_objection h fuel s obj n)
  unfolding drop_objection m_drop
  drop_objection-IsBalanced zero s obj n short v = absurd (omega arith)
  drop_objection-IsBalanced (suc fuel) s o n short v =
      elim (Bool-cases
        (covers obj n s.total_count && (not (obj == obj) || covers obj n s.source_count))) [
          | inr refused ↦ rw refused (refuse_drop s obj, refl, refuse_drop-IsBalanced tree s obj v)
          | inl ok ↦ rw ok (
              finish_drop-Ends fuel s obj obj n v.0 (enough ok) (omega arith)
                (λ q.
                  lower_own-Mixed s obj obj n q h.top (enough ok) (enough' ok) (ground arith) v.1)
                λ below owed.
                  let up : tree.depth (m_get_parent h obj) < tree.depth obj =
                    tree.climbs obj (ne_of_test tree obj h.top below) in
                  m_drop-Ends fuel (lower s obj obj n) (m_get_parent h obj) obj n (omega arith)
                    (omega arith) (differs tree (m_get_parent h obj) obj (omega arith)) owed)
        ]
    where
      obj : ℕ
      obj = or_object h o

      enough :
          (covers obj n s.total_count && (not (obj == obj) || covers obj n s.source_count)) ≡ true
          → n ≤ count_of obj s.total_count
      enough ok = covers-le obj n s.total_count (ground arith)

      enough' :
          (covers obj n s.total_count && (not (obj == obj) || covers obj n s.source_count)) ≡ true
          → n ≤ count_of obj s.source_count
      enough' ok = covers-le obj n s.source_count (ground arith)
