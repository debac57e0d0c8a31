-- ===== src/Objection/Updates.antt =====
-- How the updates of the counts and of the pending drains move the books of an objection.
use uvm_systemc.Common.{
  ℕ, ◌+◌, ◌-◌, ◌*◌, ◌≤◌, ◌≡◌, Bool, true, false, [], ◌∷◌, arith, ◌==◌, if◌then◌else◌,
}
use uvm_systemc.Common.Maps.{nat_key}
use uvm_systemc.Objection.Hierarchy.{Objects, IsTree, occurrences, m_get_parent}
use uvm_systemc.Objection.{Objection, count_of, is_own, lift, lower, schedule}
use uvm_systemc.Objection.Ledger.{
  count_of-insert, flow, sum_flows, pending_in-append, sum_flows-gain,
}

module _ {h : Objects} (tree : IsTree h) where
  open tree use {children, lists}

  -- The books balance, but for what the object `q` has still to add (`m`) or to take away (`l`).
  abbrev pub Books : Objection → ℕ → ℕ → ℕ → Type 0
  Books s q m l =
      (p : ℕ)
      → count_of p s.total_count + (if q == p then m else 0)
        ≡ count_of p s.source_count + sum_flows s (children p) + (if q == p then l else 0)

  gain_at : ℕ → ℕ → ℕ → ℕ
  gain_at obj d p = if obj == h.top then 0 else if m_get_parent h obj == p then d else 0

  one-or-none : (obj d p : ℕ) → d * occurrences obj (children p) ≡ gain_at obj d p
  unfolding gain_at
  one-or-none obj d p = rw (lists p obj) (by_cases (obj == h.top) (m_get_parent h obj == p))
    where
      by_cases :
          (a b : Bool)
          → d * (if a then 0 else if b then 1 else 0) ≡ (if a then 0 else if b then d else 0)
      by_cases true b = omega arith
      by_cases false true = omega arith
      by_cases false false = omega arith

  sum-gain :
      (s t : Objection) (obj d p : ℕ)
      → ((c : ℕ) → flow t c ≡ flow s c + (if obj == c then d else 0))
      → sum_flows t (children p) ≡ sum_flows s (children p) + gain_at obj d p
  sum-gain s t obj d p g =
      omega (arith, sum_flows-gain s t obj d (children p) g, one-or-none obj d p)

  -- The counts of `t` against the flows of `s`.
  abbrev pub Mixed : Objection → Objection → ℕ → ℕ → ℕ → Type 0
  Mixed s t q m l =
      (p : ℕ)
      → count_of p t.total_count + (if q == p then m else 0)
        ≡ count_of p t.source_count + sum_flows s (children p) + (if q == p then l else 0)

  -- An object below the top that passes on more: its parent has that much to add.
  pub gain-Books :
      (s t : Objection) (obj d m l : ℕ)
      → (obj == h.top) ≡ false
      → ((c : ℕ) → flow t c ≡ flow s c + (if obj == c then d else 0))
      → Mixed s t (m_get_parent h obj) m l
      → Books t (m_get_parent h obj) (m + d) l
  unfolding gain_at
  gain-Books s t obj d m l below g b p = ground (arith, sum-gain s t obj d p g, b p)

  -- An object below the top that passes on less: its parent has that much to take away.
  pub loss-Books :
      (s t : Objection) (obj d m l : ℕ)
      → (obj == h.top) ≡ false
      → ((c : ℕ) → flow s c ≡ flow t c + (if obj == c then d else 0))
      → Mixed s t (m_get_parent h obj) m l
      → Books t (m_get_parent h obj) m (l + d)
  unfolding gain_at
  loss-Books s t obj d m l below g b p = ground (arith, sum-gain t s obj d p g, b p)

  -- What the top passes on counts nowhere.
  pub top_gain-Books :
      (s t : Objection) (obj d q m l : ℕ)
      → (obj == h.top) ≡ true
      → ((c : ℕ) → flow t c ≡ flow s c + (if obj == c then d else 0))
      → Mixed s t q m l
      → Books t q m l
  unfolding gain_at
  top_gain-Books s t obj d q m l at_top g b p = ground (arith, sum-gain s t obj d p g, b p)

  pub top_loss-Books :
      (s t : Objection) (obj d q m l : ℕ)
      → (obj == h.top) ≡ true
      → ((c : ℕ) → flow s c ≡ flow t c + (if obj == c then d else 0))
      → Mixed s t q m l
      → Books t q m l
  unfolding gain_at
  top_loss-Books s t obj d q m l at_top g b p = ground (arith, sum-gain t s obj d p g, b p)

-- `lift` and `lower` on the counts and flows.
pub lift-flow :
    (s : Objection) (obj source n c : ℕ)
    → flow (lift s obj source n) c ≡ flow s c + (if obj == c then n else 0)
unfolding flow
lift-flow s obj source n c =
    ground (arith, count_of-insert c obj (count_of obj s.total_count + n) s.total_count)

pub lower-flow :
    (s : Objection) (obj source n c : ℕ)
    → n ≤ count_of obj s.total_count
    → flow s c ≡ flow (lower s obj source n) c + (if obj == c then n else 0)
unfolding flow
lower-flow s obj source n c h =
    ground (arith, count_of-insert c obj (count_of obj s.total_count - n) s.total_count)

pub schedule-flow :
    (s : Objection) (obj source n c : ℕ)
    → flow (schedule s obj source n) c ≡ flow s c + (if obj == c then n else 0)
unfolding flow
schedule-flow s obj source n c = ground (
  arith,
  pending_in-append (is_own s.self c) s.scheduled
      (record { obj = obj; source = source; count = n; objection = s.self } ∷ []),
)
