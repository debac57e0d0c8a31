-- ===== src/Objection/Hierarchy.antt =====
-- The objects that raise objections and `uvm_objection::m_get_parent`
-- (src/uvmsc/phasing/uvm_objection.cpp). An `uvm_object*` is a number.
use uvm_systemc.Common.{
  ℕ, ◌+◌, ◌<◌, ◌≡◌, ◌≢◌, Option, none, some, List, [], ◌∷◌, ◌==◌, if◌then◌else◌,
}

-- A component has a parent component, a sequence the sequencer that it runs on; each may be null.
pub data Kind : Type 0 where
  component : Option ℕ → Kind
  sequence : Option ℕ → Kind
  other_object : Kind

pub record Objects : Type 0 where
  pub top : ℕ
  pub kind_of : ℕ → Kind

abbrev or_top : Objects → Option ℕ → ℕ
or_top h none = h.top
or_top h (some p) = p

abbrev parent_of_kind : Objects → Kind → ℕ
parent_of_kind h (component p) = or_top h p
parent_of_kind h (sequence s) = or_top h s
parent_of_kind h other_object = h.top

unfoldable pub m_get_parent : Objects → ℕ → ℕ
m_get_parent h obj = parent_of_kind h (h.kind_of obj)

abbrev pub occurrences : ℕ → List ℕ → ℕ
occurrences c [] = 0
occurrences c (x ∷ xs) = (if x == c then 1 else 0) + occurrences c xs

-- What the component tree gives: the way up from an object ends at the top, and the children of an
-- object are listed once each.
pub record IsTree (h : Objects) : Type 0 where
  pub depth : ℕ → ℕ
  pub climbs : (c : ℕ) → c ≢ h.top → depth (m_get_parent h c) < depth c
  pub children : ℕ → List ℕ
  pub lists :
      (p c : ℕ)
      → occurrences c (children p)
        ≡ (if c == h.top then 0 else if m_get_parent h c == p then 1 else 0)
