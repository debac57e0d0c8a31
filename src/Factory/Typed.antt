-- ===== src/Factory/Typed.antt =====
-- Factories whose overrides were set by type, and types with different names.
use Prim.Native.String.{String}
use text.Mathlib.Text.{◌==◌ as str_eq}
use text.Mathlib.TextEquality.{eq_iff}
use uvm_systemc.Common.{
  ℕ, ◌≡◌, refl, ap, sym, ◌∙◌, Bool, true, ◌&&◌, ◌||◌, some, List, [], ◌∷◌, arith, ◌==◌, ==_iff, All,
  inl, inr, Bool-cases,
}
use uvm_systemc.Common.Maps.{Map, find, insert, nat_key, string_key}
use uvm_systemc.Factory.{
  Override, Factory, Types, or_empty, is_type, is_named, overrides, new_override,
}

-- Types with one name are one type.
abbrev pub HasDistinctNames : Types → Type 0
HasDistinctNames types =
    (a b : ℕ)
    → is_named (types.get_type_name a) ≡ true
    → types.get_type_name a ≡ types.get_type_name b
    → a ≡ b

pub record IsTyped (types : Types) (o : Override) : Type 0 where
  pub original : ℕ
  pub has_type : o.orig_type ≡ some original
  pub has_name : o.orig_type_name ≡ types.get_type_name original

abbrev pub AllTyped : Types → List Override → Type 0
AllTyped types os = All (IsTyped types) os

abbrev pub AllQueues : Types → Map ℕ (List Override) → Type 0
AllQueues types m = All (λ e. AllTyped types e.1) m

-- No override waits for a type by its name.
pub record IsTypedFactory (types : Types) (f : Factory) : Type 0 where
  pub of_types : All (IsTyped types) f.m_type_overrides
  pub of_instances : AllQueues types f.m_inst_override_queues
  pub no_wildcards : f.m_wildcard_inst_overrides ≡ []
  pub no_names : f.m_inst_override_name_queues ≡ []

-- An override that applies to a type is an override of that type.
pub overrides-IsTyped :
    (types : Types) (w : ℕ) (o : Override)
    → HasDistinctNames types
    → IsTyped types o
    → overrides types w o ≡ true
    → o.orig_type ≡ some w
unfolding overrides
overrides-IsTyped types w o distinct t e = elim (Bool-cases (is_type o.orig_type w)) [
  | inl same ↦
      t.has_type ∙ ap some ((==_iff t.original w).0 (ap (λ v. is_type v w) (sym t.has_type) ∙ same))
  | inr other ↦
      let named : (is_named o.orig_type_name && str_eq o.orig_type_name (types.get_type_name w))
          ≡ true =
        ap
          (λ b. b || (is_named o.orig_type_name && str_eq o.orig_type_name (types.get_type_name w)))
          (sym other)
        ∙ e in
      let both = and_true _ _ named in
      t.has_type
      ∙ ap some (
          distinct t.original w (ap is_named (sym t.has_name) ∙ both.0)
            (sym t.has_name ∙ (eq_iff o.orig_type_name (types.get_type_name w)).0 both.1))
]
  where
    and_true : (a b : Bool) → (a && b) ≡ true → (a ≡ true) × (b ≡ true)
    and_true a b h = ground arith

pub new_override-IsTyped :
    (types : Types) (path : String) (w v : ℕ)
    → IsTyped types (new_override types path (types.get_type_name w) (some w) v)
unfolding new_override
new_override-IsTyped types path w v = record { original = w; has_type = refl; has_name = refl }

pub find-AllTyped :
    (types : Types) (w : ℕ) (m : Map ℕ (List Override))
    → AllQueues types m
    → AllTyped types (or_empty (find w m))
unfolding find
find-AllTyped types w [] t = tt
find-AllTyped types w ((j, q) ∷ m) t = elim (Bool-cases (j == w)) [
  | inl here ↦ rw here (t.0)
  | inr later ↦ rw later (find-AllTyped types w m t.1)
]

pub insert-AllTyped :
    (types : Types) (w : ℕ) (q : List Override) (m : Map ℕ (List Override))
    → AllTyped types q
    → AllQueues types m
    → AllQueues types (insert w q m)
unfolding insert
insert-AllTyped types w q [] t ts = (t, tt)
insert-AllTyped types w q ((j, r) ∷ m) t ts = elim (Bool-cases (j == w)) [
  | inl here ↦ rw here (t, ts.1)
  | inr later ↦ rw later (ts.0, insert-AllTyped types w q m t ts.1)
]
