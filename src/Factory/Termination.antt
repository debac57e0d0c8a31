-- ===== src/Factory/Termination.antt =====
-- The end of a search in a factory whose overrides were set by type.
use Prim.Native.String.{String}
use text.Mathlib.Text.{◌==◌ as str_eq}
use uvm_systemc.Common.{
  ◌⊎◌, ℕ, zero, suc, ◌<◌, ◌≡◌, refl, ap, ◌∙◌, Bool, true, false, ◌&&◌, Option, none, some, [], ◌∷◌,
  ◌++◌, arith, ◌==◌, ==_iff, if◌then◌else◌, inl, inr, Bool-cases, Option-cases, length,
}
use uvm_systemc.Common.Maps.{find, nat_key, string_key}
use uvm_systemc.Factory.{Override, Factory, Types, or_empty, is_type, first_match, overrides}
use uvm_systemc.Factory.Search.{Found, noted, next_override, find_override_by_type}
use uvm_systemc.Factory.Trace.{taken_for}
use uvm_systemc.Factory.Typed.{
  HasDistinctNames, IsTyped, IsTypedFactory, overrides-IsTyped, find-AllTyped,
}
use uvm_systemc.Factory.Fresh.{
  queued, all_overrides, done_for, done_with, fresh, fresh-length, fresh-append, taken_for-append,
  fresh-shrinks, fresh-drops, fresh-drops_queued, first_match_passes,
}

either_source :
    (empty : Bool) (here of_type : Option Override) (o : Override)
    → (if empty then of_type else elim here [ none ↦ of_type | some p ↦ some p ]) ≡ some o
    → (here ≡ some o) ⊎ (of_type ≡ some o)
either_source true here of_type o e = inr e
either_source false none of_type o e = inr e
either_source false (some p) of_type o e = inl e

-- Where the override of a step comes from.
next_override-cases :
    (types : Types) (f : Factory) (w : ℕ) (path : String) (o : Override)
    → next_override types f w path ≡ some o
    → (first_match
          (λ p. overrides types w p && types.uvm_is_match p.full_inst_path path)
          (or_empty (find w f.m_inst_override_queues))
        ≡ some o)
      ⊎ (first_match (overrides types w) f.m_type_overrides ≡ some o)
unfolding next_override
next_override-cases types f w path o e = either_source (str_eq path "") _ _ o e

and_left : (a b : Bool) → (a && b) ≡ true → a ≡ true
and_left a b h = ground arith

-- The override of a step is one of the type the step leaves.
next_override-IsTyped :
    (types : Types) (f : Factory) (w : ℕ) (path : String) (o : Override)
    → HasDistinctNames types
    → IsTypedFactory types f
    → next_override types f w path ≡ some o
    → o.orig_type ≡ some w
next_override-IsTyped types f w path o distinct t e =
    elim (next_override-cases types f w path o e) [
      | inl inst ↦
          let passed =
            first_match_passes _ (IsTyped types) (or_empty (find w f.m_inst_override_queues)) o
              (find-AllTyped types w f.m_inst_override_queues t.of_instances) inst in
          overrides-IsTyped types w o distinct passed.0 (and_left _ _ passed.1)
      | inr of_type ↦
          let passed =
            first_match_passes (overrides types w) (IsTyped types) f.m_type_overrides o t.of_types
              of_type in
          overrides-IsTyped types w o distinct passed.0 passed.1
    ]

-- A step leaves fewer overrides of types that were not left before.
step-fresh :
    (types : Types) (f : Factory) (w : ℕ) (path : String) (o : Override)
    → HasDistinctNames types
    → IsTypedFactory types f
    → next_override types f w path ≡ some o
    → taken_for w f.m_override_info ≡ false
    → fresh (f.m_override_info ++ (o ∷ [])) (all_overrides f)
      < fresh f.m_override_info (all_overrides f)
step-fresh types f w path o distinct t e unseen =
    let info = f.m_override_info in
    let split = fresh-append info f.m_type_overrides (queued f.m_inst_override_queues) in
    let split' =
      fresh-append (info ++ (o ∷ [])) f.m_type_overrides (queued f.m_inst_override_queues) in
    elim (next_override-cases types f w path o e) [
      | inl inst ↦ omega (
        arith,
        split,
        split',
        fresh-shrinks info o f.m_type_overrides,
        fresh-drops_queued info o _ w f.m_inst_override_queues inst before after,
      )
      | inr of_type ↦ omega (
        arith,
        split,
        split',
        fresh-shrinks info o (queued f.m_inst_override_queues),
        fresh-drops info o _ f.m_type_overrides of_type before after,
      )
    ]
  where
    is_w : o.orig_type ≡ some w
    is_w = next_override-IsTyped types f w path o distinct t e

    before : done_with o f.m_override_info ≡ false
    before = ap (λ q. done_for q f.m_override_info) is_w ∙ unseen

    itself : is_type o.orig_type w ≡ true
    itself = ap (λ q. is_type q w) is_w ∙ (==_iff w w).1 refl

    after : done_with o (f.m_override_info ++ (o ∷ [])) ≡ true
    after =
        ap (λ q. done_for q (f.m_override_info ++ (o ∷ []))) is_w
        ∙ taken_for-append w f.m_override_info o
        ∙ ground (arith, itself)

noted-IsTyped :
    (types : Types) (f : Factory) (o : Override)
    → IsTypedFactory types f
    → IsTypedFactory types (noted f o)
noted-IsTyped types f o t = record {
  of_types = t.of_types;
  of_instances = t.of_instances;
  no_wildcards = t.no_wildcards;
  no_names = t.no_names;
}

answers :
    (types : Types) (fuel : ℕ) (f : Factory) (w : ℕ) (path : String)
    → HasDistinctNames types
    → IsTypedFactory types f
    → fresh f.m_override_info (all_overrides f) < fuel
    → (r : Factory × Found) × (find_override_by_type types fuel f w path ≡ some r)
unfolding find_override_by_type
answers types zero f w path distinct t h = absurd (omega arith)
answers types (suc fuel) f w path distinct t h = elim (Bool-cases (taken_for w f.m_override_info)) [
  | inl seen ↦ rw seen (_, refl)
  | inr unseen ↦ elim (Option-cases (next_override types f w path)) [
    | inl nothing ↦ rw (unseen, nothing) (_, refl)
    | inr (o, e) ↦ elim (Bool-cases (o.ovrd_type == w)) [
      | inl self ↦ rw (unseen, e, self) (_, refl)
      | inr other ↦
          rw (unseen, e, other)
            (answers types fuel (noted f o) o.ovrd_type path distinct (noted-IsTyped types f o t)
              (omega (arith, h, step-fresh types f w path o distinct t e unseen)))
    ]
  ]
]

-- If types have different names and every override was set by type, a search by type ends: given more fuel
-- than the factory has overrides, it answers, for any type and path and whatever was noted before.
pub find_override_by_type-answers :
    (types : Types) (fuel : ℕ) (f : Factory) (w : ℕ) (path : String)
    → HasDistinctNames types
    → IsTypedFactory types f
    → length (all_overrides f) < fuel
    → (r : Factory × Found) × (find_override_by_type types fuel f w path ≡ some r)
find_override_by_type-answers types fuel f w path distinct t h =
    answers types fuel f w path distinct t
      (omega (arith, h, fresh-length f.m_override_info (all_overrides f)))
