-- ===== src/Factory/Steps.antt =====
-- The step of a search after an override has been set.
use Prim.Native.String.{String}
use uvm_systemc.Common.{
  ℕ, ◌≡◌, ◌≢◌, refl, ap, sym, ◌∙◌, Bool, true, false, Option, none, some, List, [], ◌∷◌, ◌++◌, map,
  if◌then◌else◌, All, inl, inr, Bool-cases, Option-cases,
}
use uvm_systemc.Common.Maps.{nat_key, string_key}
use uvm_systemc.Factory.{
  Override, Factory, Types, is_some, first_match, overrides, new_override,
  set_type_override_by_type,
}
use uvm_systemc.Factory.Search.{next_override}
use uvm_systemc.Factory.Typed.{HasDistinctNames, IsTyped, IsTypedFactory}
use uvm_systemc.Factory.Overrides.{
  entries_after, changed, set_type_entries, first_match-append, first_match-changed,
  first_match-others, overrides-own, overrides-other, next_same,
}

-- What an override by `v` makes of the override there was.
abbrev pub by_or : Option Override → ℕ → ℕ
by_or none v = v
by_or (some p) v = p.ovrd_type

some_of : (r : Option Override) → is_some r ≡ true → (o : Override) × (r ≡ some o)
some_of none e = absurd (cc)
some_of (some o) e = (o, refl)

-- The entry of a new type override applies to its type, behind others that do not.
first_match-new :
    (types : Types) (os : List Override) (w v : ℕ)
    → first_match (overrides types w) os ≡ none
    → (o : Override) × (first_match
          (overrides types w)
          (os ++ (new_override types "*" (types.get_type_name w) (some w) v ∷ []))
        ≡ some o)
      × (o.ovrd_type ≡ v)
unfolding new_override
first_match-new types os w v nothing =
    let new = new_override types "*" (types.get_type_name w) (some w) v in
    (
      new,
      first_match-append (overrides types w) os new
          ∙ ap (λ r. if is_some r then r else if overrides types w new then some new else none)
              nothing
          ∙ ap (λ b. if b then some new else none) (overrides-own types w new refl),
      refl,
    )

same_either : (b : Bool) (v : ℕ) → v ≡ (if b then v else v)
same_either true v = refl
same_either false v = refl

entries_after-own :
    (types : Types) (os : List Override) (w v : ℕ) (replace : Bool)
    → (o : Override) × (first_match (overrides types w) (entries_after types os w v replace)
        ≡ some o)
      × (o.ovrd_type ≡ (if replace then v else by_or (first_match (overrides types w) os) v))
entries_after-own types os w v replace = elim (Option-cases (first_match (overrides types w) os)) [
  | inl nothing ↦
      let (o, found, by) = first_match-new types os w v nothing in
      rw nothing (o, found, by ∙ same_either replace v)
  | inr (p, e) ↦ elim (Bool-cases replace) [
    | inl on ↦ rw (e, on) (first_match-changed types w v os (ap is_some e))
    | inr off ↦ rw (e, off) (p, e, refl)
  ]
]

entries_after-others :
    (types : Types) (os : List Override) (w v c : ℕ) (replace : Bool)
    → HasDistinctNames types
    → All (IsTyped types) os
    → c ≢ w
    → first_match (overrides types c) (entries_after types os w v replace)
      ≡ first_match (overrides types c) os
unfolding new_override
entries_after-others types os w v c replace distinct t differ =
    elim (Option-cases (first_match (overrides types w) os)) [
      | inl nothing ↦
          let new = new_override types "*" (types.get_type_name w) (some w) v in
          let no =
            overrides-other types w c new distinct
              (record { original = w; has_type = refl; has_name = refl }) refl differ in
          ap
            (λ r. first_match (overrides types c) (
              if is_some r
              then (if replace then map (changed types w v) os else os)
              else os ++ (new ∷ [])))
            nothing
          ∙ first_match-append (overrides types c) os new
          ∙ ap
              (λ b.
                if is_some (first_match (overrides types c) os)
                then first_match (overrides types c) os
                else if b
                then some new
                else none)
              no
          ∙ either (first_match (overrides types c) os)
      | inr (p, e) ↦ elim (Bool-cases replace) [
        | inl on ↦ rw (e, on) (first_match-others types w v c os distinct t differ)
        | inr off ↦ rw (e, off) refl
      ]
    ]
  where
    either : (r : Option Override) → (if is_some r then r else none) ≡ r
    either none = refl
    either (some p) = refl

next_no_path :
    (types : Types) (f : Factory) (w : ℕ)
    → next_override types f w "" ≡ first_match (overrides types w) f.m_type_overrides
unfolding next_override
next_no_path types f w = refl

next_of_entries :
    (types : Types) (f : Factory) (os : List Override) (c : ℕ) (path : String)
    → first_match (overrides types c) os ≡ first_match (overrides types c) f.m_type_overrides
    → next_override types (record f { m_type_overrides = os }) c path ≡ next_override types f c path
unfolding next_override
next_of_entries types f os c path e = cc (e)

-- After a type override has been set by type, the step of a search without a path leaves the original type
-- by an override to the new type, or, if the override there was is not to be replaced, to the type it was
-- to; and the steps from other types are as before, on any path. Types have different names, and every
-- override was set by type.
pub set_type_override_by_type-step :
    (types : Types) (f : Factory) (w v c : ℕ) (replace : Bool) (path : String)
    → HasDistinctNames types
    → IsTypedFactory types f
    → w ≢ v
    → c ≢ w
    → ((o : Override) × (next_override types (set_type_override_by_type types f w v replace) w ""
          ≡ some o)
        × (o.ovrd_type ≡ (if replace then v else by_or (next_override types f w "") v)))
      × (next_override types (set_type_override_by_type types f w v replace) c path
          ≡ next_override types f c path)
set_type_override_by_type-step types f w v c replace path distinct t differ other =
    let g = record f { m_type_overrides = entries_after types f.m_type_overrides w v replace } in
    let set = set_type_entries types f w v replace t differ in
    let (o, found, by) = entries_after-own types f.m_type_overrides w v replace in
    (
      (
        o,
        next_same types (set_type_override_by_type types f w v replace) g w "" set
            ∙ next_no_path types g w
            ∙ found,
        by ∙ ap (λ r. if replace then v else by_or r v) (sym (next_no_path types f w)),
      ),
      next_same types (set_type_override_by_type types f w v replace) g c path set
          ∙ next_of_entries types f _ c path (
              entries_after-others types f.m_type_overrides w v c replace distinct t.of_types
                other),
    )
