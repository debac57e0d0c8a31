-- ===== src/Factory/Overrides.antt =====
-- What setting an override changes in the steps of a search.
use Prim.Native.String.{String}
use text.Mathlib.Text.{◌==◌ as str_eq}
use uvm_systemc.Common.{
  ℕ, ◌≡◌, ◌≢◌, refl, ap, sym, ◌∙◌, Bool, true, false, not, ◌&&◌, ◌||◌, none, some, List, [], ◌∷◌,
  ◌++◌, map, arith, ◌==◌, ==_iff, if◌then◌else◌, All, inl, inr, Bool-cases,
}
use uvm_systemc.Common.Maps.{find, insert, nat_key, string_key}
use uvm_systemc.Factory.{
  Override, Factory, Types, is_some, is_type, is_named, first_match, overrides, new_override,
  register_name, do_register, register_both, set_type_override_by_type,
}
use uvm_systemc.Factory.Search.{next_override}
use uvm_systemc.Factory.Typed.{HasDistinctNames, IsTyped, IsTypedFactory, overrides-IsTyped}
use uvm_systemc.Factory.Setting.{adopt_nothing, do_register-IsTyped, register_name-IsTyped}

-- The overrides of two factories are the same.
abbrev pub SameOverrides : Factory → Factory → Type 0
SameOverrides g f =
    (g.m_type_overrides ≡ f.m_type_overrides)
    × (g.m_inst_override_queues ≡ f.m_inst_override_queues)

register_name_same :
    (types : Types) (f : Factory) (w : ℕ) → SameOverrides (register_name types f w) f
unfolding register_name
register_name_same types f w =
    elim (Bool-cases (
      is_named (types.get_type_name w)
      && not (is_some (find (types.get_type_name w) f.m_type_names)))) [
        | inl new ↦ rw new (refl, refl)
        | inr old ↦ rw old (refl, refl)
      ]

do_register_same :
    (types : Types) (f : Factory) (w : ℕ)
    → IsTypedFactory types f
    → SameOverrides (do_register types f w) f
unfolding do_register
do_register_same types f w t =
    let g = register_name types f w in
    let named = register_name-IsTyped types f w t in
    let same = register_name_same types f w in
    elim (Bool-cases (is_some (find w g.m_types))) [
      | inl known ↦ rw known same
      | inr new ↦
          let h = record g { m_types = insert w true g.m_types } in
          let e = adopt_nothing types h w (record {
            of_types = named.of_types;
            of_instances = named.of_instances;
            no_wildcards = named.no_wildcards;
            no_names = named.no_names;
          }) in
          rw new
            (ap Factory.m_type_overrides e ∙ same.0, ap Factory.m_inst_override_queues e ∙ same.1)
    ]

register_if_same :
    (types : Types) (f : Factory) (b : Bool) (w : ℕ)
    → IsTypedFactory types f
    → IsTypedFactory types (if b then f else do_register types f w)
      × SameOverrides (if b then f else do_register types f w) f
register_if_same types f true w t = (t, (refl, refl))
register_if_same types f false w t = (do_register-IsTyped types f w t, do_register_same types f w t)

-- Registration leaves the overrides as they are when nothing waits for a type.
pub register_both_same :
    (types : Types) (f : Factory) (w v : ℕ)
    → IsTypedFactory types f
    → SameOverrides (register_both types f w v) f
unfolding register_both
register_both_same types f w v t =
    let one = register_if_same types f (is_some (find w f.m_types)) w t in
    let g = if is_some (find w f.m_types) then f else do_register types f w in
    let two = register_if_same types g (is_some (find w g.m_types)) v one.0 in
    (two.1.0 ∙ one.1.0, two.1.1 ∙ one.1.1)

-- A step depends on the overrides alone.
pub next_same :
    (types : Types) (g f : Factory) (w : ℕ) (path : String)
    → SameOverrides g f
    → next_override types g w path ≡ next_override types f w path
unfolding next_override
next_same types g f w path e = cc (e.0, e.1)

pub first_match-append :
    (test : Override → Bool) (os : List Override) (o : Override)
    → first_match test (os ++ (o ∷ [])) ≡ (
        if is_some (first_match test os)
        then first_match test os
        else if test o
        then some o
        else none)
first_match-append test [] o = refl
first_match-append test (p ∷ os) o = ground (arith, first_match-append test os o)

itself : (w : ℕ) → (w == w) ≡ true
itself w = (==_iff w w).1 refl

-- The rewritten entry of a replaced override.
abbrev pub changed : Types → ℕ → ℕ → Override → Override
changed types w v o =
    if overrides types w o
    then record o {
      orig_type = some w;
      orig_type_name = types.get_type_name w;
      ovrd_type = v;
      ovrd_type_name = types.get_type_name v;
    }
    else o

pub overrides-own :
    (types : Types) (w : ℕ) (o : Override) → o.orig_type ≡ some w → overrides types w o ≡ true
unfolding overrides
overrides-own types w o e =
    ap
      (λ q.
        is_type q w
        || (is_named o.orig_type_name && str_eq o.orig_type_name (types.get_type_name w)))
      e
    ∙ ap (λ b. b || (is_named o.orig_type_name && str_eq o.orig_type_name (types.get_type_name w)))
        (itself w)

pub first_match-changed :
    (types : Types) (w v : ℕ) (os : List Override)
    → is_some (first_match (overrides types w) os) ≡ true
    → (o : Override) × (first_match (overrides types w) (map (changed types w v) os) ≡ some o)
      × (o.ovrd_type ≡ v)
first_match-changed types w v [] e = absurd (cc)
first_match-changed types w v (p ∷ os) e = elim (Bool-cases (overrides types w p)) [
  | inl here ↦
      let q = record p {
        orig_type = some w;
        orig_type_name = types.get_type_name w;
        ovrd_type = v;
        ovrd_type_name = types.get_type_name v;
      } in
      (q, rw (here, overrides-own types w q refl) refl, refl)
  | inr later ↦
      let e' : is_some (first_match (overrides types w) os) ≡ true =
        sym (ap (λ b. is_some (if b then some p else first_match (overrides types w) os)) later)
        ∙ e in
      let (o, found, by) = first_match-changed types w v os e' in (o, rw (later, later) found, by)
]

some_injective : {a b : ℕ} → some a ≡ some b → a ≡ b
some_injective e = cc

-- An override of one type does not apply to another.
pub overrides-other :
    (types : Types) (w c : ℕ) (o : Override)
    → HasDistinctNames types
    → IsTyped types o
    → o.orig_type ≡ some w
    → c ≢ w
    → overrides types c o ≡ false
overrides-other types w c o distinct t e differ = elim (Bool-cases (overrides types c o)) [
  | inl applies ↦
      absurd (differ (some_injective (sym (overrides-IsTyped types c o distinct t applies) ∙ e)))
  | inr not_it ↦ not_it
]

-- The entries of other types are not touched.
pub first_match-others :
    (types : Types) (w v c : ℕ) (os : List Override)
    → HasDistinctNames types
    → All (IsTyped types) os
    → c ≢ w
    → first_match (overrides types c) (map (changed types w v) os)
      ≡ first_match (overrides types c) os
first_match-others types w v c [] distinct t differ = refl
first_match-others types w v c (p ∷ os) distinct t differ =
    let rest = first_match-others types w v c os distinct t.1 differ in
    let q = record p {
      orig_type = some w;
      orig_type_name = types.get_type_name w;
      ovrd_type = v;
      ovrd_type_name = types.get_type_name v;
    } in
    elim (Bool-cases (overrides types w p)) [
      | inl here ↦
          let no =
            overrides-other types w c p distinct t.0 (overrides-IsTyped types w p distinct t.0 here)
              differ in
          let no' =
            overrides-other types w c q distinct
              (record { original = w; has_type = refl; has_name = refl }) refl differ in
          ap
            (λ b.
              first_match (overrides types c) ((if b then q else p) ∷ map (changed types w v) os))
            here
          ∙ ap
              (λ b.
                if b then some q else first_match (overrides types c) (map (changed types w v) os))
              no'
          ∙ rest
          ∙ sym (ap (λ b. if b then some p else first_match (overrides types c) os) no)
      | inr later ↦
          ap
            (λ b.
              first_match (overrides types c) ((if b then q else p) ∷ map (changed types w v) os))
            later
          ∙ ap (λ r. if overrides types c p then some p else r) rest
    ]

-- The type overrides after an override by type has been set, on those before.
abbrev pub entries_after : Types → List Override → ℕ → ℕ → Bool → List Override
entries_after types os w v replace =
    if is_some (first_match (overrides types w) os)
    then (if replace then map (changed types w v) os else os)
    else os ++ (new_override types "*" (types.get_type_name w) (some w) v ∷ [])

pub not_equal : (a b : ℕ) → a ≢ b → (a == b) ≡ false
not_equal a b differ = elim (Bool-cases (a == b)) [
  | inl equal ↦ absurd (differ ((==_iff a b).0 equal))
  | inr unequal ↦ unequal
]

set_type_registered :
    (types : Types) (f : Factory) (w v : ℕ) (replace : Bool)
    → w ≢ v
    → SameOverrides
        (set_type_override_by_type types f w v replace)
        (record (register_both types f w v) {
          m_type_overrides =
              entries_after types
                (Factory.m_type_overrides (register_both types f w v))
                w
                v
                replace;
        })
unfolding set_type_override_by_type
set_type_registered types f w v replace differ =
    let no = not_equal w v differ in
    elim (Bool-cases (
      is_some
        (first_match (overrides types w) (Factory.m_type_overrides (register_both types f w v))))) [
          | inl exists ↦ elim (Bool-cases replace) [
            | inl on ↦ rw (no, exists, on) (refl, refl)
            | inr off ↦ rw (no, exists, off) (refl, refl)
          ]
          | inr new ↦ rw (no, new) (refl, refl)
        ]

pub set_type_entries :
    (types : Types) (f : Factory) (w v : ℕ) (replace : Bool)
    → IsTypedFactory types f
    → w ≢ v
    → SameOverrides
        (set_type_override_by_type types f w v replace)
        (record f { m_type_overrides = entries_after types f.m_type_overrides w v replace })
set_type_entries types f w v replace t differ =
    let same = register_both_same types f w v t in
    let set = set_type_registered types f w v replace differ in
    (set.0 ∙ ap (λ os. entries_after types os w v replace) same.0, set.1 ∙ same.1)
