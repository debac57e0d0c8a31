-- ===== src/Factory/Instances.antt =====
-- Instance overrides and the paths that they match.
use Prim.Native.String.{String}
use text.Mathlib.Text.{◌==◌ as str_eq}
use text.Mathlib.TextEquality.{eq_iff}
use uvm_systemc.Common.{
  ℕ, ◌≡◌, ◌≢◌, refl, ap, sym, ◌∙◌, Bool, true, false, ◌&&◌, Option, none, some, List, [], ◌∷◌, ◌++◌,
  arith, ◌==◌, ==_iff, if◌then◌else◌, inl, inr, Bool-cases, Option-cases,
}
use uvm_systemc.Common.Maps.{Map, find, insert, find-insert, nat_key, string_key}
use uvm_systemc.Factory.{
  Override, Factory, Types, is_some, or_empty, is_type, first_match, overrides, new_override,
  register_both, check_inst_override_exists, push_inst_override, set_inst_override_by_type,
}
use uvm_systemc.Factory.Search.{next_override}
use uvm_systemc.Factory.Typed.{IsTypedFactory}
use uvm_systemc.Factory.Overrides.{
  register_both_same, first_match-append, overrides-own, next_same, not_equal,
}
use uvm_systemc.Factory.Steps.{by_or}

-- An instance override applies to a type on a path.
abbrev applies : Types → ℕ → String → Override → Bool
applies types w path o = overrides types w o && types.uvm_is_match o.full_inst_path path

-- The type's instance override on a path.
abbrev pub inst_override : Types → Factory → ℕ → String → Option Override
inst_override types f w path =
    first_match (applies types w path) (or_empty (find w f.m_inst_override_queues))

weaken :
    (test test' : Override → Bool) (os : List Override)
    → ((o : Override) → test o ≡ true → test' o ≡ true)
    → is_some (first_match test os) ≡ true
    → is_some (first_match test' os) ≡ true
weaken test test' [] h e = e
weaken test test' (o ∷ os) h e = ground (arith, h o, weaken test test' os h)

exists-applies :
    (types : Types) (f : Factory) (w v : ℕ) (pattern path : String)
    → types.uvm_is_match pattern path ≡ true
    → check_inst_override_exists types f w v pattern ≡ true
    → is_some (inst_override types f w path) ≡ true
unfolding check_inst_override_exists
exists-applies types f w v pattern path match e =
    weaken _ (applies types w path) (or_empty (find w f.m_inst_override_queues)) (λ o h. same o h) e
  where
    parts : (a b c d : Bool) → (a && b && c && d) ≡ true → (a ≡ true) × (b ≡ true)
    parts a b c d h = (ground arith, ground arith)

    is_some_w : (q : Option ℕ) → is_type q w ≡ true → q ≡ some w
    is_some_w none h = absurd (cc)
    is_some_w (some u) h = ap some ((==_iff u w).0 h)

    same :
        (o : Override)
        → (str_eq o.full_inst_path pattern
            && is_type o.orig_type w
            && (o.ovrd_type == v)
            && str_eq o.orig_type_name (types.get_type_name w))
          ≡ true
        → applies types w path o ≡ true
    same o h =
        let (same_path, same_type) = parts _ _ _ _ h in
        let own = overrides-own types w o (is_some_w o.orig_type same_type) in
        let on_path =
          ap (λ s. types.uvm_is_match s path) ((eq_iff o.full_inst_path pattern).0 same_path)
          ∙ match in
        ap (λ b. b && types.uvm_is_match o.full_inst_path path) own ∙ on_path

next-inst :
    (types : Types) (f : Factory) (w : ℕ) (path : String) (o : Override)
    → str_eq path "" ≡ false
    → inst_override types f w path ≡ some o
    → next_override types f w path ≡ some o
unfolding next_override
next-inst types f w path o filled e =
    ap
      (λ b.
        if b
        then first_match (overrides types w) f.m_type_overrides
        else elim (inst_override types f w path) [
          | none ↦ first_match (overrides types w) f.m_type_overrides
          | some p ↦ some p
        ])
      filled
    ∙ ap
        (λ r. elim r [
          | none ↦ first_match (overrides types w) f.m_type_overrides
          | some p ↦ some p
        ])
        e

find-other :
    (w c : ℕ) (q : List Override) (m : Map ℕ (List Override))
    → c ≢ w
    → find c (insert w q m) ≡ find c m
find-other w c q m differ =
    find-insert c w q m
    ∙ ap (λ b. if b then some q else find c m) (not_equal w c (λ e. differ (sym e)))

-- The queue of the type after a push, and those of others.
push-own :
    (types : Types) (f : Factory) (w : ℕ) (path : String) (o : Override)
    → inst_override types (push_inst_override types f w o) w path ≡ (
        if is_some (inst_override types f w path)
        then inst_override types f w path
        else if applies types w path o
        then some o
        else none)
unfolding push_inst_override
push-own types f w path o =
    let queue = or_empty (find w f.m_inst_override_queues) in
    ap (λ r. first_match (applies types w path) (or_empty r))
      (find-insert w w (queue ++ (o ∷ [])) f.m_inst_override_queues
        ∙ ap (λ b. if b then some (queue ++ (o ∷ [])) else find w f.m_inst_override_queues)
            ((==_iff w w).1 refl))
    ∙ first_match-append (applies types w path) queue o

push-other :
    (types : Types) (f : Factory) (w c : ℕ) (path : String) (o : Override)
    → c ≢ w
    → next_override types (push_inst_override types f w o) c path ≡ next_override types f c path
unfolding push_inst_override next_override
push-other types f w c path o differ = cc (
    find-other w c (or_empty (find w f.m_inst_override_queues) ++ (o ∷ [])) f.m_inst_override_queues
      differ)

new-applies :
    (types : Types) (w v : ℕ) (pattern path : String)
    → types.uvm_is_match pattern path ≡ true
    → (applies types w path (new_override types pattern (types.get_type_name w) (some w) v) ≡ true)
      × (Override.ovrd_type (new_override types pattern (types.get_type_name w) (some w) v) ≡ v)
unfolding new_override
new-applies types w v pattern path match =
    let new = new_override types pattern (types.get_type_name w) (some w) v in
    (ap (λ b. b && types.uvm_is_match pattern path) (overrides-own types w new refl) ∙ match, refl)

pushed :
    (types : Types) (g : Factory) (w v : ℕ) (pattern path : String)
    → types.uvm_is_match pattern path ≡ true
    → (o : Override) × (inst_override types
          (push_inst_override types g w
            (new_override types pattern (types.get_type_name w) (some w) v))
          w
          path
        ≡ some o)
      × (o.ovrd_type ≡ by_or (inst_override types g w path) v)
pushed types g w v pattern path match =
    let new = new_override types pattern (types.get_type_name w) (some w) v in
    let own = push-own types g w path new in
    let (works, by) = new-applies types w v pattern path match in
    elim (Option-cases (inst_override types g w path)) [
      | inl nothing ↦ (
        new,
        own
            ∙ ap (λ r. if is_some r then r else if applies types w path new then some new else none)
                nothing
            ∙ ap (λ b. if b then some new else none) works,
        by ∙ ap (λ r. by_or r v) (sym nothing),
      )
      | inr (p, e) ↦ (
        p,
        own
            ∙ ap (λ r. if is_some r then r else if applies types w path new then some new else none)
                e,
        ap (λ r. by_or r v) (sym e),
      )
    ]

some_of : (r : Option Override) → is_some r ≡ true → (o : Override) × (r ≡ some o)
some_of none e = absurd (cc)
some_of (some o) e = (o, refl)

registered :
    (types : Types) (f : Factory) (w v c : ℕ) (pattern path : String)
    → types.uvm_is_match pattern path ≡ true
    → c ≢ w
    → ((o : Override) × (inst_override types (set_inst_override_by_type types f w v pattern) w path
          ≡ some o)
        × (o.ovrd_type ≡ by_or (inst_override types (register_both types f w v) w path) v))
      × (next_override types (set_inst_override_by_type types f w v pattern) c path
          ≡ next_override types (register_both types f w v) c path)
unfolding set_inst_override_by_type
registered types f w v c pattern path match differ =
    let g = register_both types f w v in
    elim (Bool-cases (check_inst_override_exists types g w v pattern)) [
      | inl exists ↦
          let (p, e) =
            some_of (inst_override types g w path)
              (exists-applies types g w v pattern path match exists) in
          rw exists ((p, e, ap (λ r. by_or r v) (sym e)), refl)
      | inr new ↦
          rw new (pushed types g w v pattern path match, push-other types g w c path _ differ)
    ]

-- After an instance override has been set by type, the step of a search on a path that its pattern matches
-- leaves the original type by an instance override, whatever the type overrides: to the type of the first
-- that was there for the path, or to the new type if there was none; and the steps from other types are as
-- before. Every override was set by type.
pub set_inst_override_by_type-step :
    (types : Types) (f : Factory) (w v c : ℕ) (pattern path : String)
    → IsTypedFactory types f
    → str_eq path "" ≡ false
    → types.uvm_is_match pattern path ≡ true
    → c ≢ w
    → ((o : Override) × (next_override types (set_inst_override_by_type types f w v pattern) w path
          ≡ some o)
        × (o.ovrd_type ≡ by_or (inst_override types f w path) v))
      × (next_override types (set_inst_override_by_type types f w v pattern) c path
          ≡ next_override types f c path)
set_inst_override_by_type-step types f w v c pattern path t filled match differ =
    let same = register_both_same types f w v t in
    let ((o, found, by), others) = registered types f w v c pattern path match differ in
    (
      (
        o,
        next-inst types (set_inst_override_by_type types f w v pattern) w path o filled found,
        by ∙ ap (λ m. by_or (first_match (applies types w path) (or_empty (find w m))) v) same.1,
      ),
      others ∙ next_same types (register_both types f w v) f c path same,
    )
