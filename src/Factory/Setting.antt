-- ===== src/Factory/Setting.antt =====
-- The functions that register types and set overrides by type, where all overrides were set by type.
use Prim.Native.String.{String}
use uvm_systemc.Common.{
  ℕ, ◌≡◌, refl, ap, sym, ◌∙◌, subst, Bool, true, false, not, ◌&&◌, Option, none, some, List, [],
  ◌∷◌, ◌++◌, map, ◌==◌, if◌then◌else◌, All, All-append, inl, inr, Bool-cases,
}
use uvm_systemc.Common.Maps.{find, insert, nat_key, string_key}
use uvm_systemc.Factory.{
  Override, Factory, Types, new_factory, is_some, or_empty, is_named, first_match, overrides,
  new_override, register_name, adopt_name_queue, adopt_wildcards, do_register, register_both,
  check_inst_override_exists, push_inst_override, set_type_override_by_type,
  set_inst_override_by_type,
}
use uvm_systemc.Factory.Typed.{
  IsTyped, IsTypedFactory, new_override-IsTyped, find-AllTyped, insert-AllTyped,
}

pub register_name-IsTyped :
    (types : Types) (f : Factory) (w : ℕ)
    → IsTypedFactory types f
    → IsTypedFactory types (register_name types f w)
unfolding register_name
register_name-IsTyped types f w t =
    elim (Bool-cases (
      is_named (types.get_type_name w)
      && not (is_some (find (types.get_type_name w) f.m_type_names)))) [
        | inl new ↦ rw new record {
          of_types = t.of_types;
          of_instances = t.of_instances;
          no_wildcards = t.no_wildcards;
          no_names = t.no_names;
        }
        | inr old ↦ rw old t
      ]

no_queue :
    (f : Factory) (g : List Override → Factory) (q : Option (List Override))
    → q ≡ none
    → (elim q [ none ↦ f | some queue ↦ g queue ]) ≡ f
no_queue f g none e = refl
no_queue f g (some queue) e = absurd (cc)

-- Nothing waits for a type, so nothing is adopted.
adopt_no_queue :
    (types : Types) (f : Factory) (w : ℕ) → IsTypedFactory types f → adopt_name_queue types f w ≡ f
unfolding adopt_name_queue find
adopt_no_queue types f w t =
    no_queue f _ (find (types.get_type_name w) f.m_inst_override_name_queues)
      (ap (find (types.get_type_name w)) t.no_names)

no_wildcard : (f g : Factory) (os : List Override) → os ≡ [] → (elim os [ [] ↦ f | _ ↦ g ]) ≡ f
no_wildcard f g [] e = refl
no_wildcard f g (o ∷ os) e = absurd (cc)

adopt_no_wildcards :
    (types : Types) (f : Factory) (w : ℕ) → IsTypedFactory types f → adopt_wildcards types f w ≡ f
unfolding adopt_wildcards
adopt_no_wildcards types f w t = no_wildcard f _ f.m_wildcard_inst_overrides t.no_wildcards

pub adopt_nothing :
    (types : Types) (f : Factory) (w : ℕ)
    → IsTypedFactory types f
    → adopt_wildcards types (adopt_name_queue types f w) w ≡ f
adopt_nothing types f w t =
    ap (λ g. adopt_wildcards types g w) (adopt_no_queue types f w t)
    ∙ adopt_no_wildcards types f w t

pub do_register-IsTyped :
    (types : Types) (f : Factory) (w : ℕ)
    → IsTypedFactory types f
    → IsTypedFactory types (do_register types f w)
unfolding do_register
do_register-IsTyped types f w t =
    let named = register_name-IsTyped types f w t in
    let g = register_name types f w in
    elim (Bool-cases (is_some (find w g.m_types))) [
      | inl known ↦ rw known named
      | inr new ↦
          let added : IsTypedFactory types (record g { m_types = insert w true g.m_types }) =
            record {
              of_types = named.of_types;
              of_instances = named.of_instances;
              no_wildcards = named.no_wildcards;
              no_names = named.no_names;
            } in
          rw new (
            subst (IsTypedFactory types)
              (sym (adopt_nothing types (record g { m_types = insert w true g.m_types }) w added))
              added)
    ]

register_if-IsTyped :
    (types : Types) (f : Factory) (b : Bool) (w : ℕ)
    → IsTypedFactory types f
    → IsTypedFactory types (if b then f else do_register types f w)
register_if-IsTyped types f true w t = t
register_if-IsTyped types f false w t = do_register-IsTyped types f w t

pub register_both-IsTyped :
    (types : Types) (f : Factory) (w v : ℕ)
    → IsTypedFactory types f
    → IsTypedFactory types (register_both types f w v)
unfolding register_both
register_both-IsTyped types f w v t =
    let g = if is_some (find w f.m_types) then f else do_register types f w in
    register_if-IsTyped types g (is_some (find w g.m_types)) v
      (register_if-IsTyped types f (is_some (find w f.m_types)) w t)

push-IsTyped :
    (types : Types) (f : Factory) (w : ℕ) (o : Override)
    → IsTyped types o
    → IsTypedFactory types f
    → IsTypedFactory types (push_inst_override types f w o)
unfolding push_inst_override
push-IsTyped types f w o to t = record {
  of_types = t.of_types;
  of_instances =
      insert-AllTyped types w (or_empty (find w f.m_inst_override_queues) ++ (o ∷ []))
        f.m_inst_override_queues
        (All-append (IsTyped types) (or_empty (find w f.m_inst_override_queues)) (o ∷ [])
          (find-AllTyped types w f.m_inst_override_queues t.of_instances) (to, tt))
        t.of_instances;
  no_wildcards = t.no_wildcards;
  no_names = t.no_names;
}

pub set_inst_override_by_type-IsTyped :
    (types : Types) (f : Factory) (w v : ℕ) (path : String)
    → IsTypedFactory types f
    → IsTypedFactory types (set_inst_override_by_type types f w v path)
unfolding set_inst_override_by_type
set_inst_override_by_type-IsTyped types f w v path t =
    let g = register_both types f w v in
    let tg = register_both-IsTyped types f w v t in
    elim (Bool-cases (check_inst_override_exists types g w v path)) [
      | inl exists ↦ rw exists tg
      | inr new ↦ rw new (
          push-IsTyped types g w (new_override types path (types.get_type_name w) (some w) v)
            (new_override-IsTyped types path w v) tg)
    ]

map-IsTyped :
    (types : Types) (change : Override → Override) (os : List Override)
    → ((o : Override) → IsTyped types o → IsTyped types (change o))
    → All (IsTyped types) os
    → All (IsTyped types) (map change os)
map-IsTyped types change [] h t = tt
map-IsTyped types change (o ∷ os) h t = (h o t.0, map-IsTyped types change os h t.1)

if-IsTyped :
    (types : Types) (b : Bool) (o p : Override)
    → IsTyped types o
    → IsTyped types p
    → IsTyped types (if b then o else p)
if-IsTyped types true o p to tp = to
if-IsTyped types false o p to tp = tp

with_types :
    (types : Types) (g : Factory) (os : List Override)
    → IsTypedFactory types g
    → All (IsTyped types) os
    → IsTypedFactory types (record g { m_type_overrides = os })
with_types types g os t ts = record {
  of_types = ts;
  of_instances = t.of_instances;
  no_wildcards = t.no_wildcards;
  no_names = t.no_names;
}

pub set_type_override_by_type-IsTyped :
    (types : Types) (f : Factory) (w v : ℕ) (replace : Bool)
    → IsTypedFactory types f
    → IsTypedFactory types (set_type_override_by_type types f w v replace)
unfolding set_type_override_by_type
set_type_override_by_type-IsTyped types f w v replace t = elim (Bool-cases (w == v)) [
  | inl same ↦ rw same t
  | inr differ ↦ elim (Bool-cases (is_some (first_match (overrides types w) g.m_type_overrides))) [
    | inl exists ↦ rw (differ, exists) (either replace)
    | inr new ↦
        rw (differ, new)
          (with_types types g _ tg (
            All-append (IsTyped types) g.m_type_overrides
              (new_override types "*" (types.get_type_name w) (some w) v ∷ []) tg.of_types
              (new_override-IsTyped types "*" w v, tt)))
  ]
]
  where
    g : Factory
    g = register_both types f w v

    tg : IsTypedFactory types g
    tg = register_both-IsTyped types f w v t

    either :
        (r : Bool)
        → IsTypedFactory types (
            if r
            then record g {
              m_type_overrides =
                  map
                    (λ o.
                      if overrides types w o
                      then record o {
                        orig_type = some w;
                        orig_type_name = types.get_type_name w;
                        ovrd_type = v;
                        ovrd_type_name = types.get_type_name v;
                      }
                      else o)
                    g.m_type_overrides;
            }
            else g)
    either true = with_types types g _ tg (
        map-IsTyped types _ g.m_type_overrides
          (λ o to.
            if-IsTyped types (overrides types w o) _ o
              record { original = w; has_type = refl; has_name = refl } to)
          tg.of_types)
    either false = tg

pub new_factory-IsTyped : (types : Types) → IsTypedFactory types new_factory
new_factory-IsTyped types = record {
  of_types = tt;
  of_instances = tt;
  no_wildcards = refl;
  no_names = refl;
}
