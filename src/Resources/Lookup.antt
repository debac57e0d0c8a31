-- ===== src/Resources/Lookup.antt =====
-- What the lookups of the pool answer.
use Prim.Native.String.{String}
use text.Mathlib.Text.{◌==◌ as str_eq}
use uvm_systemc.Common.{
  ℕ, ◌≡◌, refl, ap, sym, ◌∙◌, Bool, true, false, ◌&&◌, some, List, ◌∷◌, ◌==◌, ==_iff, if◌then◌else◌,
  Bool-cases, inl, inr,
}
use uvm_systemc.Common.Maps.{Map, find, insert, find-insert, nat_key, string_key}
use uvm_systemc.Resources.{
  Rsrcs, Pool, queue_of, select, first, set_in_names, set, lookup_type, get_by_type,
}

set_in_names_types :
    (rs : Rsrcs) (p : Pool) (r : ℕ) (b : Bool) → Pool.ttab (set_in_names rs p r b) ≡ p.ttab
unfolding set_in_names
set_in_names_types rs p r b = elim (Bool-cases (str_eq (rs.get_name r) "")) [
  | inl anonymous ↦ rw anonymous refl
  | inr named ↦ rw named refl
]

find_types :
    (rs : Rsrcs) (p : Pool) (r t : ℕ) (b : Bool)
    → find t (Pool.ttab (set rs p r b true)) ≡ (
        if rs.get_type_handle r == t
        then some (r ∷ queue_of (find (rs.get_type_handle r) p.ttab))
        else find t p.ttab)
unfolding set
find_types rs p r t b =
    ap
      (λ (m : Map ℕ (List ℕ)).
        find t (insert (rs.get_type_handle r) (r ∷ queue_of (find (rs.get_type_handle r) m)) m))
      (set_in_names_types rs p r b)
    ∙ find-insert t (rs.get_type_handle r) (r ∷ queue_of (find (rs.get_type_handle r) p.ttab))
        p.ttab

-- After a resource has been set to override by type, a lookup by its type from a scope that it is visible in
-- answers with it; from any other scope, and by any other type, it answers as before.
pub get_by_type-set :
    (rs : Rsrcs) (p : Pool) (r t : ℕ) (name_override : Bool) (scope : String)
    → get_by_type rs (set rs p r name_override true) scope (some t) ≡ (
        if (rs.get_type_handle r == t) && rs.match_scope r scope
        then some r
        else get_by_type rs p scope (some t))
unfolding get_by_type lookup_type
get_by_type-set rs p r t name_override scope = elim (Bool-cases (rs.get_type_handle r == t)) [
  | inl same ↦
      let e : find (rs.get_type_handle r) p.ttab ≡ find t p.ttab =
        ap (λ u. find u p.ttab) ((==_iff (rs.get_type_handle r) t).0 same) in
      let found =
        find_types rs p r t name_override
        ∙ ap
            (λ x.
              if x then some (r ∷ queue_of (find (rs.get_type_handle r) p.ttab)) else find t p.ttab)
            same in
      ap (λ q. first (select (λ s. rs.match_scope s scope) (queue_of q))) found
      ∙ visible (rs.match_scope r scope) (queue_of (find (rs.get_type_handle r) p.ttab))
      ∙ ap
          (λ q.
            if rs.match_scope r scope
            then some r
            else first (select (λ s. rs.match_scope s scope) (queue_of q)))
          e
      ∙ ap
          (λ x.
            if x && rs.match_scope r scope
            then some r
            else first (select (λ s. rs.match_scope s scope) (queue_of (find t p.ttab))))
          (sym same)
  | inr other ↦
      ap (λ q. first (select (λ s. rs.match_scope s scope) (queue_of q)))
        (find_types rs p r t name_override
          ∙ ap
              (λ x.
                if x
                then some (r ∷ queue_of (find (rs.get_type_handle r) p.ttab))
                else find t p.ttab)
              other)
      ∙ ap
          (λ x.
            if x && rs.match_scope r scope
            then some r
            else first (select (λ s. rs.match_scope s scope) (queue_of (find t p.ttab))))
          (sym other)
]
  where
    visible :
        (b : Bool) (q : List ℕ)
        → first (
            if b
            then r ∷ select (λ s. rs.match_scope s scope) q
            else select (λ s. rs.match_scope s scope) q)
          ≡ (if b then some r else first (select (λ s. rs.match_scope s scope) q))
    visible true q = refl
    visible false q = refl
