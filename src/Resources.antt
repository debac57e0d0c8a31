-- ===== src/Resources.antt =====
-- The resource pool: src/uvmsc/conf/uvm_resource_pool.cpp. A resource is a number that stands for its
-- address; its name, type and precedence, and what its match_scope answers, are those it has at the time of
-- the call. Records of the gets, the reports, the dump and the searches over the whole table are left out.
pub mod Precedence
pub mod Lookup
pub mod Highest
mod Samples
use Prim.Native.String.{String}
use text.Mathlib.Text.{◌==◌ as str_eq}
use uvm_systemc.Common.{
  ℕ, zero, suc, ◌+◌, ◌%◌, ◌^◌, Bool, true, false, not, ◌&&◌, ◌||◌, Option, none, some, List, [],
  ◌∷◌, ◌++◌, ◌==◌, ltb, if◌then◌else◌,
}
use uvm_systemc.Common.Maps.{Map, find, insert, nat_key, string_key}

pub record Rsrcs : Type 0 where
  pub get_name : ℕ → String
  pub get_type_handle : ℕ → ℕ
  pub precedence : ℕ → ℕ
  pub match_scope : ℕ → String → Bool
  pub m_is_regex_name : ℕ → Bool

pub record Pool : Type 0 where
  pub rtab : Map String (List ℕ)
  pub ttab : Map ℕ (List ℕ)
  pub m_has_wildcard_names : Bool

abbrev pub queue_of : Option (List ℕ) → List ℕ
queue_of none = []
queue_of (some q) = q

-- A resource joins a queue, at the front if it overrides.
abbrev pub put : Bool → ℕ → List ℕ → List ℕ
put front r q = if front then r ∷ q else q ++ (r ∷ [])

abbrev pub select : (ℕ → Bool) → List ℕ → List ℕ
select test [] = []
select test (r ∷ q) = let rest = select test q in if test r then r ∷ rest else rest

-- The test of a type; `none` is the null handle.
abbrev pub of_type : Rsrcs → Option ℕ → ℕ → Bool
of_type rs none r = true
of_type rs (some t) r = rs.get_type_handle r == t

-- The dictionary is not there yet: the answer is always false.
abbrev pub spell_check : String → Bool
spell_check s = false

-- By the precedences, each an `unsigned int`.
abbrev pub highest : (ℕ → ℕ) → ℕ → List ℕ → ℕ
highest precedence best [] = best
highest precedence best (r ∷ q) =
    highest precedence (if ltb (precedence best) (precedence r) then r else best) q

-- The first resource of the highest precedence, or the null pointer.
unfoldable pub get_highest_precedence : Rsrcs → List ℕ → Option ℕ
get_highest_precedence rs [] = none
get_highest_precedence rs (r ∷ q) = some (highest rs.precedence r q)

abbrev pub is_some : {A : Type 0} → Option A → Bool
is_some none = false
is_some (some a) = true

unfoldable pub set_in_names : Rsrcs → Pool → ℕ → Bool → Pool
set_in_names rs p r name_override =
    let name = rs.get_name r in
    if str_eq name ""
    then p
    else record p { rtab = insert name (put name_override r (queue_of (find name p.rtab))) p.rtab }

unfoldable pub set : Rsrcs → Pool → ℕ → Bool → Bool → Pool
unfolding set_in_names
set rs p r name_override type_override =
    let q = set_in_names rs p r name_override in
    let t = rs.get_type_handle r in
    record q {
      ttab = insert t (put type_override r (queue_of (find t q.ttab))) q.ttab;
      m_has_wildcard_names = if rs.m_is_regex_name r then true else q.m_has_wildcard_names;
    }

unfoldable pub lookup_name : Rsrcs → Pool → String → String → Option ℕ → Bool → List ℕ
lookup_name rs p scope name type_handle rpterr =
    if str_eq name ""
    then []
    else if (rpterr && not (spell_check name)) || (not rpterr && not (is_some (find name p.rtab)))
    then []
    else select (λ r. rs.match_scope r scope && of_type rs type_handle r)
        (queue_of (find name p.rtab))

unfoldable pub get_by_name : Rsrcs → Pool → String → String → Option ℕ → Bool → Option ℕ
unfolding lookup_name get_highest_precedence
get_by_name rs p scope name type_handle rpterr =
    get_highest_precedence rs (lookup_name rs p scope name type_handle rpterr)

unfoldable pub lookup_type : Rsrcs → Pool → String → Option ℕ → List ℕ
lookup_type rs p scope none = []
lookup_type rs p scope (some t) = select (λ r. rs.match_scope r scope) (queue_of (find t p.ttab))

abbrev pub first : List ℕ → Option ℕ
first [] = none
first (r ∷ q) = some r

unfoldable pub get_by_type : Rsrcs → Pool → String → Option ℕ → Option ℕ
unfolding lookup_type
get_by_type rs p scope type_handle = first (lookup_type rs p scope type_handle)

abbrev pub has : ℕ → List ℕ → Bool
has r [] = false
has r (s ∷ q) = if s == r then true else has r q

abbrev pub erase_first : ℕ → List ℕ → List ℕ
erase_first r [] = []
erase_first r (s ∷ q) = let rest = erase_first r q in if s == r then q else s ∷ rest

-- `high` is for PRI_HIGH.
unfoldable pub set_priority_queue : ℕ → List ℕ → Bool → List ℕ
set_priority_queue r q high = if has r q then put high r (erase_first r q) else q

unfoldable pub set_priority_type : Rsrcs → Pool → ℕ → Bool → Pool
unfolding set_priority_queue
set_priority_type rs p r high = elim (find (rs.get_type_handle r) p.ttab) [
  | none ↦ p
  | some q ↦ record p { ttab = insert (rs.get_type_handle r) (set_priority_queue r q high) p.ttab }
]

unfoldable pub set_priority_name : Rsrcs → Pool → ℕ → Bool → Pool
unfolding set_priority_queue
set_priority_name rs p r high = elim (find (rs.get_name r) p.rtab) [
  | none ↦ p
  | some q ↦ record p { rtab = insert (rs.get_name r) (set_priority_queue r q high) p.rtab }
]

unfoldable pub set_priority : Rsrcs → Pool → ℕ → Bool → Pool
unfolding set_priority_type set_priority_name
set_priority rs p r high = set_priority_name rs (set_priority_type rs p r high) r high

-- The place among the 2^32 values of `int` that an `unsigned int` is converted to, the least at 0: from
-- 2^31 on a precedence becomes negative.
abbrev pub as_int : ℕ → ℕ
as_int p = (p + 2 ^ 31) % 2 ^ 32

-- The map from precedences, each converted to an `int` and given by its place, to queues, in the order of
-- the keys; a resource joins the front.
abbrev pub bucket : ℕ → ℕ → List (ℕ × List ℕ) → List (ℕ × List ℕ)
bucket k r [] = (k, r ∷ []) ∷ []
bucket k r ((j, q) ∷ m) =
    let rest = bucket k r m in
    if k == j then (j, r ∷ q) ∷ m else if ltb k j then (k, r ∷ []) ∷ (j, q) ∷ m else (j, q) ∷ rest

abbrev pub buckets : (ℕ → ℕ) → List ℕ → List (ℕ × List ℕ) → List (ℕ × List ℕ)
buckets key [] m = m
buckets key (r ∷ q) m = buckets key q (bucket (key r) r m)

abbrev pub push_all_front : List ℕ → List ℕ → List ℕ
push_all_front [] q = q
push_all_front (r ∷ rs) q = push_all_front rs (r ∷ q)

abbrev pub refill : List (ℕ × List ℕ) → List ℕ → List ℕ
refill [] q = q
refill ((k, rs) ∷ m) q = refill m (push_all_front rs q)

unfoldable pub sort_by_precedence : Rsrcs → List ℕ → List ℕ
sort_by_precedence rs q = refill (buckets (λ r. as_int (rs.precedence r)) q []) []
