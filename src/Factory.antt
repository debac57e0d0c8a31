-- ===== src/Factory.antt =====
-- The factory: src/uvmsc/factory/uvm_default_factory.cpp and uvm_factory_override.cpp. A type's proxy is a
-- number that stands for its address, and what its virtual `get_type_name` answers and `uvm_is_match`,
-- which asks the C++ library's regular expressions, are parameters. An override is changed only while it
-- is in `m_type_overrides`, so lists hold overrides by value. A map of names keeps no order, which nothing
-- here depends on. What the proxy creates is left to the
-- caller: a create function answers with the proxy it would ask. Reports are left out but for the loop
-- error, and so is printing; the state after this error is the one before the second search that is made
-- for its report.
use Prim.Native.String.{String}
use text.Mathlib.Text.{◌==◌ as str_eq, find?}
pub mod Names
pub mod Search
pub mod Trace
pub mod Typed
pub mod Setting
pub mod Fresh
pub mod Termination
pub mod Overrides
pub mod Steps
pub mod Instances
mod Samples
use uvm_systemc.Common.{
  ℕ, zero, suc, ◌+◌, ◌≡◌, refl, Bool, true, false, not, ◌&&◌, ◌||◌, Option, none, some, List, [],
  ◌∷◌, ◌++◌, map, ◌==◌, if◌then◌else◌,
}
use uvm_systemc.Common.Maps.{Map, find, insert, erase, nat_key, string_key}

pub record Override : Type 0 where
  pub full_inst_path : String
  pub orig_type_name : String
  pub orig_type : Option ℕ
  pub ovrd_type_name : String
  pub ovrd_type : ℕ

pub record Factory : Type 0 where
  pub m_types : Map ℕ Bool
  pub m_type_names : Map String ℕ
  pub m_lookup_strs : Map String Bool
  pub m_type_overrides : List Override
  pub m_wildcard_inst_overrides : List Override
  pub m_inst_override_queues : Map ℕ (List Override)
  pub m_inst_override_name_queues : Map String (List Override)
  pub m_override_info : List Override

abbrev pub new_factory : Factory
new_factory = record {
  m_types = [];
  m_type_names = [];
  m_lookup_strs = [];
  m_type_overrides = [];
  m_wildcard_inst_overrides = [];
  m_inst_override_queues = [];
  m_inst_override_name_queues = [];
  m_override_info = [];
}

-- The two parameters: a type's name, and the match of a pattern.
pub record Types : Type 0 where
  pub get_type_name : ℕ → String
  pub uvm_is_match : String → String → Bool

abbrev pub is_some : {A : Type 0} → Option A → Bool
is_some none = false
is_some (some a) = true

unfoldable pub m_has_wildcard : String → Bool
m_has_wildcard name = is_some (find? name "*") || is_some (find? name "?")

abbrev pub or_empty : {A : Type 0} → Option (List A) → List A
or_empty none = []
or_empty (some xs) = xs

abbrev pub is_type : Option ℕ → ℕ → Bool
is_type none w = false
is_type (some v) w = v == w

-- A name that is neither empty nor the one of unnamed types.
abbrev pub is_named : String → Bool
is_named s = not (str_eq s "") && not (str_eq s "<unknown>")

abbrev pub first_match : (Override → Bool) → List Override → Option Override
first_match test [] = none
first_match test (o ∷ os) = let rest = first_match test os in if test o then some o else rest

abbrev pub filter : (Override → Bool) → List Override → List Override
filter test [] = []
filter test (o ∷ os) = let rest = filter test os in if test o then o ∷ rest else rest

module _ (types : Types) where
  unfoldable pub new_override : String → String → Option ℕ → ℕ → Override
  new_override path name orig ovrd = record {
    full_inst_path = path;
    orig_type_name = elim orig [ none ↦ name | some w ↦ types.get_type_name w ];
    orig_type = orig;
    ovrd_type_name = types.get_type_name ovrd;
    ovrd_type = ovrd;
  }

  -- The name-based lookup keeps the first type of a name.
  unfoldable pub register_name : Factory → ℕ → Factory
  register_name f obj =
      let name = types.get_type_name obj in
      if is_named name && not (is_some (find name f.m_type_names))
      then record f { m_type_names = insert name obj f.m_type_names }
      else f

  -- The queue set for a name before its type was known becomes the type's.
  unfoldable pub adopt_name_queue : Factory → ℕ → Factory
  adopt_name_queue f obj =
      let name = types.get_type_name obj in
      elim (find name f.m_inst_override_name_queues) [
        | none ↦ f
        | some queue ↦ record f {
          m_inst_override_queues = insert obj queue f.m_inst_override_queues;
          m_inst_override_name_queues = erase name f.m_inst_override_name_queues;
        }
      ]

  -- The wildcard overrides that match the type's name join its queue, which is made if there are any.
  unfoldable pub adopt_wildcards : Factory → ℕ → Factory
  adopt_wildcards f obj = elim f.m_wildcard_inst_overrides [
    | [] ↦ f
    | _ ↦ record f {
      m_inst_override_queues =
          insert obj
            (or_empty (find obj f.m_inst_override_queues)
              ++ filter (λ o. types.uvm_is_match o.orig_type_name (types.get_type_name obj))
                  f.m_wildcard_inst_overrides)
            f.m_inst_override_queues;
    }
  ]

  unfoldable pub do_register : Factory → ℕ → Factory
  unfolding register_name adopt_name_queue adopt_wildcards
  do_register f obj =
      let g = register_name f obj in
      if is_some (find obj g.m_types)
      then g
      else adopt_wildcards (adopt_name_queue (record g { m_types = insert obj true g.m_types }) obj)
          obj

  -- The registration that both functions that override by type start with. Its second test asks for the
  -- original type again.
  unfoldable pub register_both : Factory → ℕ → ℕ → Factory
  unfolding do_register
  register_both f original override =
      let g = if is_some (find original f.m_types) then f else do_register f original in
      if is_some (find original g.m_types) then g else do_register g override

  -- The override is of this type, or of a type with its name.
  unfoldable pub overrides : ℕ → Override → Bool
  overrides w o =
      is_type o.orig_type w
      || (is_named o.orig_type_name && str_eq o.orig_type_name (types.get_type_name w))

  unfoldable pub set_type_override_by_type : Factory → ℕ → ℕ → Bool → Factory
  unfolding register_both overrides new_override
  set_type_override_by_type f original override replace =
      let g = register_both f original override in
      let change = λ (o : Override).
        if overrides original o
        then record o {
          orig_type = some original;
          orig_type_name = types.get_type_name original;
          ovrd_type = override;
          ovrd_type_name = types.get_type_name override;
        }
        else o in
      if original == override
      then f
      else if is_some (first_match (overrides original) g.m_type_overrides)
      then (if replace then record g { m_type_overrides = map change g.m_type_overrides } else g)
      else record g {
        m_type_overrides =
            g.m_type_overrides
            ++ (new_override "*" (types.get_type_name original) (some original) override ∷ []);
      }

  -- The name is looked up for the original type, which need not be registered, and for the override's,
  -- which must be.
  unfoldable pub set_type_override_by_name : Factory → String → String → Bool → Factory
  unfolding new_override
  set_type_override_by_name f original_name override_name replace =
      let original = find original_name f.m_type_names in
      let same = λ (o : Override). str_eq o.orig_type_name original_name in
      elim (find override_name f.m_type_names) [
        | none ↦ f
        | some override ↦
            let change = λ (o : Override).
              if same o
              then record o { ovrd_type = override; ovrd_type_name = override_name }
              else o in
            let g =
              if is_some original
              then f
              else record f { m_lookup_strs = insert original_name true f.m_lookup_strs } in
            if str_eq original_name override_name
            then f
            else if is_some (first_match same f.m_type_overrides)
            then (if replace
                then record g { m_type_overrides = map change f.m_type_overrides }
                else f)
            else record g {
              m_type_overrides =
                  f.m_type_overrides ++ (new_override "*" original_name original override ∷ []);
            }
      ]

  unfoldable pub check_inst_override_exists : Factory → ℕ → ℕ → String → Bool
  check_inst_override_exists f original override path = is_some (
      first_match
        (λ o.
          str_eq o.full_inst_path path
          && is_type o.orig_type original
          && (o.ovrd_type == override)
          && str_eq o.orig_type_name (types.get_type_name original))
        (or_empty (find original f.m_inst_override_queues)))

  unfoldable pub push_inst_override : Factory → ℕ → Override → Factory
  push_inst_override f original o = record f {
    m_inst_override_queues =
        insert original (or_empty (find original f.m_inst_override_queues) ++ (o ∷ []))
          f.m_inst_override_queues;
  }

  unfoldable pub set_inst_override_by_type : Factory → ℕ → ℕ → String → Factory
  unfolding register_both check_inst_override_exists push_inst_override new_override
  set_inst_override_by_type f original override path =
      let g = register_both f original override in
      if check_inst_override_exists g original override path
      then g
      else push_inst_override g original
          (new_override path (types.get_type_name original) (some original) override)
