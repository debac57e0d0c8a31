-- ===== src/Factory/Search.antt =====
-- The search for an override, and the create functions that start it. A search takes fuel, and answers
-- `none` when the fuel runs out.
use Prim.Native.String.{String, ◌++◌ as joined}
use text.Mathlib.Text.{◌==◌ as str_eq}
use uvm_systemc.Common.{
  ℕ, zero, suc, Bool, true, false, not, ◌&&◌, Option, none, some, [], ◌∷◌, ◌++◌, ◌==◌,
  if◌then◌else◌,
}
use uvm_systemc.Common.Maps.{find, insert, nat_key, string_key}
use uvm_systemc.Factory.{
  Override, Factory, Types, is_some, or_empty, is_type, first_match, filter, overrides,
}

-- The end of a search: the type it found, and whether it stopped at a loop.
pub record Found : Type 0 where
  pub wrapper : ℕ
  pub looped : Bool

abbrev pub noted : Factory → Override → Factory
noted f o = record f { m_override_info = f.m_override_info ++ (o ∷ []) }

unfoldable pub full_inst_path_of : String → String → String
full_inst_path_of parent name =
    if str_eq parent ""
    then name
    else if not (str_eq name "")
    then joined parent (joined "." name)
    else parent

module _ (types : Types) where
  -- The override that a step of the search takes: the first of the type's instance overrides whose path
  -- matches, if there is a path, or else the first type override.
  unfoldable pub next_override : Factory → ℕ → String → Option Override
  unfolding overrides
  next_override f requested path =
      let of_type = first_match (overrides types requested) f.m_type_overrides in
      if str_eq path ""
      then of_type
      else elim (first_match
          (λ o. overrides types requested o && types.uvm_is_match o.full_inst_path path)
          (or_empty (find requested f.m_inst_override_queues))) [ none ↦ of_type | some o ↦ some o ]

  unfoldable pub find_override_by_type : ℕ → Factory → ℕ → String → Option (Factory × Found)
  unfolding next_override
  find_override_by_type zero f requested path = none
  find_override_by_type (suc fuel) f requested path =
      if is_some (first_match (λ o. is_type o.orig_type requested) f.m_override_info)
      then some (f, record { wrapper = requested; looped = true })
      else elim (next_override f requested path) [
        | none ↦ some (f, record { wrapper = requested; looped = false })
        | some o ↦
            let more = find_override_by_type fuel (noted f o) o.ovrd_type path in
            if o.ovrd_type == requested
            then some (noted f o, record { wrapper = requested; looped = false })
            else more
      ]

  -- The type that `create_object_by_type` and `create_component_by_type` ask for the object.
  unfoldable pub create_by_type : ℕ → Factory → ℕ → String → String → Option (Factory × Found)
  unfolding find_override_by_type full_inst_path_of
  create_by_type fuel f requested parent name =
      find_override_by_type fuel (record f { m_override_info = [] }) requested
        (full_inst_path_of parent name)

  -- The instance override of a name: the queue is the type's if the name is registered.
  unfoldable pub name_override : Factory → String → String → Option Override
  name_override f name path =
      first_match
        (λ o. types.uvm_is_match o.orig_type_name name && types.uvm_is_match o.full_inst_path path)
        (or_empty (elim (find name f.m_type_names) [
          | none ↦ find name f.m_inst_override_name_queues
          | some w ↦ find w f.m_inst_override_queues
        ]))

  -- A registered type without a queue gets the wildcard overrides that match, if there are any.
  unfoldable pub fill_queue : Factory → String → Factory
  fill_queue f name = elim (find name f.m_type_names) [
    | none ↦ f
    | some w ↦ elim f.m_wildcard_inst_overrides [
      | [] ↦ f
      | _ ↦ if is_some (find w f.m_inst_override_queues) then f else record f {
        m_inst_override_queues =
            insert w
              (filter (λ o. types.uvm_is_match o.orig_type_name name) f.m_wildcard_inst_overrides)
              f.m_inst_override_queues;
      }
    ]
  ]

  unfoldable pub find_by_name_of_type :
      ℕ → Factory → String → String → Option (Factory × Option Found)
  unfolding find_override_by_type fill_queue
  find_by_name_of_type fuel f name path =
      let g = fill_queue f name in
      elim (first_match (λ o. str_eq o.orig_type_name name) g.m_type_overrides) [
        | none ↦ some (g, none)
        | some o ↦ elim (find_override_by_type fuel (noted g o) o.ovrd_type path) [
          | none ↦ none
          | some (h, found) ↦ some (h, some found)
        ]
      ]

  -- `none` inside is the null pointer.
  unfoldable pub find_override_by_name :
      ℕ → Factory → String → String → Option (Factory × Option Found)
  unfolding find_override_by_type name_override find_by_name_of_type
  find_override_by_name fuel f name path =
      if str_eq path ""
      then find_by_name_of_type fuel f name path
      else elim (name_override f name path) [
        | none ↦ find_by_name_of_type fuel f name path
        | some o ↦
            if str_eq (types.get_type_name o.ovrd_type) name
            then some (noted f o, some (record { wrapper = o.ovrd_type; looped = false }))
            else elim (find_override_by_type fuel (noted f o) o.ovrd_type path) [
              | none ↦ none
              | some (h, found) ↦ some (h, some found)
            ]
      ]

  -- The type that `create_object_by_name` and `create_component_by_name` ask, or the null pointer.
  unfoldable pub create_by_name :
      ℕ → Factory → String → String → String → Option (Factory × Option ℕ)
  unfolding find_override_by_name full_inst_path_of
  create_by_name fuel f name parent inst =
      elim (find_override_by_name fuel (record f { m_override_info = [] }) name
        (full_inst_path_of parent inst)) [
          | none ↦ none
          | some (g, some found) ↦ some (g, some found.wrapper)
          | some (g, none) ↦ some (g, find name g.m_type_names)
        ]

unfoldable pub is_type_name_registered : Factory → String → Bool
is_type_name_registered f name = is_some (find name f.m_type_names)

unfoldable pub is_type_registered : Factory → ℕ → Bool
is_type_registered f obj = is_some (find obj f.m_types)

unfoldable pub find_wrapper_by_name : Factory → String → Option ℕ
find_wrapper_by_name f name = find name f.m_type_names
