-- ===== src/Factory/Samples.antt =====
-- A factory with three types and their overrides.
use Prim.Native.String.{String}
use text.Mathlib.Text.{◌==◌ as str_eq}
use uvm_systemc.Common.{
  ℕ, zero, suc, ◌≡◌, ◌≢◌, ◌<◌, refl, ap, sym, ◌∙◌, true, false, ◌||◌, none, some, List, [], ◌∷◌,
  ◌++◌, arith, length, if◌then◌else◌,
}
use uvm_systemc.Common.Maps.{find, insert, string_key}
use uvm_systemc.Factory.{
  Override, Factory, Types, is_named, new_factory, register_name, adopt_name_queue, adopt_wildcards,
  do_register, register_both, overrides, new_override, check_inst_override_exists,
  push_inst_override, set_type_override_by_type, set_inst_override_by_type,
}
use uvm_systemc.Factory.Search.{Found, next_override, find_override_by_type}
use uvm_systemc.Factory.Trace.{Chain, IsEnd, find_override_by_type-Chain}
use uvm_systemc.Factory.Typed.{HasDistinctNames, IsTypedFactory}
use uvm_systemc.Factory.Setting.{
  new_factory-IsTyped, set_type_override_by_type-IsTyped, set_inst_override_by_type-IsTyped,
}
use uvm_systemc.Factory.Fresh.{all_overrides}
use uvm_systemc.Factory.Termination.{find_override_by_type-answers}
use uvm_systemc.Factory.Steps.{by_or, set_type_override_by_type-step}
use uvm_systemc.Factory.Instances.{inst_override, set_inst_override_by_type-step}

abbrev name : ℕ → String
name zero = "packet"
name (suc zero) = "short_packet"
name (suc (suc zero)) = "long_packet"
name (suc (suc (suc n))) = "<unknown>"

-- Patterns are whole paths, or `*`.
abbrev types : Types
types = record {
  get_type_name = name;
  uvm_is_match = λ pattern s. str_eq pattern "*" || str_eq pattern s;
}

abbrev number : String → ℕ
number s = if str_eq s "packet" then 0 else if str_eq s "short_packet" then 1 else 2

number-name : (a : ℕ) → is_named (name a) ≡ true → number (name a) ≡ a
number-name zero h = refl
number-name (suc zero) h = refl
number-name (suc (suc zero)) h = refl
number-name (suc (suc (suc a))) h = absurd (cc)

types-HasDistinctNames : HasDistinctNames types
types-HasDistinctNames a b named e =
    sym (number-name a named) ∙ ap number e ∙ number-name b (ap is_named (sym e) ∙ named)

abbrev shortened : Factory
shortened = set_type_override_by_type types new_factory 0 1 false

abbrev lengthened : Factory
lengthened = set_inst_override_by_type types shortened 1 2 "top.env"

shortened-IsTyped : IsTypedFactory types shortened
shortened-IsTyped =
    set_type_override_by_type-IsTyped types new_factory 0 1 false (new_factory-IsTyped types)

lengthened-IsTyped : IsTypedFactory types lengthened
lengthened-IsTyped =
    set_inst_override_by_type-IsTyped types shortened 1 2 "top.env" shortened-IsTyped

abbrev taken : List Override
taken =
    new_override types "*" "packet" (some 0) 1
    ∷ new_override types "top.env" "short_packet" (some 1) 2
    ∷ []

abbrev long : Found
long = record { wrapper = 2; looped = false }

finds_long :
    find_override_by_type types 3 lengthened 0 "top.env"
    ≡ some (record lengthened { m_override_info = taken }, long)
unfolding find_override_by_type next_override set_type_override_by_type set_inst_override_by_type
    register_both do_register register_name adopt_name_queue adopt_wildcards overrides new_override
    check_inst_override_exists push_inst_override find insert
finds_long = refl

find_override_by_type-Chain_example :
    (os : List Override) × Chain types lengthened "top.env" 0 os 2
    × (record lengthened { m_override_info = taken }
        ≡ record lengthened { m_override_info = Factory.m_override_info lengthened ++ os })
    × IsEnd types lengthened "top.env" (Factory.m_override_info lengthened ++ os) long
find_override_by_type-Chain_example =
    find_override_by_type-Chain types 3 lengthened (record lengthened { m_override_info = taken }) 0
      "top.env" long finds_long

few_overrides : length (all_overrides lengthened) < 3
unfolding set_type_override_by_type set_inst_override_by_type register_both do_register
    register_name adopt_name_queue adopt_wildcards overrides new_override check_inst_override_exists
    push_inst_override find insert
few_overrides = omega arith

find_override_by_type-answers_example :
    (r : Factory × Found) × (find_override_by_type types 3 lengthened 0 "top.env" ≡ some r)
find_override_by_type-answers_example =
    find_override_by_type-answers types 3 lengthened 0 "top.env" types-HasDistinctNames
      lengthened-IsTyped few_overrides

zero-one : ◌≢◌ {A = ℕ} 0 1
zero-one e = absurd (omega (arith, e))

two-one : ◌≢◌ {A = ℕ} 2 1
two-one e = absurd (omega (arith, e))

two-zero : ◌≢◌ {A = ℕ} 2 0
two-zero e = absurd (omega (arith, e))

set_type_override_by_type-step_example :
    ((o : Override) × (next_override types
          (set_type_override_by_type types lengthened 0 1 true)
          0
          ""
        ≡ some o)
      × (o.ovrd_type ≡ 1))
    × (next_override types (set_type_override_by_type types lengthened 0 1 true) 2 "top"
        ≡ next_override types lengthened 2 "top")
set_type_override_by_type-step_example =
    set_type_override_by_type-step types lengthened 0 1 2 true "top" types-HasDistinctNames
      lengthened-IsTyped zero-one two-zero

set_inst_override_by_type-step_example :
    ((o : Override) × (next_override types
          (set_inst_override_by_type types lengthened 1 0 "top")
          1
          "top"
        ≡ some o)
      × (o.ovrd_type ≡ by_or (inst_override types lengthened 1 "top") 0))
    × (next_override types (set_inst_override_by_type types lengthened 1 0 "top") 2 "top"
        ≡ next_override types lengthened 2 "top")
set_inst_override_by_type-step_example =
    set_inst_override_by_type-step types lengthened 1 0 2 "top" "top" lengthened-IsTyped refl refl
      two-one

-- Two overrides by type in a circle: the search reports a loop, at the type it started with.
loop_reported :
    elim (find_override_by_type types 3
      (set_type_override_by_type types shortened 1 0 false)
      0
      "") [ none ↦ none | some (f, found) ↦ some found ]
    ≡ some (record { wrapper = 0; looped = true })
unfolding find_override_by_type next_override set_type_override_by_type set_inst_override_by_type
    register_both do_register register_name adopt_name_queue adopt_wildcards overrides new_override
    check_inst_override_exists push_inst_override find insert
loop_reported = refl

-- The override's type is not registered, so that it cannot be asked for by its name.
override_not_registered : find "short_packet" (Factory.m_type_names shortened) ≡ none
unfolding find_override_by_type next_override set_type_override_by_type set_inst_override_by_type
    register_both do_register register_name adopt_name_queue adopt_wildcards overrides new_override
    check_inst_override_exists push_inst_override find insert
override_not_registered = refl

-- Two searches in a row, outside a create function: the second reports a loop.
second_search_loops :
    elim (find_override_by_type types 3
      (record shortened { m_override_info = new_override types "*" "packet" (some 0) 1 ∷ [] })
      0
      "") [ none ↦ none | some (f, found) ↦ some found ]
    ≡ some (record { wrapper = 0; looped = true })
unfolding find_override_by_type next_override new_override
second_search_loops = refl
