-- ===== src/Resources/Samples.antt =====
-- A pool of three resources.
use text.Mathlib.Text.{◌==◌ as str_eq}
use uvm_systemc.Common.{
  ℕ, ◌^◌, ◌==◌, arith, ◌≡◌, refl, true, false, none, some, [], ◌∷◌, if◌then◌else◌, ltb,
}
use uvm_systemc.Common.Maps.{find, insert}
use uvm_systemc.Resources.{
  Rsrcs, Pool, select, first, get_highest_precedence, set_in_names, set, set_priority,
  set_priority_type, set_priority_name, set_priority_queue, lookup_name, get_by_name, lookup_type,
  get_by_type, as_int, sort_by_precedence,
}
use uvm_systemc.Resources.Precedence.{IsDescending, of_key, sort_by_precedence-IsDescending}
use uvm_systemc.Resources.Highest.{first-sort_by_precedence}

abbrev rs : Rsrcs
rs = record {
  get_name = λ r. "speed";
  get_type_handle = λ r. 7;
  precedence = λ r. if ltb r 2 then 1000 else 1001;
  match_scope = λ r scope. str_eq scope "top";
  m_is_regex_name = λ r. false;
}

abbrev pool : Pool
pool = record { rtab = []; ttab = []; m_has_wildcard_names = false }

abbrev filled : Pool
filled = set rs (set rs pool 1 false false) 2 false false

-- By name the highest precedence prevails, by type the first.
found_by_name : get_by_name rs filled "top" "speed" none false ≡ some 2
unfolding get_by_name set set_in_names lookup_name get_highest_precedence find insert
found_by_name = refl

found_by_type : get_by_type rs filled "top" (some 7) ≡ some 1
unfolding get_by_type set set_in_names lookup_type find insert
found_by_type = refl

found_raised : get_by_type rs (set_priority rs filled 2 true) "top" (some 7) ≡ some 2
unfolding get_by_type set set_in_names lookup_type set_priority set_priority_type set_priority_name
    set_priority_queue find insert
found_raised = refl

abbrev keyed : ℕ → ℕ
keyed r = as_int (rs.precedence r)

sort_by_precedence-IsDescending_example :
    IsDescending keyed (sort_by_precedence rs (0 ∷ 2 ∷ 1 ∷ 3 ∷ []))
    × (select (of_key keyed (as_int 1001)) (sort_by_precedence rs (0 ∷ 2 ∷ 1 ∷ 3 ∷ []))
        ≡ select (of_key keyed (as_int 1001)) (0 ∷ 2 ∷ 1 ∷ 3 ∷ []))
sort_by_precedence-IsDescending_example =
    sort_by_precedence-IsDescending rs (0 ∷ 2 ∷ 1 ∷ 3 ∷ []) (as_int 1001)

first-sort_by_precedence_example :
    first (sort_by_precedence rs (0 ∷ 2 ∷ 1 ∷ 3 ∷ []))
    ≡ get_highest_precedence rs (0 ∷ 2 ∷ 1 ∷ 3 ∷ [])
first-sort_by_precedence_example =
    first-sort_by_precedence rs (0 ∷ 2 ∷ 1 ∷ 3 ∷ [])
      (omega arith, (omega arith, (omega arith, (omega arith, tt))))

-- A precedence of 2^31 is the highest for the lookup by name, and the lowest for the sort.
abbrev far : Rsrcs
far = record rs { precedence = λ r. if r == 1 then 2 ^ 31 else 1000 }

far_sorted : first (sort_by_precedence far (0 ∷ 1 ∷ [])) ≡ some 0
unfolding sort_by_precedence
far_sorted = refl

far_highest : get_highest_precedence far (0 ∷ 1 ∷ []) ≡ some 1
unfolding get_highest_precedence
far_highest = refl
