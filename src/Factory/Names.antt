-- ===== src/Factory/Names.antt =====
-- Instance overrides by name: src/uvmsc/factory/uvm_default_factory.cpp. A name with a wildcard is applied
-- to every registered type it matches, and kept for those to come.
use Prim.Native.String.{String}
use uvm_systemc.Common.{ℕ, true, none, some, List, [], ◌∷◌, ◌++◌, if◌then◌else◌}
use uvm_systemc.Common.Maps.{find, insert, nat_key, string_key}
use uvm_systemc.Factory.{
  Factory, Types, or_empty, m_has_wildcard, new_override, check_inst_override_exists,
  push_inst_override,
}

module _ (types : Types) where
  -- The call for a name that is registered.
  unfoldable pub set_inst_override_known : Factory → String → ℕ → ℕ → String → Factory
  unfolding check_inst_override_exists push_inst_override new_override
  set_inst_override_known f name original override path =
      if check_inst_override_exists types f original override path
      then f
      else push_inst_override types f original
          (new_override types path name (some original) override)

  -- The loop over the registered names.
  unfoldable pub set_matching : Factory → String → List (String × ℕ) → ℕ → String → Factory
  unfolding set_inst_override_known
  set_matching f pattern [] override path = f
  set_matching f pattern ((s, w) ∷ names) override path =
      set_matching
        (if types.uvm_is_match pattern s then set_inst_override_known f s w override path else f)
        pattern names override path

  unfoldable pub set_inst_override_by_name : Factory → String → String → String → Factory
  unfolding set_inst_override_known set_matching new_override m_has_wildcard
  set_inst_override_by_name f original_name override_name path =
      elim (find override_name f.m_type_names) [
        | none ↦ f
        | some override ↦ elim (find original_name f.m_type_names) [
          | some original ↦ set_inst_override_known f original_name original override path
          | none ↦
              let g = record f { m_lookup_strs = insert original_name true f.m_lookup_strs } in
              let o = new_override types path original_name none override in
              let h = set_matching g original_name g.m_type_names override path in
              if m_has_wildcard original_name
              then record h { m_wildcard_inst_overrides = h.m_wildcard_inst_overrides ++ (o ∷ []) }
              else record g {
                m_inst_override_name_queues =
                    insert original_name
                      (or_empty (find original_name g.m_inst_override_name_queues) ++ (o ∷ []))
                      g.m_inst_override_name_queues;
              }
        ]
      ]
