-- ===== src/RegField/Policy.antt =====
-- The access policies of a register field: src/uvmsc/reg/uvm_reg_field.cpp, `m_predefine_policies`,
-- `get_access` and `is_known_access`. A policy is the string in capitals; one that the user has
-- defined is `custom`, with the string.
use Prim.Native.String.{String}
use uvm_systemc.Common.{Bool, true, false, Option, none, some}

-- The constructors are written `Access.rw` elsewhere, since `rw` is also a tactic.
pub data Access : Type 0 where
  ro rw rc rs wrc wrs wc ws wsrc wcrs w1c w1s w1t w0c w0s w0t : Access
  w1src w1crs w0src w0crs wo woc wos w1 wo1 : Access
  custom : String → Access

-- What the register may do in a map, as `uvm_reg::get_rights` returns it.
pub data Rights : Type 0 where
  rights_rw rights_ro rights_wo : Rights
  unknown_rights : String → Rights

pub data RightsError : Type 0 where
  restricted_to_ro restricted_to_wo unknown_right : RightsError

unfoldable pub restrict_ro : Access → Access × Option RightsError
restrict_ro Access.rw = (Access.ro, none)
restrict_ro Access.ro = (Access.ro, none)
restrict_ro Access.wc = (Access.ro, none)
restrict_ro Access.ws = (Access.ro, none)
restrict_ro Access.w1c = (Access.ro, none)
restrict_ro Access.w1s = (Access.ro, none)
restrict_ro Access.w1t = (Access.ro, none)
restrict_ro Access.w0c = (Access.ro, none)
restrict_ro Access.w0s = (Access.ro, none)
restrict_ro Access.w0t = (Access.ro, none)
restrict_ro Access.w1 = (Access.ro, none)
restrict_ro Access.rc = (Access.rc, none)
restrict_ro Access.wrc = (Access.rc, none)
restrict_ro Access.w1src = (Access.rc, none)
restrict_ro Access.w0src = (Access.rc, none)
restrict_ro Access.wsrc = (Access.rc, none)
restrict_ro Access.rs = (Access.rs, none)
restrict_ro Access.wrs = (Access.rs, none)
restrict_ro Access.w1crs = (Access.rs, none)
restrict_ro Access.w0crs = (Access.rs, none)
restrict_ro Access.wcrs = (Access.rs, none)
restrict_ro Access.wo = (Access.wo, some restricted_to_ro)
restrict_ro Access.woc = (Access.woc, some restricted_to_ro)
restrict_ro Access.wos = (Access.wos, some restricted_to_ro)
restrict_ro Access.wo1 = (Access.wo1, some restricted_to_ro)
restrict_ro (Access.custom s) = (Access.custom s, none)

unfoldable pub restrict_wo : Access → Access × Option RightsError
restrict_wo Access.rw = (Access.wo, none)
restrict_wo Access.wo = (Access.wo, none)
restrict_wo a = (a, some restricted_to_wo)

-- The policy through a map that gives the register these rights, and the error reported. The second
-- argument says whether the map is the backdoor.
unfoldable pub get_access : Access → Bool → Rights → Access × Option RightsError
unfolding restrict_ro restrict_wo
get_access a true rights = (a, none)
get_access a false rights_rw = (a, none)
get_access a false rights_ro = restrict_ro a
get_access a false rights_wo = restrict_wo a
get_access a false (unknown_rights s) = (a, some unknown_right)

-- Is the policy one of those built in?
unfoldable pub is_known_access : Access → Bool
is_known_access (Access.custom s) = false
is_known_access _ = true
