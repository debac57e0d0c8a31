-- ===== src/RegField/MapRights.antt =====
-- What `get_access` does to a policy where the map restricts the register.
use uvm_systemc.Common.{◌≡◌, Bool, true, false, none, arith}
use uvm_systemc.RegField.Policy.{Access, rights_ro, rights_wo, get_access, is_known_access}
use uvm_systemc.RegField.Effects.{written_bit, read_bit}

-- Through a read-only map, a built-in policy that is granted without an error lets no write change a bit,
-- and a read has the effect that it has under the field's own policy.
pub get_access-rights_ro :
    (a b : Access) (first c w : Bool)
    → is_known_access a ≡ true
    → get_access a false rights_ro ≡ (b, none)
    → (written_bit b first c w ≡ c) × (read_bit b c ≡ read_bit a c)
unfolding get_access written_bit read_bit is_known_access
get_access-rights_ro a b first c w known h = ground arith

-- Through a write-only map, a policy that is granted without an error has the write effect of the
-- field's own policy, and a read is an error.
pub get_access-rights_wo :
    (a b : Access) (first c w : Bool)
    → get_access a false rights_wo ≡ (b, none)
    → (written_bit b first c w ≡ written_bit a first c w) × (read_bit b c ≡ none)
unfolding get_access written_bit read_bit
get_access-rights_wo a b first c w h = ground arith
