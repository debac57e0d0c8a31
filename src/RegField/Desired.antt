-- ===== src/RegField/Desired.antt =====
-- The desired value: what `set` stores, and what `m_update` would write to reach it.
use uvm_systemc.Common.{
  ℕ, ◌^◌, ◌<◌, ◌≡◌, ap, ◌∙◌, true, false, not, arith, inl, inr, if◌then◌else◌, ◌⊎◌, ◌/◌, ◌==◌, ◌↔◌,
}
use native.Mathlib.Nat.{div-eq_of_lt, pow-le-pow_right}
use uvm_systemc.Common.Bits.{test_bit}
use uvm_systemc.RegField.{Field, uvm_mask_size, m_predict, set, m_update}
use uvm_systemc.RegField.Policy.{Access}
use uvm_systemc.RegField.Effects.{written_bit, m_predict-bits}
use uvm_systemc.RegField.Bounds.{IsValid, mask_of_lt}

fits_shift : (n v : ℕ) → v < 2 ^ n → ((v / 2 ^ n) == 0) ≡ true
fits_shift n v h = ground (arith, div-eq_of_lt h)

-- `set` takes no notice of the access policy: for a value that fits a valid field, the desired and the
-- abstract value become that value under every policy, read-only and written-once fields included, and
-- nothing else of the field changes.
pub set_ignores_access :
    (f : Field) (v : ℕ) → v < 2 ^ f.size → set f v ≡ record f { desired = v; value = v }
unfolding set
set_ignores_access f v h = rw (fits_shift f.size v h)

-- The value that `m_update` writes is the desired value, whatever the policy and the mirror.
pub m_update-desired : (f : Field) → IsValid f → m_update f ≡ f.desired
unfolding m_update
m_update-desired f h = mask_of_lt f.size f.desired h.word h.desired_fits

-- The policies under which a write stores the bits as they are.
abbrev pub IsAsIs : Access → Type 0
IsAsIs a = (a ≡ Access.rw) ⊎ (a ≡ Access.wrc) ⊎ (a ≡ Access.wrs) ⊎ (a ≡ Access.wo)

-- Under a policy that stores what is written, setting a value that fits and writing what `m_update`
-- returns makes the predicted mirror that value.
pub m_predict-m_update-set :
    (f : Field) (v : ℕ)
    → IsValid f
    → v < 2 ^ f.size
    → IsAsIs f.access
    → m_predict f.access f.written (uvm_mask_size f.size) f.mirrored (m_update (set f v)) ≡ v
unfolding m_predict m_update
m_predict-m_update-set f v h fits as_is =
    rw (set_ignores_access f v fits, mask_of_lt f.size v h.word fits) (by_policy as_is)
  where
    by_policy :
        IsAsIs f.access → m_predict f.access f.written (uvm_mask_size f.size) f.mirrored v ≡ v
    by_policy (inl e) = rw (e, m_predict)
    by_policy (inr (inl e)) = rw (e, m_predict)
    by_policy (inr (inr (inl e))) = rw (e, m_predict)
    by_policy (inr (inr (inr e))) = rw (e, m_predict)

w1c_bit :
    (f : Field) (i : ℕ)
    → IsValid f
    → f.access ≡ Access.w1c
    → i < f.size
    → test_bit (m_predict f.access f.written (uvm_mask_size f.size) f.mirrored (m_update f)) i
      ≡ (if test_bit f.desired i then false else test_bit f.mirrored i)
unfolding written_bit
w1c_bit f i h w1c l =
    ap (λ t. test_bit (m_predict f.access f.written (uvm_mask_size f.size) f.mirrored t) i)
      (m_update-desired f h)
    ∙ m_predict-bits f.access f.written f.size f.mirrored f.desired i h.word
        (omega (arith, h.desired_fits, pow-le-pow_right {n = 2} (omega arith) h.word)) l
    ∙ ap (λ a. written_bit a (not f.written) (test_bit f.mirrored i) (test_bit f.desired i)) w1c

-- Under W1C, writing what `m_update` returns leaves a bit of the mirror at its desired value exactly
-- when the bit is 0 in both: a bit that should be cleared stays, and a bit that should stay is cleared.
pub m_update_w1c :
    (f : Field) (i : ℕ)
    → IsValid f
    → f.access ≡ Access.w1c
    → i < f.size
    → (test_bit (m_predict f.access f.written (uvm_mask_size f.size) f.mirrored (m_update f)) i
        ≡ test_bit f.desired i)
      ↔ ((test_bit f.mirrored i ≡ false) × (test_bit f.desired i ≡ false))
unfolding written_bit
m_update_w1c f i h w1c l = ground (arith, w1c_bit f i h w1c l)
