-- ===== src/Common/Shifts.antt =====
-- Bits of a word that is shifted, in any position, and of several words put together.
use uvm_systemc.Common.{
  ℕ, zero, suc, ◌+◌, ◌-◌, ◌*◌, ◌/◌, ◌^◌, ◌<◌, ◌≡◌, ap, ◌∙◌, sym, true, false, ◌&&◌, leb, arith, inl,
  inr, Bool-cases,
}
use native.Mathlib.Nat.{zero-add, div-div-eq-div-mul}
use uvm_systemc.Common.Bits.{test_bit}
use uvm_systemc.Common.Words.{shift_left, test_bit-shift_left, test_bit-mod, two-pow-suc}

-- `x >> k`
abbrev pub shift_right : ℕ → ℕ → ℕ
shift_right x k = x / 2 ^ k

pub test_bit-shift_right : (x k i : ℕ) → test_bit (shift_right x k) i ≡ test_bit x (k + i)
test_bit-shift_right x zero i = ap (λ t. test_bit t i) one_part ∙ ap (test_bit x) (sym (zero-add i))
  where
    one_part : x / 2 ^ 0 ≡ x
    one_part = omega arith
test_bit-shift_right x (suc k) i =
    ap (λ t. test_bit (x / t) i) (two-pow-suc k)
    ∙ ap (λ t. test_bit t i) (sym (div-div-eq-div-mul x 2 (2 ^ k)))
    ∙ test_bit-shift_right (x / 2) k i
    ∙ ap (test_bit x) next_bit
  where
    next_bit : suc (k + i) ≡ suc k + i
    next_bit = omega arith

double : (x k : ℕ) → x * 2 ^ suc k ≡ 2 * (x * 2 ^ k)
double x k = omega (arith, ap (λ (t : ℕ). x * t) (two-pow-suc k))

below : (x k i : ℕ) → i < k → test_bit (x * 2 ^ k) i ≡ false
below x zero i h = absurd (omega arith)
below x (suc k) zero h = ground (arith, double x k)
below x (suc k) (suc i) h = ap (λ t. test_bit t i) halved ∙ below x k i (omega arith)
  where
    halved : x * 2 ^ suc k / 2 ≡ x * 2 ^ k
    halved = omega (arith, double x k)

-- A shift to the left moves each bit up and fills with zeros.
pub test_bit-shift_left_any :
    (x k i : ℕ) → i < 64 → test_bit (shift_left x k) i ≡ (leb k i && test_bit x (i - k))
test_bit-shift_left_any x k i h = elim (Bool-cases (leb k i)) [
  | inl up ↦
      rw up
        (ap (test_bit (shift_left x k)) (split up) ∙ test_bit-shift_left x k (i - k) (ground arith))
  | inr low ↦ rw low (test_bit-mod 64 (x * 2 ^ k) i h ∙ below x k i (ground arith))
]
  where
    split : leb k i ≡ true → i ≡ k + (i - k)
    split up = ground arith
