-- ===== src/Common/Words.antt =====
-- Words of 64 bits: complement, shift and mask, and their bits.
use Prim.Native.Nat.{ℕ, zero, suc, ◌+◌, ◌-◌, ◌*◌, ◌/◌, ◌%◌, ◌^◌, ◌≤◌, ◌<◌, bit_and}
use mathlib.Core.Path.{◌≡◌, refl, ap, ◌∙◌, sym}
use native.Mathlib.Nat.{
  pow-suc, one-le-pow, zero-add, mod-eq_of_lt, add-mul-mod_self_left, div-add-mod,
}
use native.Mathlib.Omega.{arith}
use uvm_systemc.Common.Tests.{◌==◌, ltb}
use uvm_systemc.Common.Bits.{test_bit, test_bit-zero, test_bit-bit_and, lt_of_bits, test_bit-above}

-- `~x`
abbrev pub complement : ℕ → ℕ
complement x = 2 ^ 64 - 1 - x

-- `x << k`
abbrev pub shift_left : ℕ → ℕ → ℕ
shift_left x k = x * 2 ^ k % 2 ^ 64

-- Two numbers with the same bits are equal.
pub eq_of_bits : (n a b : ℕ) → a ≤ n → b ≤ n → ((i : ℕ) → test_bit a i ≡ test_bit b i) → a ≡ b
eq_of_bits zero a b h k e = omega arith
eq_of_bits (suc n) zero zero h k e = refl
eq_of_bits (suc n) a b h k e =
    ground (arith, e 0, eq_of_bits n (a / 2) (b / 2) (omega arith) (omega arith) (λ i. e (suc i)))

-- The bits of `2 ^ n - 1` are the lowest `n`.
pub test_bit-ones : (n i : ℕ) → test_bit (2 ^ n - 1) i ≡ ltb i n
test_bit-ones zero i = test_bit-zero i ∙ ground arith
test_bit-ones (suc n) zero = ground (arith, odd)
  where
    odd : (2 ^ suc n - 1) % 2 ≡ 1
    odd = omega (arith, pow-suc 2 n, one-le-pow n 2)
test_bit-ones (suc n) (suc i) = ap (λ t. test_bit t i) half ∙ test_bit-ones n i ∙ ground arith
  where
    half : (2 ^ suc n - 1) / 2 ≡ 2 ^ n - 1
    half = omega (arith, pow-suc 2 n, one-le-pow n 2)

pub bit_and-ones-lt : (n x : ℕ) → bit_and x (2 ^ n - 1) < 2 ^ n
bit_and-ones-lt n x =
    lt_of_bits (bit_and x (2 ^ n - 1)) n (bit_and x (2 ^ n - 1)) (omega arith)
      λ i h. ground (arith, test_bit-bit_and x (2 ^ n - 1) i, test_bit-ones n i)

pub bit_and-ones_of_lt : (n x : ℕ) → x < 2 ^ n → bit_and x (2 ^ n - 1) ≡ x
bit_and-ones_of_lt n x h =
    eq_of_bits (bit_and x (2 ^ n - 1) + x) (bit_and x (2 ^ n - 1)) x (omega arith) (omega arith)
      λ i.
        ground (arith, test_bit-bit_and x (2 ^ n - 1) i, test_bit-ones n i, test_bit-above n x i h)

-- Halving commutes with taking the low bits.
half-mod : (x m : ℕ) → 0 < m → x % (2 * m) / 2 ≡ x / 2 % m
half-mod x m h =
    sym (mod-eq_of_lt {n = x % (2 * m) / 2} {m = m} (omega arith))
    ∙ sym (add-mul-mod_self_left (x % (2 * m) / 2) m (x / (2 * m)))
    ∙ ap (λ t. t % m) (omega (arith, div-add-mod x (2 * m)))

low-mod : (x m : ℕ) → 0 < m → x % (2 * m) % 2 ≡ x % 2
low-mod x m h = omega (arith, div-add-mod x (2 * m))

pub two-pow-suc : (w : ℕ) → 2 ^ suc w ≡ 2 * 2 ^ w
two-pow-suc w = omega (arith, pow-suc 2 w)

-- The low bits of a number are its own.
pub test_bit-mod : (w x i : ℕ) → i < w → test_bit (x % 2 ^ w) i ≡ test_bit x i
test_bit-mod zero x i h = absurd (omega arith)
test_bit-mod (suc w) x zero h =
    ap (λ t. t == 1)
      (ap (λ t. x % t % 2) (two-pow-suc w) ∙ low-mod x (2 ^ w) (one-le-pow w 2 (omega arith)))
test_bit-mod (suc w) x (suc i) h =
    ap (λ t. test_bit t i)
      (ap (λ t. x % t / 2) (two-pow-suc w) ∙ half-mod x (2 ^ w) (one-le-pow w 2 (omega arith)))
    ∙ test_bit-mod w (x / 2) i (omega arith)

test_bit-mul-pow : (x k i : ℕ) → test_bit (x * 2 ^ k) (k + i) ≡ test_bit x i
test_bit-mul-pow x zero i = ap (λ t. test_bit t (0 + i)) one_times ∙ ap (test_bit x) (zero-add i)
  where
    one_times : x * 2 ^ 0 ≡ x
    one_times = omega arith
test_bit-mul-pow x (suc k) i =
    ap (test_bit (x * 2 ^ suc k)) next_bit
    ∙ ap (λ t. test_bit t (k + i)) halved
    ∙ test_bit-mul-pow x k i
  where
    next_bit : suc k + i ≡ suc (k + i)
    next_bit = omega arith

    halved : x * 2 ^ suc k / 2 ≡ x * 2 ^ k
    halved = omega (arith, ap (λ (t : ℕ). x * t) (two-pow-suc k))

-- A shift to the left moves each bit up, as far as the word reaches.
pub test_bit-shift_left :
    (x k i : ℕ) → k + i < 64 → test_bit (shift_left x k) (k + i) ≡ test_bit x i
test_bit-shift_left x k i h = test_bit-mod 64 (x * 2 ^ k) (k + i) h ∙ test_bit-mul-pow x k i
