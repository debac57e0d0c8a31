-- ===== src/Common/Bits.antt =====
-- The bits of a number, and what the bitwise operations of a word do to each of them.
use Prim.Native.Nat.{
  ℕ, zero, suc, ◌+◌, ◌-◌, ◌*◌, ◌/◌, ◌%◌, ◌^◌, ◌≤◌, ◌<◌, min, max, differ, bit_and, bit_or, bit_xor,
  digits, bit_and-bitwise, bit_or-bitwise, bit_xor-bitwise,
}
use mathlib.Core.Path.{◌≡◌, refl, ap, ◌∙◌, sym}
use mathlib.Core.Bool.{Bool, true, false, ◌&&◌, ◌||◌, not}
use native.Mathlib.Nat.{pow-suc, one-le-pow, le_refl}
use native.Mathlib.Omega.{arith}
use uvm_systemc.Common.Tests.{◌==◌}

-- Bit `i` of a number, counted from the least significant.
abbrev pub test_bit : ℕ → ℕ → Bool
test_bit n zero = n % 2 == 1
test_bit n (suc i) = test_bit (n / 2) i

pub test_bit-zero : (i : ℕ) → test_bit 0 i ≡ false
test_bit-zero zero = refl
test_bit-zero (suc i) = test_bit-zero i

-- Exclusive or of two bits.
abbrev pub xorb : Bool → Bool → Bool
xorb true y = not y
xorb false y = y

join-even : (q d : ℕ) → d < 2 → (((q * 2 + d) % 2) == 1) ≡ (d == 1)
join-even q d h = ground (arith, digit)
  where
    digit : (q * 2 + d) % 2 ≡ d
    digit = omega arith

join-div : (q d : ℕ) → d < 2 → (q * 2 + d) / 2 ≡ q
join-div q d h = omega arith

-- A recursion on digits acts on each bit, where its operation on two digits does.
module _ (z : ℕ → ℕ) (f : ℕ → ℕ → ℕ) (g : Bool → Bool → Bool)
    (run_out : (b i : ℕ) → test_bit (z b) i ≡ g false (test_bit b i))
    (digit : (a b : ℕ)
      → (f (a % 2) (b % 2) < 2) × ((f (a % 2) (b % 2) == 1) ≡ g (a % 2 == 1) (b % 2 == 1))) where
  test_bit-digits :
      (n a b i : ℕ) → a ≤ n → test_bit (digits z f n a b) i ≡ g (test_bit a i) (test_bit b i)
  test_bit-digits zero zero b i h =
      run_out b i ∙ ap (λ t. g t (test_bit b i)) (sym (test_bit-zero i))
  test_bit-digits zero (suc a) b i h = absurd (omega arith)
  test_bit-digits (suc n) zero b i h =
      run_out b i ∙ ap (λ t. g t (test_bit b i)) (sym (test_bit-zero i))
  test_bit-digits (suc n) (suc a) b zero h =
      join-even (digits z f n (suc a / 2) (b / 2)) _ (digit (suc a) b).0 ∙ (digit (suc a) b).1
  test_bit-digits (suc n) (suc a) b (suc i) h =
      ap (λ t. test_bit t i) (join-div (digits z f n (suc a / 2) (b / 2)) _ (digit (suc a) b).0)
      ∙ test_bit-digits n (suc a / 2) (b / 2) i (omega arith)

and_digit :
    (a b : ℕ)
    → (min (a % 2) (b % 2) < 2) × ((min (a % 2) (b % 2) == 1) ≡ ((a % 2 == 1) && (b % 2 == 1)))
and_digit a b = (omega arith, ground arith)

or_digit :
    (a b : ℕ)
    → (max (a % 2) (b % 2) < 2) × ((max (a % 2) (b % 2) == 1) ≡ ((a % 2 == 1) || (b % 2 == 1)))
or_digit a b = (omega arith, ground arith)

two_values :
    (a : ℕ)
    → a < 2
    → (b : ℕ) → b < 2
    → (differ a b < 2) × ((differ a b == 1) ≡ xorb (a == 1) (b == 1))
two_values zero h zero k = (omega arith, refl)
two_values zero h (suc zero) k = (omega arith, refl)
two_values zero h (suc (suc b)) k = absurd (omega arith)
two_values (suc zero) h zero k = (omega arith, refl)
two_values (suc zero) h (suc zero) k = (omega arith, refl)
two_values (suc zero) h (suc (suc b)) k = absurd (omega arith)
two_values (suc (suc a)) h b k = absurd (omega arith)

xor_digit :
    (a b : ℕ)
    → (differ (a % 2) (b % 2) < 2)
      × ((differ (a % 2) (b % 2) == 1) ≡ xorb (a % 2 == 1) (b % 2 == 1))
xor_digit a b = two_values (a % 2) (omega arith) (b % 2) (omega arith)

pub test_bit-bit_and : (a b i : ℕ) → test_bit (bit_and a b) i ≡ (test_bit a i && test_bit b i)
test_bit-bit_and a b i =
    ap (λ t. test_bit t i) (bit_and-bitwise a b)
    ∙ test_bit-digits (λ _. 0) min (λ s t. s && t) (λ b i. test_bit-zero i) and_digit a a b i
        (le_refl a)

pub test_bit-bit_or : (a b i : ℕ) → test_bit (bit_or a b) i ≡ (test_bit a i || test_bit b i)
test_bit-bit_or a b i =
    ap (λ t. test_bit t i) (bit_or-bitwise a b)
    ∙ test_bit-digits (λ b. b) max (λ s t. s || t) (λ b i. refl) or_digit a a b i (le_refl a)

pub test_bit-bit_xor : (a b i : ℕ) → test_bit (bit_xor a b) i ≡ xorb (test_bit a i) (test_bit b i)
test_bit-bit_xor a b i =
    ap (λ t. test_bit t i) (bit_xor-bitwise a b)
    ∙ test_bit-digits (λ b. b) differ xorb (λ b i. refl) xor_digit a a b i (le_refl a)

-- `2 ^ w - 1 - x` is the complement of a word of `w` bits.
complement-half : (w x : ℕ) → x < 2 ^ suc w → (2 ^ suc w - 1 - x) / 2 ≡ 2 ^ w - 1 - x / 2
complement-half w x h = omega (arith, pow-suc 2 w)

complement-low : (w x : ℕ) → x < 2 ^ suc w → (2 ^ suc w - 1 - x) % 2 ≡ 1 - x % 2
complement-low w x h = omega (arith, pow-suc 2 w)

pub test_bit-complement :
    (w x i : ℕ) → x < 2 ^ w → i < w → test_bit (2 ^ w - 1 - x) i ≡ not (test_bit x i)
test_bit-complement zero x i h k = absurd (omega arith)
test_bit-complement (suc w) x zero h k = ground (arith, complement-low w x)
test_bit-complement (suc w) x (suc i) h k =
    ap (λ t. test_bit t i) (complement-half w x h)
    ∙ test_bit-complement w (x / 2) i (omega (arith, pow-suc 2 w)) (omega arith)

-- The bits of a number below `2 ^ w` lie below `w`.
pub test_bit-above : (w x i : ℕ) → x < 2 ^ w → w ≤ i → test_bit x i ≡ false
test_bit-above zero zero i h k = test_bit-zero i
test_bit-above zero (suc x) i h k = absurd (omega arith)
test_bit-above (suc w) x zero h k = absurd (omega arith)
test_bit-above (suc w) x (suc i) h k =
    test_bit-above w (x / 2) i (omega (arith, pow-suc 2 w)) (omega arith)

-- A number whose bits all lie below `w` is below `2 ^ w`.
pub lt_of_bits : (n w x : ℕ) → x ≤ n → ((i : ℕ) → w ≤ i → test_bit x i ≡ false) → x < 2 ^ w
lt_of_bits zero w x h high = omega (arith, one-le-pow w 2)
lt_of_bits (suc n) zero x h high =
    ground
      (arith, high 0, lt_of_bits n zero (x / 2) (omega arith) (λ i k. high (suc i) (omega arith)))
lt_of_bits (suc n) (suc w) x h high =
    omega
      (arith, pow-suc 2 w, lt_of_bits n w (x / 2) (omega arith) (λ i k. high (suc i) (omega arith)))
