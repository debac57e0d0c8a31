-- ===== src/RegField/Siblings.antt =====
-- What a write to one field puts on the bus for the other fields of its register.
use Prim.Native.Nat.{bit_or}
use uvm_systemc.Common.{
  ℕ, ◌+◌, ◌<◌, ◌≡◌, true, Option, none, some, List, [], ◌∷◌, ◌++◌, arith, Bool-cases, inl, inr,
}
use uvm_systemc.Common.Bits.{test_bit, test_bit-bit_or}
use uvm_systemc.Common.Words.{shift_left, test_bit-shift_left}
use uvm_systemc.RegField.{Field}
use uvm_systemc.RegField.Observing.{adjust_other, value_adjust, all_ones_policy}

test_bit-or_left : (a b i : ℕ) → test_bit a i ≡ true → test_bit (bit_or a b) i ≡ true
test_bit-or_left a b i h = ground (arith, test_bit-bit_or a b i)

adjust_other_keeps :
    (acc i : ℕ) (g : Field) → test_bit acc i ≡ true → test_bit (adjust_other acc g) i ≡ true
unfolding adjust_other
adjust_other_keeps acc i g h = elim (Bool-cases (all_ones_policy g.access)) [
  | inl ones ↦ rw ones (test_bit-or_left _ _ i (test_bit-or_left acc _ i h))
  | inr other ↦ rw other (test_bit-or_left acc _ i h)
]

value_adjust_keeps :
    (f : Field) (v acc i : ℕ) (gs : List (Option Field))
    → test_bit acc i ≡ true
    → test_bit (value_adjust f v acc gs) i ≡ true
unfolding value_adjust
value_adjust_keeps f v acc i [] h = h
value_adjust_keeps f v acc i (none ∷ gs) h =
    value_adjust_keeps f v (bit_or acc (shift_left v f.lsb)) i gs (test_bit-or_left acc _ i h)
value_adjust_keeps f v acc i (some g ∷ gs) h =
    value_adjust_keeps f v (adjust_other acc g) i gs (adjust_other_keeps acc i g h)

adjust_other_mirror :
    (acc i : ℕ) (g : Field)
    → g.lsb + i < 64
    → test_bit g.mirrored i ≡ true
    → test_bit (adjust_other acc g) (g.lsb + i) ≡ true
unfolding adjust_other
adjust_other_mirror acc i g h b = elim (Bool-cases (all_ones_policy g.access)) [
  | inl ones ↦ rw ones (last_or _)
  | inr other ↦ rw other (last_or _)
]
  where
    last_or : (a : ℕ) → test_bit (bit_or a (shift_left g.mirrored g.lsb)) (g.lsb + i) ≡ true
    last_or a = ground (
      arith,
      test_bit-bit_or a (shift_left g.mirrored g.lsb) (g.lsb + i),
      test_bit-shift_left g.mirrored g.lsb i h,
    )

-- When a field is written through its register, every bit that is set in the mirror of another field of
-- the register is written as 1, under every policy and whatever `value_adjust` starts with, if the bit
-- lies in the word.
pub value_adjust-mirror :
    (f : Field) (v acc i : ℕ) (g : Field) (before after : List (Option Field))
    → g.lsb + i < 64
    → test_bit g.mirrored i ≡ true
    → test_bit (value_adjust f v acc (before ++ some g ∷ after)) (g.lsb + i) ≡ true
unfolding value_adjust
value_adjust-mirror f v acc i g [] after h b =
    value_adjust_keeps f v (adjust_other acc g) (g.lsb + i) after (adjust_other_mirror acc i g h b)
value_adjust-mirror f v acc i g (none ∷ gs) after h b =
    value_adjust-mirror f v (bit_or acc (shift_left v f.lsb)) i g gs after h b
value_adjust-mirror f v acc i g (some y ∷ gs) after h b =
    value_adjust-mirror f v (adjust_other acc y) i g gs after h b
