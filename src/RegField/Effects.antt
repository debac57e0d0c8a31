-- ===== src/RegField/Effects.antt =====
-- The documented effect of each policy on a bit of the field, and the prediction that computes it: the
-- table in the comment of `set_access` against `m_predict` and the read case of `do_predict`.
use Prim.Native.Nat.{bit_and, bit_or}
use uvm_systemc.Common.{
  ap, ℕ, zero, suc, ◌-◌, ◌^◌, ◌≤◌, ◌<◌, ◌≡◌, refl, Bool, true, false, not, Option, none, some,
  arith, if◌then◌else◌,
}
use mathlib.Core.Option
use native.Mathlib.Nat.{pow-suc, one-le-pow, pow-le-pow_right}
use uvm_systemc.Common.Bits.{
  test_bit, test_bit-zero, test_bit-bit_and, test_bit-bit_or, test_bit-bit_xor, test_bit-complement,
}
use uvm_systemc.Common.Words.{complement, test_bit-ones}
use uvm_systemc.RegField.{uvm_mask_size, m_predict}
use uvm_systemc.RegField.Observing.{read_effect}
use uvm_systemc.RegField.Policy.{Access}

-- The mask has the lowest bits set, as many as asked for, up to the 64 of the word.
pub uvm_mask_size_lem : (n : ℕ) → n ≤ 64 → uvm_mask_size n ≡ 2 ^ n - 1
unfolding uvm_mask_size
uvm_mask_size_lem zero h = refl
uvm_mask_size_lem (suc n) h = omega (
  arith,
  uvm_mask_size_lem n (omega arith),
  pow-suc 2 n,
  one-le-pow n 2,
  pow-le-pow_right {n = 2} (omega arith) h,
)

-- After a write of the bit `w` to a field whose bit was `c`. `first` says that no write has come since
-- the hard reset.
unfoldable pub written_bit : Access → (first : Bool) → (c w : Bool) → Bool
written_bit Access.ro first c w = c
written_bit Access.rw first c w = w
written_bit Access.rc first c w = c
written_bit Access.rs first c w = c
written_bit Access.wrc first c w = w
written_bit Access.wrs first c w = w
written_bit Access.wc first c w = false
written_bit Access.ws first c w = true
written_bit Access.wsrc first c w = true
written_bit Access.wcrs first c w = false
written_bit Access.w1c first c w = if w then false else c
written_bit Access.w1s first c w = if w then true else c
written_bit Access.w1t first c w = if w then not c else c
written_bit Access.w0c first c w = if w then c else false
written_bit Access.w0s first c w = if w then c else true
written_bit Access.w0t first c w = if w then c else not c
written_bit Access.w1src first c w = if w then true else c
written_bit Access.w1crs first c w = if w then false else c
written_bit Access.w0src first c w = if w then c else true
written_bit Access.w0crs first c w = if w then c else false
written_bit Access.wo first c w = w
written_bit Access.woc first c w = false
written_bit Access.wos first c w = true
written_bit Access.w1 first c w = if first then w else c
written_bit Access.wo1 first c w = if first then w else c
written_bit (Access.custom s) first c w = w

pub mask_bit : (size i : ℕ) → size ≤ 64 → i < size → test_bit (uvm_mask_size size) i ≡ true
mask_bit size i h l = rw (uvm_mask_size_lem size h) (ground (arith, test_bit-ones size i))

-- `~wr & mask`
zeros :
    (size wr i : ℕ)
    → size ≤ 64
    → wr < 2 ^ 64
    → i < size
    → test_bit (bit_and (complement wr) (uvm_mask_size size)) i ≡ not (test_bit wr i)
zeros size wr i h k l = ground (
  arith,
  test_bit-bit_and (complement wr) (uvm_mask_size size) i,
  mask_bit size i h l,
  test_bit-complement 64 wr i k,
)

module _ (size cur wr i : ℕ) (h : size ≤ 64) (k : wr < 2 ^ 64) (l : i < size) where
  cleared :
      test_bit (bit_and cur (complement wr)) i ≡ (if test_bit wr i then false else test_bit cur i)
  cleared = ground (arith, test_bit-bit_and cur (complement wr) i, test_bit-complement 64 wr i k)

  set_by_zero :
      test_bit (bit_or cur (bit_and (complement wr) (uvm_mask_size size))) i
      ≡ (if test_bit wr i then test_bit cur i else true)
  set_by_zero = ground (
    arith,
    test_bit-bit_or cur (bit_and (complement wr) (uvm_mask_size size)) i,
    zeros size wr i h k l,
  )

-- For every policy, the prediction of a write sets each bit of the field as the policy's line in the
-- table of `set_access` says.
pub m_predict-bits :
    (a : Access) (written : Bool) (size cur wr i : ℕ)
    → size ≤ 64
    → wr < 2 ^ 64
    → i < size
    → test_bit (m_predict a written (uvm_mask_size size) cur wr) i
      ≡ written_bit a (not written) (test_bit cur i) (test_bit wr i)
unfolding m_predict written_bit
m_predict-bits Access.w1c written size cur wr i h k l = cleared size cur wr i h k l
m_predict-bits Access.w1s written size cur wr i h k l = ground (arith, test_bit-bit_or cur wr i)
m_predict-bits Access.w1t written size cur wr i h k l = ground (arith, test_bit-bit_xor cur wr i)
m_predict-bits Access.w0c written size cur wr i h k l = ground (arith, test_bit-bit_and cur wr i)
m_predict-bits Access.w0s written size cur wr i h k l = set_by_zero size cur wr i h k l
m_predict-bits Access.w0t written size cur wr i h k l = ground (
  arith,
  test_bit-bit_xor cur (bit_and (complement wr) (uvm_mask_size size)) i,
  zeros size wr i h k l,
)
m_predict-bits Access.w1src written size cur wr i h k l = ground (arith, test_bit-bit_or cur wr i)
m_predict-bits Access.w1crs written size cur wr i h k l = cleared size cur wr i h k l
m_predict-bits Access.w0src written size cur wr i h k l = set_by_zero size cur wr i h k l
m_predict-bits Access.w0crs written size cur wr i h k l = ground (arith, test_bit-bit_and cur wr i)
m_predict-bits Access.wc written size cur wr i h k l = test_bit-zero i
m_predict-bits Access.wcrs written size cur wr i h k l = test_bit-zero i
m_predict-bits Access.woc written size cur wr i h k l = test_bit-zero i
m_predict-bits Access.ws written size cur wr i h k l = mask_bit size i h l
m_predict-bits Access.wsrc written size cur wr i h k l = mask_bit size i h l
m_predict-bits Access.wos written size cur wr i h k l = mask_bit size i h l
m_predict-bits _ written size cur wr i h k l = ground arith

-- After a read of a field whose bit was `c`; `none` where the policy makes the read an error.
unfoldable pub read_bit : Access → Bool → Option Bool
read_bit Access.ro c = some c
read_bit Access.rw c = some c
read_bit Access.rc c = some false
read_bit Access.rs c = some true
read_bit Access.wrc c = some false
read_bit Access.wrs c = some true
read_bit Access.wc c = some c
read_bit Access.ws c = some c
read_bit Access.wsrc c = some false
read_bit Access.wcrs c = some true
read_bit Access.w1c c = some c
read_bit Access.w1s c = some c
read_bit Access.w1t c = some c
read_bit Access.w0c c = some c
read_bit Access.w0s c = some c
read_bit Access.w0t c = some c
read_bit Access.w1src c = some false
read_bit Access.w1crs c = some true
read_bit Access.w0src c = some false
read_bit Access.w0crs c = some true
read_bit Access.wo c = none
read_bit Access.woc c = none
read_bit Access.wos c = none
read_bit Access.w1 c = some c
read_bit Access.wo1 c = none
read_bit (Access.custom s) c = some c

-- For every policy, the prediction of a read sets each bit as the policy's line in the table of
-- `set_access` says, and predicts nothing where the line makes the read an error.
pub read_effect-bits :
    (a : Access) (size v i : ℕ)
    → size ≤ 64
    → i < size
    → Option.map (λ w. test_bit w i) (read_effect a (uvm_mask_size size) v)
      ≡ read_bit a (test_bit v i)
unfolding read_effect read_bit
read_effect-bits Access.rc size v i h l = ap some (test_bit-zero i)
read_effect-bits Access.wrc size v i h l = ap some (test_bit-zero i)
read_effect-bits Access.wsrc size v i h l = ap some (test_bit-zero i)
read_effect-bits Access.w1src size v i h l = ap some (test_bit-zero i)
read_effect-bits Access.w0src size v i h l = ap some (test_bit-zero i)
read_effect-bits Access.rs size v i h l = ap some (mask_bit size i h l)
read_effect-bits Access.wrs size v i h l = ap some (mask_bit size i h l)
read_effect-bits Access.wcrs size v i h l = ap some (mask_bit size i h l)
read_effect-bits Access.w1crs size v i h l = ap some (mask_bit size i h l)
read_effect-bits Access.w0crs size v i h l = ap some (mask_bit size i h l)
read_effect-bits _ size v i h l = refl
