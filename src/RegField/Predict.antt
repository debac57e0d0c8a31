-- ===== src/RegField/Predict.antt =====
-- What `do_predict` and `predict` do to the mirror of a field.
use Prim.Native.Nat.{bit_and}
use Prim.Native.String.{String}
use uvm_systemc.Common.{
  ℕ, ◌^◌, ◌≤◌, ◌<◌, ◌≡◌, refl, ap, sym, ◌∙◌, true, false, not, Option, none, some, arith,
  Bool-cases, inl, inr, if◌then◌else◌, ◌⊎◌,
}
use mathlib.Core.Option
use text.Mathlib.Text.{◌==◌ as str_eq}
use uvm_systemc.Common.Maps.{find, string_key}
use native.Mathlib.Nat.{pow-le-pow_right}
use uvm_systemc.Common.Bits.{test_bit, test_bit-bit_and}
use uvm_systemc.RegField.{Field, uvm_mask_size, m_predict, reset, hard, reset_to, needs_update}
use uvm_systemc.RegField.Observing.{
  predict_direct, predict_read, predict_write, not_ok, Kind, Observed, read_effect, predict_by_kind,
  do_predict, predict, through_policy, read_assign,
}
use uvm_systemc.RegField.Policy.{Access}
use uvm_systemc.RegField.Effects.{written_bit, read_bit, m_predict-bits, read_effect-bits, mask_bit}
use uvm_systemc.RegField.Bounds.{IsValid, mask-lt, mask_of_lt}

-- The callbacks leave the predicted value alone.
abbrev pub Quiet : Observed → Type 0
Quiet o = (prev v : ℕ) → o.post_predict prev v ≡ v

pub masked-bit :
    (size v i : ℕ)
    → size ≤ 64
    → i < size
    → test_bit (bit_and v (uvm_mask_size size)) i ≡ test_bit v i
masked-bit size v i h l =
    ground (arith, test_bit-bit_and v (uvm_mask_size size) i, mask_bit size i h l)

-- A write that is observed on the bus updates every bit of the mirror as the documented effect of the
-- policy says, from the bit that the mirror had and the bit that was written; the desired value
-- follows the mirror, and the field counts as written. This is for a valid field, an operation that
-- goes through the policy (front door or prediction) with the byte enabled, and callbacks that leave
-- the value alone.
pub do_predict-written_bit :
    (f : Field) (o : Observed) (i : ℕ)
    → IsValid f
    → Quiet o
    → o.enabled ≡ true
    → through_policy o.path ≡ true
    → i < f.size
    → let g = (do_predict predict_write f o).0 in
      (test_bit g.mirrored i
        ≡ written_bit o.access (not f.written) (test_bit f.mirrored i) (test_bit o.value i))
      × (g.desired ≡ g.mirrored)
      × (g.written ≡ true)
unfolding do_predict predict_by_kind
do_predict-written_bit f o i h quiet on policy l = rw (on, policy) (bits, refl, refl)
  where
    v : ℕ
    v = bit_and o.value (uvm_mask_size f.size)

    bits :
        test_bit
          (bit_and
            (o.post_predict f.mirrored
              (m_predict o.access f.written (uvm_mask_size f.size) f.mirrored v))
            (uvm_mask_size f.size))
          i
        ≡ written_bit o.access (not f.written) (test_bit f.mirrored i) (test_bit o.value i)
    bits =
        masked-bit f.size _ i h.word l
        ∙ ap (λ t. test_bit t i) (quiet f.mirrored _)
        ∙ m_predict-bits o.access f.written f.size f.mirrored v i h.word word l
        ∙ ap (written_bit o.access (not f.written) (test_bit f.mirrored i))
            (masked-bit f.size o.value i h.word l)
      where
        word : v < 2 ^ 64
        word =
            omega
              (arith, mask-lt f.size o.value h.word, pow-le-pow_right {n = 2} (omega arith) h.word)

-- `predict` never reports success.
pub predict_fails : (kind : Kind) (f : Field) (o : Observed) → (predict kind f o).1 ≡ false
unfolding predict do_predict predict_by_kind
predict_fails predict_direct f o = ground arith
predict_fails predict_read f o = ground arith
predict_fails predict_write f o = ground arith

-- A direct prediction while the register is busy reports that it failed, and changes the mirror and the
-- desired value all the same.
pub do_predict_busy :
    (f : Field) (o : Observed)
    → IsValid f
    → o.enabled ≡ true
    → o.busy ≡ true
    → o.value < 2 ^ f.size
    → let (g, status) = do_predict predict_direct f o in
      (status ≡ not_ok) × (g.mirrored ≡ o.value) × (g.desired ≡ o.value)
unfolding do_predict predict_by_kind
do_predict_busy f o h on busy fits = ground (arith, mask_of_lt f.size o.value h.word fits)

-- A read that is observed on the bus leaves in each bit of the mirror what the documented effect of the
-- policy says, from the bit that was read; where the policy makes the read an error the field stays as
-- it was. The conditions are those of a write.
pub do_predict-read_bit :
    (f : Field) (o : Observed) (i : ℕ)
    → IsValid f
    → Quiet o
    → o.enabled ≡ true
    → through_policy o.path ≡ true
    → i < f.size
    → let g = (do_predict predict_read f o).0 in
      ((read_bit o.access (test_bit o.value i) ≡ none) × (g ≡ f))
      ⊎ (read_bit o.access (test_bit o.value i) ≡ some (test_bit g.mirrored i))
unfolding do_predict predict_by_kind
do_predict-read_bit f o i h quiet on policy l = rw (on, policy) (by_effect effect refl)
  where
    v : ℕ
    v = bit_and o.value (uvm_mask_size f.size)

    effect : Option ℕ
    effect = read_effect o.access (uvm_mask_size f.size) v

    documented : Option.map (λ w. test_bit w i) effect ≡ read_bit o.access (test_bit o.value i)
    documented =
        read_effect-bits o.access f.size v i h.word l
        ∙ ap (read_bit o.access) (masked-bit f.size o.value i h.word l)

    by_effect :
        (e : Option ℕ)
        → effect ≡ e
        → ((read_bit o.access (test_bit o.value i) ≡ none) × (read_assign f o e ≡ f))
          ⊎ (read_bit o.access (test_bit o.value i)
              ≡ some (test_bit (read_assign f o e).mirrored i))
    by_effect none q = inl (sym documented ∙ ap (Option.map (λ w. test_bit w i)) q, refl)
    by_effect (some w) q = inr (
        sym documented
        ∙ ap (Option.map (λ w. test_bit w i)) q
        ∙ ap some
            (sym (masked-bit f.size _ i h.word l ∙ ap (λ t. test_bit t i) (quiet f.mirrored w))))

-- A field that can be written once keeps its mirror at every later write.
pub do_predict_write_once :
    (f : Field) (o : Observed)
    → IsValid f
    → Quiet o
    → f.written ≡ true
    → through_policy o.path ≡ true
    → (o.access ≡ Access.w1) ⊎ (o.access ≡ Access.wo1)
    → (do_predict predict_write f o).0.mirrored ≡ f.mirrored
unfolding do_predict predict_by_kind m_predict
do_predict_write_once f o h quiet spent policy once = elim (Bool-cases o.enabled) [
  | inr off ↦ rw off
  | inl on ↦ rw (on, policy) (kept once)
]
  where
    kept :
        (o.access ≡ Access.w1) ⊎ (o.access ≡ Access.wo1)
        → bit_and
            (o.post_predict f.mirrored (
              m_predict o.access f.written
                (uvm_mask_size f.size)
                f.mirrored
                (bit_and o.value (uvm_mask_size f.size))))
            (uvm_mask_size f.size)
          ≡ f.mirrored
    kept (inl e) =
        rw (e, spent, m_predict, quiet) (mask_of_lt f.size f.mirrored h.word h.mirrored_fits)
    kept (inr e) =
        rw (e, spent, m_predict, quiet) (mask_of_lt f.size f.mirrored h.word h.mirrored_fits)

-- A reset of a kind for which the field has a value sets the mirror, the desired and the abstract value
-- to it, so that nothing needs an update. The mark that the field was written is cleared if the kind is
-- HARD, and kept otherwise.
pub reset_lem :
    (f : Field) (kind : String) (v : ℕ)
    → find kind f.resets ≡ some v
    → let g = reset f kind in
      (g.mirrored ≡ v)
      × (g.desired ≡ v)
      × (g.value ≡ v)
      × (needs_update g ≡ false)
      × (g.written ≡ (if str_eq kind hard then false else f.written))
unfolding reset needs_update
reset_lem f kind v e = rw (e, reset_to) (refl, refl, refl, ground arith, refl)
