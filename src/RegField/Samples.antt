-- ===== src/RegField/Samples.antt =====
-- A field of four bits in use, and the theorems on fields at concrete inputs.
use uvm_systemc.Common.{ℕ, ◌≡◌, refl, true, false, none, some, [], ◌∷◌, arith, ◌⊎◌, List}
use uvm_systemc.Common.Bits.{test_bit}
use uvm_systemc.Common.Maps.{string_key}
use uvm_systemc.RegField.{Field, uvm_mask_size, new_field, m_predict}
use uvm_systemc.RegField.Observing.{
  predict_read, predict_write, frontdoor, is_ok, Observed, do_predict, predict_by_kind,
}
use uvm_systemc.RegField.Policy.{Access, rights_ro, rights_wo, get_access}
use uvm_systemc.RegField.Effects.{written_bit, read_bit, m_predict-bits}
use uvm_systemc.RegField.Bounds.{IsValid}
use uvm_systemc.RegField.Runs.{Call, calls_set, calls_reset, calls_predict, run, run-IsValid}
use uvm_systemc.RegField.Predict.{do_predict-written_bit, do_predict-read_bit}

abbrev flags : Access → Field
flags a = record new_field {
  mirrored = 0b0110;
  desired = 0b0110;
  value = 0b0110;
  access = a;
  lsb = 4;
  size = 4;
  check = true;
  resets = ("HARD", 3) ∷ [];
}

abbrev bus : Access → ℕ → Observed
bus a v = record {
  value = v;
  path = frontdoor;
  status = is_ok;
  enabled = true;
  access = a;
  busy = false;
  post_predict = λ prev w. w;
}

flags-IsValid : (a : Access) → IsValid (flags a)
flags-IsValid a = record {
  positive = omega arith;
  word = omega arith;
  mirrored_fits = omega arith;
  desired_fits = omega arith;
  value_fits = omega arith;
  resets_fit = omega arith;
}

write_one_to_clear :
    (do_predict predict_write (flags Access.w1c) (bus Access.w1c 0b0011)).0.mirrored ≡ 0b0100
unfolding do_predict predict_by_kind uvm_mask_size
write_one_to_clear = refl

read_only_through_map : get_access Access.w1crs false rights_ro ≡ (Access.rs, none)
unfolding get_access
read_only_through_map = refl

m_predict-bits_example :
    test_bit (m_predict Access.w0t false (uvm_mask_size 4) 0b0110 0b0101) 1
    ≡ written_bit Access.w0t true true false
m_predict-bits_example =
    m_predict-bits Access.w0t false 4 0b0110 0b0101 1 (omega arith) (omega arith) (omega arith)

abbrev calls : List Call
calls = calls_set 0x77 ∷ calls_predict predict_write (bus Access.rw 0xff) ∷ calls_reset "HARD" ∷ []

run-IsValid_example : IsValid (run (λ _. true) (flags Access.rw) calls)
run-IsValid_example = run-IsValid (λ _. true) (flags Access.rw) calls (flags-IsValid Access.rw)

do_predict-written_bit_example :
    let g = (do_predict predict_write (flags Access.w1c) (bus Access.w1c 0b0011)).0 in
    (test_bit g.mirrored 1 ≡ false) × (g.desired ≡ g.mirrored) × (g.written ≡ true)
unfolding written_bit
do_predict-written_bit_example =
    do_predict-written_bit (flags Access.w1c) (bus Access.w1c 0b0011) 1 (flags-IsValid Access.w1c)
      (λ _ _. refl) refl refl (omega arith)

do_predict-read_bit_example :
    let g = (do_predict predict_read (flags Access.rc) (bus Access.rc 0b0011)).0 in
    ((read_bit Access.rc true ≡ none) × (g ≡ flags Access.rc))
    ⊎ (read_bit Access.rc true ≡ some (test_bit g.mirrored 1))
do_predict-read_bit_example =
    do_predict-read_bit (flags Access.rc) (bus Access.rc 0b0011) 1 (flags-IsValid Access.rc)
      (λ _ _. refl) refl refl (omega arith)

abbrev spent : Field
spent = record (flags Access.w1) { written = true }

spent-IsValid : IsValid spent
spent-IsValid = record {
  positive = omega arith;
  word = omega arith;
  mirrored_fits = omega arith;
  desired_fits = omega arith;
  value_fits = omega arith;
  resets_fit = omega arith;
}

wo_through_map : get_access Access.rw false rights_wo ≡ (Access.wo, none)
unfolding get_access
wo_through_map = refl
