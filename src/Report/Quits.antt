-- ===== src/Report/Quits.antt =====
-- The quit count of the report server (src/uvmsc/report/uvm_default_report_server.cpp) over a run of
-- messages.
use Prim.Native.Nat.{bit_and, bit_or}
use Prim.Native.String.{String}
use uvm_systemc.Common.{
  ℕ, zero, suc, ◌+◌, ◌/◌, ◌^◌, ◌<◌, ◌≡◌, refl, ap, ◌∙◌, sym, subst, Bool, true, false, not, ◌&&◌,
  ◌||◌, List, [], ◌∷◌, ◌++◌, ◌==◌, leb, if◌then◌else◌, arith, inl, inr, Bool-cases, All, ==_iff,
  if_true, if_false,
}
use uvm_systemc.Common.Bits.{test_bit, test_bit-zero, test_bit-bit_and, test_bit-bit_or}
use uvm_systemc.Common.Words.{eq_of_bits, two-pow-suc}
use uvm_systemc.Report.{Message, has, count, exit, stop, rm_record}
use uvm_systemc.Report.Server.{
  Server, Effect, displays, logs, dies, stops, count_quit, endings, execute_report_message,
  has_died, execute_all, incr_quit_count, is_quit_count_reached, incr_severity_count, incr_id_count,
}

test_bit-pow : (k i : ℕ) → test_bit (2 ^ k) i ≡ (i == k)
test_bit-pow zero zero = refl
test_bit-pow zero (suc i) = test_bit-zero i ∙ ground arith
test_bit-pow (suc k) zero = ground (arith, two-pow-suc k)
test_bit-pow (suc k) (suc i) = ap (λ t. test_bit t i) halved ∙ test_bit-pow k i ∙ ground arith
  where
    halved : 2 ^ suc k / 2 ≡ 2 ^ k
    halved = omega (arith, two-pow-suc k)

-- An action has a flag if the flag's bit is set.
has-test_bit : (a k : ℕ) → has a (2 ^ k) ≡ test_bit a k
has-test_bit a k = elim (Bool-cases (test_bit a k)) [
  | inl on ↦ ground (arith, bit k, ap (λ t. test_bit t k), test_bit-zero k)
  | inr off ↦ ground (arith, clear off)
]
  where
    bit : (i : ℕ) → test_bit (bit_and a (2 ^ k)) i ≡ (test_bit a i && (i == k))
    bit i = test_bit-bit_and a (2 ^ k) i ∙ ap (λ b. test_bit a i && b) (test_bit-pow k i)

    clear : test_bit a k ≡ false → bit_and a (2 ^ k) ≡ 0
    clear off =
        eq_of_bits (bit_and a (2 ^ k)) _ 0 (omega arith) (omega arith)
          λ i. bit i ∙ other i ∙ sym (test_bit-zero i)
      where
        other : (i : ℕ) → (test_bit a i && (i == k)) ≡ false
        other i = elim (Bool-cases (i == k)) [
          | inl e ↦ ground (arith, ap (test_bit a) ((==_iff i k).0 e))
          | inr e ↦ ground arith
        ]

has-bit_or : (a b k : ℕ) → has (bit_or a b) (2 ^ k) ≡ (has a (2 ^ k) || has b (2 ^ k))
has-bit_or a b k =
    ground (
      arith,
      has-test_bit (bit_or a b) k,
      has-test_bit a k,
      has-test_bit b k,
      test_bit-bit_or a b k,
    )

has_died-append : (es fs : List Effect) → has_died (es ++ fs) ≡ (has_died es || has_died fs)
unfolding has_died
has_died-append [] fs = refl
has_died-append (dies ∷ es) fs = refl
has_died-append (displays text ∷ es) fs = has_died-append es fs
has_died-append (logs file text ∷ es) fs = has_died-append es fs
has_died-append (stops ∷ es) fs = has_died-append es fs

-- Showing a message does not end the run.
has_died-shown :
    (on_display on_log : Bool) (text : String) (file : ℕ) (es : List Effect)
    → has_died (
        (if on_display then displays text ∷ [] else [])
        ++ (if on_log then logs file text ∷ [] else [])
        ++ es)
      ≡ has_died es
unfolding has_died
has_died-shown true true text file es = refl
has_died-shown true false text file es = refl
has_died-shown false true text file es = refl
has_died-shown false false text file es = refl

has_died-endings : (a : ℕ) → has_died (endings a) ≡ has a exit
unfolding has_died endings
has_died-endings a = elim (Bool-cases (has a exit)) [
  | inl e ↦ rw e refl
  | inr e ↦ elim (Bool-cases (has a stop)) [ inl f ↦ rw (e, f) refl | inr f ↦ rw (e, f) refl ]
]

-- The record flag is no other flag.
recorded_flag :
    (b : Bool) (a k : ℕ)
    → (k == 6) ≡ false
    → has (if b then bit_or a rm_record else a) (2 ^ k) ≡ has a (2 ^ k)
recorded_flag false a k other = refl
recorded_flag true a k other =
    ground (arith, has-bit_or a rm_record k, has-test_bit rm_record k, test_bit-pow 6 k)

count_quit_lem :
    (s : Server) (a : ℕ)
    → 0 < s.max_quit_count
    → has a exit ≡ false
    → let r = count_quit s a in
      (r.0.max_quit_count ≡ s.max_quit_count)
      × (r.0.quit_count ≡ (if has a count then s.quit_count + 1 else s.quit_count))
      × (has r.1 exit ≡ (has a count && leb s.max_quit_count (s.quit_count + 1)))
unfolding count_quit incr_quit_count is_quit_count_reached
count_quit_lem s a some_max no_exit = elim (Bool-cases (has a count)) [
  | inr off ↦ rw off (refl, refl, no_exit)
  | inl on ↦
      let counts : count_quit s a ≡ (
        incr_quit_count s,
        if leb s.max_quit_count (s.quit_count + 1) then bit_or a exit else a,
      ) =
        if_true (has a count && not (s.max_quit_count == 0)) _ _ (ground arith) in
      (
        ap (λ (r : Server × ℕ). r.0.max_quit_count) counts,
        ap (λ (r : Server × ℕ). r.0.quit_count) counts ∙ ground arith,
        ap (λ (r : Server × ℕ). has r.1 exit) counts
            ∙ reached (leb s.max_quit_count (s.quit_count + 1)) on,
      )
]
  where
    reached :
        (b : Bool)
        → has a count ≡ true
        → has (if b then bit_or a exit else a) exit ≡ (has a count && b)
    reached true on = ground (arith, has-bit_or a exit 3)
    reached false on = ground arith

-- The messages that ask to be counted.
abbrev pub counted : List (Message × String) → ℕ
counted [] = 0
counted ((m, text) ∷ ms) = (if has m.action count then 1 else 0) + counted ms

-- One message that does not ask to exit.
execute_lem :
    (s : Server) (m : Message) (text : String)
    → 0 < s.max_quit_count
    → has m.action exit ≡ false
    → let (s', m', es) = execute_report_message s m text in
      (s'.max_quit_count ≡ s.max_quit_count)
      × (s'.quit_count ≡ (if has m.action count then s.quit_count + 1 else s.quit_count))
      × (has_died es ≡ (has m.action count && leb s.max_quit_count (s.quit_count + 1)))
unfolding execute_report_message incr_severity_count incr_id_count
execute_lem s m text some_max no_exit = (
  after.0,
  after.1 ∙ ap (λ (b : Bool). if b then s.quit_count + 1 else s.quit_count) same_count,
  has_died-shown _ _ text m.file _
      ∙ has_died-endings _
      ∙ after.2
      ∙ ap (λ b. b && leb s.max_quit_count (s.quit_count + 1)) same_count,
)
  where
    a : ℕ
    a = if s.record_all_messages then bit_or m.action rm_record else m.action

    same_count : has a count ≡ has m.action count
    same_count = recorded_flag s.record_all_messages m.action 2 refl

    after :
        let r = count_quit (incr_id_count (incr_severity_count s m.severity) m.id) a in
        (r.0.max_quit_count ≡ s.max_quit_count)
        × (r.0.quit_count ≡ (if has a count then s.quit_count + 1 else s.quit_count))
        × (has r.1 exit ≡ (has a count && leb s.max_quit_count (s.quit_count + 1)))
    after =
        count_quit_lem (incr_id_count (incr_severity_count s m.severity) m.id) a some_max
          (recorded_flag s.record_all_messages m.action 3 refl ∙ no_exit)

-- How a run ends, by the quit count at its start, the maximum, and the number of counted messages.
abbrev EndsAt : ℕ → ℕ → ℕ → Server × List Effect × List (Message × String) → Type 0
EndsAt quit max n r =
    (has_died r.1 ≡ leb max (quit + n))
    × (r.0.quit_count ≡ (if leb max (quit + n) then max else quit + n))

-- If a run starts below a maximum that is not 0, and no message asks to exit by itself, then the run
-- ends by `die` exactly if the counted messages bring the quit count to the maximum; the quit count
-- never passes the maximum, and if the run does not end so, all its counted messages were added to it.
pub execute_all_quits :
    (s : Server) (ms : List (Message × String))
    → s.quit_count < s.max_quit_count
    → All (λ mt. has mt.0.action exit ≡ false) ms
    → let (s', es, left) = execute_all s ms in
      (has_died es ≡ leb s.max_quit_count (s.quit_count + counted ms))
      × (s'.quit_count ≡ (
          if leb s.max_quit_count (s.quit_count + counted ms)
          then s.max_quit_count
          else s.quit_count + counted ms))
unfolding execute_all has_died
execute_all_quits s [] below no_exit = (ground arith, ground arith)
execute_all_quits s ((m, text) ∷ ms) below no_exit = elim (Bool-cases (has_died run.2)) [
  | inl died ↦
      subst (EndsAt s.quit_count s.max_quit_count (one + counted ms)) (sym (if_true _ _ _ died))
        (ground (arith, step), ground (arith, step))
  | inr lives ↦
      let rest = execute_all_quits run.0 ms (still_below lives) no_exit.1 in
      subst (EndsAt s.quit_count s.max_quit_count (one + counted ms)) (sym (if_false _ _ _ lives)) (
        has_died-append run.2 (execute_all run.0 ms).1 ∙ ground (arith, step, rest),
        ground (arith, step, rest),
      )
]
  where
    run : Server × Message × List Effect
    run = execute_report_message s m text

    one : ℕ
    one = if has m.action count then 1 else 0

    step :
        (run.0.max_quit_count ≡ s.max_quit_count)
        × (run.0.quit_count ≡ (if has m.action count then s.quit_count + 1 else s.quit_count))
        × (has_died run.2 ≡ (has m.action count && leb s.max_quit_count (s.quit_count + 1)))
    step = execute_lem s m text (omega arith) no_exit.0

    still_below : has_died run.2 ≡ false → run.0.quit_count < run.0.max_quit_count
    still_below lives = ground (arith, step)
