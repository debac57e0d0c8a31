-- ===== src/Dap/Samples.antt =====
-- Runs on the policies with numbers for values.
use uvm_systemc.Common.{ℕ, ◌≡◌, refl, false, List, [], ◌∷◌, All}
use uvm_systemc.Dap.{LockDap, set, try_set, get_to_lock}
use uvm_systemc.Dap.Runs.{Call, answers, get_to_lock-agreed}

abbrev fresh : LockDap ℕ
fresh = record { m_value = 0; m_locked = false }

abbrev calls : List (Call ℕ)
calls = Call.sets 3 ∷ Call.tries 5 ∷ Call.gets ∷ Call.sets 7 ∷ Call.gets ∷ []

five_twice : answers fresh calls ≡ 5 ∷ 5 ∷ []
unfolding set try_set get_to_lock
five_twice = refl

get_to_lock-agreed_example : All (λ a. a ≡ 5) (answers fresh calls)
get_to_lock-agreed_example = get_to_lock-agreed fresh calls refl
