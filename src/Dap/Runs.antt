-- ===== src/Dap/Runs.antt =====
-- Runs of calls on the data access policies.
use uvm_systemc.Common.{◌≡◌, refl, ap, Bool, true, false, Option, some, List, [], ◌∷◌, All}
use uvm_systemc.Dap.{
  LockDap, SetDap, set, try_set, get_to_lock, get, lock, unlock, is_locked, set_first, try_get,
}

pub data Call (T : Type 0) : Type 0 where
  sets : T → Call T
  tries : T → Call T
  gets : Call T

module _ {T : Type 0} where
  -- What the gets of a run answer, and what the tries do.
  abbrev pub answers : LockDap T → List (Call T) → List T
  answers d [] = []
  answers d (Call.sets v ∷ cs) = answers (set d v) cs
  answers d (Call.tries v ∷ cs) = answers (try_set d v).0 cs
  answers d (Call.gets ∷ cs) = (get_to_lock d).1 ∷ answers (get_to_lock d).0 cs

  -- The last value before the first get.
  abbrev pub agreed : T → List (Call T) → T
  agreed v [] = v
  agreed v (Call.sets w ∷ cs) = agreed w cs
  agreed v (Call.tries w ∷ cs) = agreed w cs
  agreed v (Call.gets ∷ cs) = v

  locked_answers :
      (d : LockDap T) (cs : List (Call T))
      → d.m_locked ≡ true
      → All (λ a. a ≡ d.m_value) (answers d cs)
  unfolding set try_set get_to_lock
  locked_answers d [] l = tt
  locked_answers d (Call.sets v ∷ cs) l =
      rw l (locked_answers (record d { m_locked = true }) cs refl)
  locked_answers d (Call.tries v ∷ cs) l =
      rw l (locked_answers (record d { m_locked = true }) cs refl)
  locked_answers d (Call.gets ∷ cs) l =
      (refl, locked_answers (record d { m_locked = true }) cs refl)

  -- However sets, tries and gets follow each other on a get-to-lock policy that is not locked, every get
  -- answers with one value, the last that was set before the first get.
  pub get_to_lock-agreed :
      (d : LockDap T) (cs : List (Call T))
      → d.m_locked ≡ false
      → All (λ a. a ≡ agreed d.m_value cs) (answers d cs)
  unfolding set try_set get_to_lock
  get_to_lock-agreed d [] l = tt
  get_to_lock-agreed d (Call.sets v ∷ cs) l =
      rw l (get_to_lock-agreed (record d { m_value = v; m_locked = false }) cs refl)
  get_to_lock-agreed d (Call.tries v ∷ cs) l =
      rw l (get_to_lock-agreed (record d { m_value = v; m_locked = false }) cs refl)
  get_to_lock-agreed d (Call.gets ∷ cs) l =
      (refl, locked_answers (record d { m_locked = true }) cs refl)

-- Calls on a simple lock between a lock and the next unlock.
pub data Locked (T : Type 0) : Type 0 where
  set_to : T → Locked T
  try_to : T → Locked T
  lock_again : Locked T

module _ {T : Type 0} where
  abbrev pub after : LockDap T → List (Locked T) → LockDap T
  after d [] = d
  after d (Locked.set_to v ∷ cs) = after (set d v) cs
  after d (Locked.try_to v ∷ cs) = after (try_set d v).0 cs
  after d (Locked.lock_again ∷ cs) = after (lock d) cs

  abbrev pub successes : LockDap T → List (Locked T) → List Bool
  successes d [] = []
  successes d (Locked.set_to v ∷ cs) = successes (set d v) cs
  successes d (Locked.try_to v ∷ cs) = (try_set d v).1 ∷ successes (try_set d v).0 cs
  successes d (Locked.lock_again ∷ cs) = successes (lock d) cs

  unchanged :
      (v : T) (cs : List (Locked T))
      → (after (record { m_value = v; m_locked = true }) cs
          ≡ record { m_value = v; m_locked = true })
        × All (λ b. b ≡ false) (successes (record { m_value = v; m_locked = true }) cs)
  unfolding set try_set lock
  unchanged v [] = (refl, tt)
  unchanged v (Locked.set_to w ∷ cs) = unchanged v cs
  unchanged v (Locked.try_to w ∷ cs) = let rest = unchanged v cs in (rest.0, (refl, rest.1))
  unchanged v (Locked.lock_again ∷ cs) = unchanged v cs

  -- From a lock on, sets and tries leave the value of a simple lock as it is, and every try is refused,
  -- until an unlock, after which a set takes effect.
  pub lock-unchanged :
      (d : LockDap T) (cs : List (Locked T)) (w : T)
      → (get (after (lock d) cs) ≡ get d)
        × (is_locked (after (lock d) cs) ≡ true)
        × All (λ b. b ≡ false) (successes (lock d) cs)
        × (get (set (unlock (after (lock d) cs)) w) ≡ w)
  unfolding lock unlock get set is_locked
  lock-unchanged d cs w =
      let kept = unchanged d.m_value cs in
      (ap LockDap.m_value (kept.0), ap LockDap.m_locked (kept.0), kept.1, refl)

  abbrev pub set_all : SetDap T → List T → SetDap T
  set_all d [] = d
  set_all d (v ∷ vs) = set_all (set_first d v) vs

  abbrev pub last_or : Option T → List T → Option T
  last_or o [] = o
  last_or o (v ∷ vs) = last_or (some v) vs

  -- `try_get` answers with the last value that was set, and with none before any.
  pub try_get-set_all :
      (d : SetDap T) (vs : List T) → try_get (set_all d vs) ≡ last_or (try_get d) vs
  unfolding try_get set_first
  try_get-set_all d [] = refl
  try_get-set_all d (v ∷ vs) = try_get-set_all (set_first d v) vs
