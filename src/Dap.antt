-- ===== src/Dap.antt =====
-- The data access policies: src/uvmsc/dap/uvm_get_to_lock_dap.h, uvm_set_before_get_dap.h and
-- uvm_simple_lock_dap.h, which hold a value of any type and refuse some of the calls. An error report is
-- left out where the call does nothing else; copying and packing only report, printing is text.
pub mod Runs
mod Samples
use uvm_systemc.Common.{Bool, true, false, Option, none, some, if◌then◌else◌}

-- What the two locking policies keep.
pub record LockDap (T : Type 0) : Type 0 where
  pub m_value : T
  pub m_locked : Bool

pub record SetDap (T : Type 0) : Type 0 where
  pub m_value : T
  pub m_set : Bool

module _ {T : Type 0} where
  -- The set functions of both locking policies.
  unfoldable pub set : LockDap T → T → LockDap T
  set d v = if d.m_locked then d else record d { m_value = v }

  unfoldable pub try_set : LockDap T → T → LockDap T × Bool
  try_set d v = if d.m_locked then (d, false) else (record d { m_value = v }, true)

  -- `get` of a get-to-lock policy, which its `try_get` calls.
  unfoldable pub get_to_lock : LockDap T → LockDap T × T
  get_to_lock d = (record d { m_locked = true }, d.m_value)

  -- `get` of a simple lock, and its locks.
  unfoldable pub get : LockDap T → T
  get d = d.m_value

  unfoldable pub lock : LockDap T → LockDap T
  lock d = record d { m_locked = true }

  unfoldable pub unlock : LockDap T → LockDap T
  unlock d = record d { m_locked = false }

  unfoldable pub is_locked : LockDap T → Bool
  is_locked d = d.m_locked

  -- The policy that wants a set before a get. `get` reports an error before one, but answers.
  unfoldable pub set_first : SetDap T → T → SetDap T
  set_first d v = record d { m_set = true; m_value = v }

  unfoldable pub get_after_set : SetDap T → T
  get_after_set d = d.m_value

  unfoldable pub try_get : SetDap T → Option T
  try_get d = if d.m_set then some d.m_value else none
