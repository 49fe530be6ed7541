-- ===== src/Blocker.antt =====
-- A thread in Blocker::block() among calls of release() and rearm() by others
-- (core/include/superflow/utils/blocker.h), in steps between which another thread may run.
pub mod Wakeup
use superflow.Base.{ℕ, suc, Bool, true, false, ◌≡◌}

-- Where the thread is. `testing`: it has the mutex, or is to get it, and tests the wait's condition
-- next. `falling_asleep`: it has found the condition false and has not begun to sleep.
pub data Phase : Type 0 where
  outside : Phase
  testing : Phase
  falling_asleep : Phase
  asleep : Phase
  answered : Bool → Phase

-- `notifying`: how many calls of release() have set the flag and not yet notified.
pub record Blocker : Type 0 where
  pub is_released : Bool
  pub phase : Phase
  pub notifying : ℕ

-- `notify_all`
abbrev pub awake : Phase → Phase
awake outside = outside
awake testing = testing
awake falling_asleep = falling_asleep
awake asleep = testing
awake (answered b) = answered b

-- The thread's own steps
pub data Blocks (b c : Blocker) : Type 0 where
  returns_at_once :
      b.phase ≡ outside
      → b.is_released ≡ true
      → c ≡ record b { phase = answered false }
      → Blocks b c
  begins : b.phase ≡ outside → b.is_released ≡ false → c ≡ record b { phase = testing } → Blocks b c
  finds_released :
      b.phase ≡ testing → b.is_released ≡ true → c ≡ record b { phase = answered true } → Blocks b c
  finds_unreleased :
      b.phase ≡ testing
      → b.is_released ≡ false
      → c ≡ record b { phase = falling_asleep }
      → Blocks b c
  sleeps : b.phase ≡ falling_asleep → c ≡ record b { phase = asleep } → Blocks b c

-- release() in its two steps, neither of which takes the mutex; rearm(); a spurious wakeup
pub data Others (b c : Blocker) : Type 0 where
  stores : c ≡ record b { is_released = true; notifying = suc b.notifying } → Others b c
  notifies :
      (n : ℕ)
      → b.notifying ≡ suc n
      → c ≡ record b { phase = awake b.phase; notifying = n }
      → Others b c
  rearms : c ≡ record b { is_released = false } → Others b c
  wakes_spuriously : b.phase ≡ asleep → c ≡ record b { phase = testing } → Others b c

pub data Step (b c : Blocker) : Type 0 where
  blocks : Blocks b c → Step b c
  others : Others b c → Step b c

pub data Reach (R : Blocker → Blocker → Type 0) (b : Blocker) : Blocker → Type 0 where
  here : Reach R b b
  next : {c d : Blocker} → Reach R b c → R c d → Reach R b d
