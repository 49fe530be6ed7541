-- ===== src/LockQueue/History.antt =====
-- A LockQueue used by any number of threads: a sequence of critical sections, and its log.
-- (`front` and the queries change nothing, and are left out.)
use superflow.Base.{List, [], ◌∷◌, ◌++◌, Outcome, returns, throws, waits, undefined}
use superflow.Policy.{LeakPolicy}
use superflow.LockQueue.{LockQueue, push, pop, clear_queue, terminate}

pub data Call {ℓ} (T : Type ℓ) : Type ℓ where
  pushes : T → Call T
  pops : Call T
  clears : Call T
  terminates : Call T

-- The items that were accepted by `push`, and those that were handed out by `pop`, oldest first.
pub record Log {ℓ} (T : Type ℓ) : Type ℓ where
  pub last : LockQueue T
  pub accepted : List T
  pub taken : List T

module _ {ℓ} {T : Type ℓ} where
  abbrev pub start : LockQueue T → Log T
  start q = record { last = q; accepted = []; taken = [] }

  -- A push that waits or throws is not accepted, and may be tried again later in the sequence.
  unfoldable pub log_push : T → Log T → Outcome (LockQueue T) → Log T
  log_push x l (returns q) = record { last = q; accepted = l.accepted ++ x ∷ []; taken = l.taken }
  log_push x l (throws e) = l
  log_push x l waits = l
  log_push x l undefined = l

  unfoldable pub log_pop : Log T → Outcome (T × LockQueue T) → Log T
  log_pop l (returns (x, q)) = record { last = q; accepted = l.accepted; taken = l.taken ++ x ∷ [] }
  log_pop l (throws e) = l
  log_pop l waits = l
  log_pop l undefined = l

  unfoldable pub step : LeakPolicy → Log T → Call T → Log T
  unfolding log_push log_pop
  step policy l (pushes x) = log_push x l (push policy x l.last)
  step policy l pops = log_pop l (pop l.last)
  step policy l clears = record l { last = clear_queue l.last }
  step policy l terminates = record l { last = terminate l.last }

  unfoldable pub run : LeakPolicy → Log T → List (Call T) → Log T
  run policy l [] = l
  run policy l (c ∷ cs) = run policy (step policy l c) cs
