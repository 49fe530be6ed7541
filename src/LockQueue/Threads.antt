-- ===== src/LockQueue/Threads.antt =====
-- The threads of a LockQueue: the mutex, the two condition variables, and the notifications that
-- come after the mutex is free again (core/include/superflow/utils/lock_queue.h). Threads are
-- counted, and not told apart.
pub mod Wakeups
pub mod Room
pub mod Stranded
pub mod Refines
use superflow.Base.{
  ℕ, ◌+◌, ◌-◌, ◌≤◌, ◌≡◌, Bool, true, false, List, Option, none, some, ltb, if◌then◌else◌, Outcome,
  returns, throws, waits, terminated,
}
use superflow.Policy.{LeakPolicy, leaky, push_blocking}
use superflow.LockQueue.{LockQueue, push, pop, front, clear_queue, terminate}

-- What a thread waits in: pop(), push() or front(). Consumers and readers share consumer_.
pub data Role : Type 0 where
  consumer producer reader : Role

-- `blocked`: the thread that holds the mutex because it has found the predicate of its wait false,
-- and is about to sleep. `consumer_signals` and `producer_signals`: calls of `notify_one` that are
-- still to be made. `terminations`: calls of `terminate` that have set the flag, and have not yet
-- notified.
pub record Threads {ℓ} (T : Type ℓ) : Type ℓ where
  pub queue : LockQueue T
  pub blocked : Option Role
  pub sleeping_consumers : ℕ
  pub woken_consumers : ℕ
  pub sleeping_producers : ℕ
  pub woken_producers : ℕ
  pub sleeping_readers : ℕ
  pub woken_readers : ℕ
  pub consumer_signals : ℕ
  pub producer_signals : ℕ
  pub terminations : ℕ

-- Whether one of the woken threads goes on, and else a new call starts.
abbrev pub IsThere : Bool → ℕ → Type 0
IsThere true n = 1 ≤ n
IsThere false n = Unit

abbrev pub without : Bool → ℕ → ℕ
without true n = n - 1
without false n = n

module _ {ℓ} {T : Type ℓ} where
  abbrev pub idle : LockQueue T → Threads T
  idle q = record {
    queue = q;
    blocked = none;
    sleeping_consumers = 0;
    woken_consumers = 0;
    sleeping_producers = 0;
    woken_producers = 0;
    sleeping_readers = 0;
    woken_readers = 0;
    consumer_signals = 0;
    producer_signals = 0;
    terminations = 0;
  }

  -- consumerSatisfied(), which only a push-blocking queue begins with a signal to a producer
  abbrev pub consumer_satisfied : LeakPolicy → Threads T → Threads T
  consumer_satisfied leaky s = record s { consumer_signals = s.consumer_signals + 1 }
  consumer_satisfied push_blocking s = record s {
    consumer_signals = s.consumer_signals + 1;
    producer_signals = s.producer_signals + 1;
  }

  abbrev pub producer_satisfied : Threads T → Threads T
  producer_satisfied s = record s { consumer_signals = s.consumer_signals + 1 }

  abbrev pub sleep : Role → Threads T → Threads T
  sleep consumer s = record s { blocked = none; sleeping_consumers = s.sleeping_consumers + 1 }
  sleep producer s = record s { blocked = none; sleeping_producers = s.sleeping_producers + 1 }
  sleep reader s = record s { blocked = none; sleeping_readers = s.sleeping_readers + 1 }

  -- `notify_one` wakes a thread if one sleeps.
  abbrev pub wake_one : Role → Threads T → Threads T
  wake_one consumer s =
      if ltb 0 s.sleeping_consumers
      then record s {
        sleeping_consumers = s.sleeping_consumers - 1;
        woken_consumers = s.woken_consumers + 1;
      }
      else s
  wake_one producer s =
      if ltb 0 s.sleeping_producers
      then record s {
        sleeping_producers = s.sleeping_producers - 1;
        woken_producers = s.woken_producers + 1;
      }
      else s
  wake_one reader s =
      if ltb 0 s.sleeping_readers
      then record s {
        sleeping_readers = s.sleeping_readers - 1;
        woken_readers = s.woken_readers + 1;
      }
      else s

  -- `notify_all` of both
  abbrev pub wake_all : Threads T → Threads T
  wake_all s = record s {
    sleeping_consumers = 0;
    woken_consumers = s.woken_consumers + s.sleeping_consumers;
    sleeping_producers = 0;
    woken_producers = s.woken_producers + s.sleeping_producers;
    sleeping_readers = 0;
    woken_readers = s.woken_readers + s.sleeping_readers;
  }

  abbrev pub consumer_goes : Bool → Threads T → Threads T
  consumer_goes woken s = record s { woken_consumers = without woken s.woken_consumers }

  abbrev pub producer_goes : Bool → Threads T → Threads T
  producer_goes woken s = record s { woken_producers = without woken s.woken_producers }

  abbrev pub reader_goes : Bool → Threads T → Threads T
  reader_goes woken s = record s { woken_readers = without woken s.woken_readers }

  -- What a thread may do next, but for clearQueue(). A test of a wait's predicate needs the mutex;
  -- terminate() does not. A notification of consumer_ wakes a consumer or a reader, whichever it
  -- pleases, and is lost only if neither sleeps.
  pub data Move (policy : LeakPolicy) (s t : Threads T) : Type ℓ where
    pop_returns :
        (woken : Bool) (x : T) (q : LockQueue T)
        → s.blocked ≡ none
        → IsThere woken s.woken_consumers
        → pop s.queue ≡ returns (x, q)
        → t ≡ consumer_satisfied policy (record (consumer_goes woken s) { queue = q })
        → Move policy s t
    pop_throws :
        (woken : Bool)
        → s.blocked ≡ none
        → IsThere woken s.woken_consumers
        → pop s.queue ≡ throws terminated
        → t ≡ consumer_goes woken s
        → Move policy s t
    pop_waits :
        (woken : Bool)
        → s.blocked ≡ none
        → IsThere woken s.woken_consumers
        → pop s.queue ≡ waits
        → t ≡ record (consumer_goes woken s) { blocked = some consumer }
        → Move policy s t
    push_returns :
        (woken : Bool) (x : T) (q : LockQueue T)
        → s.blocked ≡ none
        → IsThere woken s.woken_producers
        → push policy x s.queue ≡ returns q
        → t ≡ producer_satisfied (record (producer_goes woken s) { queue = q })
        → Move policy s t
    push_throws :
        (woken : Bool) (x : T)
        → s.blocked ≡ none
        → IsThere woken s.woken_producers
        → push policy x s.queue ≡ throws terminated
        → t ≡ producer_goes woken s
        → Move policy s t
    push_waits :
        (woken : Bool) (x : T)
        → s.blocked ≡ none
        → IsThere woken s.woken_producers
        → push policy x s.queue ≡ waits
        → t ≡ record (producer_goes woken s) { blocked = some producer }
        → Move policy s t
    front_returns :
        (woken : Bool) (x : T)
        → s.blocked ≡ none
        → IsThere woken s.woken_readers
        → front s.queue ≡ returns x
        → t ≡ reader_goes woken s
        → Move policy s t
    front_throws :
        (woken : Bool)
        → s.blocked ≡ none
        → IsThere woken s.woken_readers
        → front s.queue ≡ throws terminated
        → t ≡ reader_goes woken s
        → Move policy s t
    front_waits :
        (woken : Bool)
        → s.blocked ≡ none
        → IsThere woken s.woken_readers
        → front s.queue ≡ waits
        → t ≡ record (reader_goes woken s) { blocked = some reader }
        → Move policy s t
    sleeps : (role : Role) → s.blocked ≡ some role → t ≡ sleep role s → Move policy s t
    signals_consumer :
        1 ≤ s.consumer_signals
        → (s.sleeping_consumers ≡ 0 → s.sleeping_readers ≡ 0)
        → t ≡ wake_one consumer (record s { consumer_signals = s.consumer_signals - 1 })
        → Move policy s t
    signals_reader :
        1 ≤ s.consumer_signals
        → 1 ≤ s.sleeping_readers
        → t ≡ wake_one reader (record s { consumer_signals = s.consumer_signals - 1 })
        → Move policy s t
    signals_producer :
        1 ≤ s.producer_signals
        → t ≡ wake_one producer (record s { producer_signals = s.producer_signals - 1 })
        → Move policy s t
    sets_flag :
        s.queue.is_terminated ≡ false
        → t ≡ record s { queue = terminate s.queue; terminations = s.terminations + 1 }
        → Move policy s t
    notifies_all :
        1 ≤ s.terminations
        → t ≡ wake_all (record s { terminations = s.terminations - 1 })
        → Move policy s t
    wakes_spuriously : (role : Role) → t ≡ wake_one role s → Move policy s t

  pub data Step (policy : LeakPolicy) (s t : Threads T) : Type ℓ where
    moves : Move policy s t → Step policy s t
    clears : s.blocked ≡ none → t ≡ record s { queue = clear_queue s.queue } → Step policy s t

  pub data Reach (R : Threads T → Threads T → Type ℓ) (s : Threads T) : Threads T → Type ℓ where
    here : Reach R s s
    next : {t u : Threads T} → Reach R s t → R t u → Reach R s u
