-- ===== src/LockQueue/Threads/Stranded.antt =====
-- Threads that nobody wakes.
use superflow.Base.{returns, waits, ◌∷◌, ◌≡◌, refl, true, false, [], arith, length, some}
use superflow.Policy.{LeakPolicy, leaky, push_blocking}
use superflow.LockQueue.{LockQueue, push, front, clear_queue, terminate}
use superflow.LockQueue.Bounds.{IsValid, push_lem, pop_lem}
use superflow.LockQueue.Threads.{
  consumer, producer, reader, Threads, push_returns, front_returns, front_waits, signals_reader,
  idle, pop_waits, push_waits, sleeps, sets_flag, notifies_all, Step, moves, clears, Reach, here,
  next,
}
use superflow.LockQueue.Threads.Wakeups.{IsQuiet}

module _ {ℓ} {T : Type ℓ} where
  -- clearQueue() makes room and tells no producer: from every full push-blocking queue that is
  -- valid and not terminated, two threads (a producer, which waits for room, and a consumer, which
  -- clears the queue and then waits for an item) reach a state in which both sleep, with an empty
  -- queue and nothing under way.
  pub clear_strands :
      (x : T) (q : LockQueue T)
      → IsValid q
      → q.is_terminated ≡ false
      → length q.queue ≡ q.max_queue_size
      → (t : Threads T) × Reach (Step push_blocking) (idle q) t
        × IsQuiet t
        × (t.queue.queue ≡ [])
        × (t.queue.is_terminated ≡ false)
        × (t.sleeping_producers ≡ 1)
        × (t.sleeping_consumers ≡ 1)
  unfolding clear_queue
  clear_strands x q v alive full =
      let s1 : Threads T = record (idle q) { blocked = some producer } in
      let s2 : Threads T = record (idle q) { sleeping_producers = 1 } in
      let s3 : Threads T = record s2 { queue = clear_queue q } in
      let s4 : Threads T = record s3 { blocked = some consumer } in
      let s5 : Threads T = record s3 { sleeping_consumers = 1 } in
      let r1 : Reach (Step push_blocking) (idle q) s1 =
        next here (
          moves (push_waits false x refl tt (ground (arith, push_lem push_blocking x q v)) refl)) in
      let r2 : Reach (Step push_blocking) (idle q) s2 =
        next r1 (moves (sleeps producer refl refl)) in
      let r3 : Reach (Step push_blocking) (idle q) s3 = next r2 (clears refl refl) in
      let r4 : Reach (Step push_blocking) (idle q) s4 =
        next r3 (moves (pop_waits false refl tt (ground (arith, pop_lem (clear_queue q))) refl)) in
      let r5 : Reach (Step push_blocking) (idle q) s5 =
        next r4 (moves (sleeps consumer refl refl)) in
      (
        s5,
        r5,
        record {
          nobody_blocked = refl;
          no_consumer = refl;
          no_producer = refl;
          no_reader = refl;
          no_consumer_signal = refl;
          no_producer_signal = refl;
          no_termination = refl;
        },
        refl,
        alive,
        refl,
        refl,
      )

  -- terminate() does not take the mutex: from every empty queue that is valid and not terminated, a
  -- consumer and a thread that calls terminate() reach a state in which the queue is terminated,
  -- nothing is under way, and the consumer sleeps.
  pub terminate_strands :
      (policy : LeakPolicy) (q : LockQueue T)
      → q.is_terminated ≡ false
      → q.queue ≡ []
      → (t : Threads T) × Reach (Step policy) (idle q) t
        × IsQuiet t
        × (t.queue.is_terminated ≡ true)
        × (t.sleeping_consumers ≡ 1)
  unfolding terminate
  terminate_strands policy q alive empty =
      let s1 : Threads T = record (idle q) { blocked = some consumer } in
      let s2 : Threads T = record s1 { queue = terminate q; terminations = 1 } in
      let s3 : Threads T = record s1 { queue = terminate q } in
      let s4 : Threads T = record (idle (terminate q)) { sleeping_consumers = 1 } in
      let r1 : Reach (Step policy) (idle q) s1 =
        next here (moves (pop_waits false refl tt (ground (arith, pop_lem q)) refl)) in
      let r2 : Reach (Step policy) (idle q) s2 = next r1 (moves (sets_flag alive refl)) in
      let r3 : Reach (Step policy) (idle q) s3 =
        next r2 (moves (notifies_all (omega arith) refl)) in
      let r4 : Reach (Step policy) (idle q) s4 = next r3 (moves (sleeps consumer refl refl)) in
      (
        s4,
        r4,
        record {
          nobody_blocked = refl;
          no_consumer = refl;
          no_producer = refl;
          no_reader = refl;
          no_consumer_signal = refl;
          no_producer_signal = refl;
          no_termination = refl;
        },
        ground (arith, alive),
        refl,
      )

  pushed_first :
      (policy : LeakPolicy) (x : T) (q : LockQueue T)
      → IsValid q
      → q.is_terminated ≡ false
      → q.queue ≡ []
      → push policy x q ≡ returns (record q { queue = x ∷ [] })
  pushed_first leaky x q v alive empty = ground (arith, push_lem leaky x q v)
  pushed_first push_blocking x q v alive empty = ground (arith, push_lem push_blocking x q v)

  front_waits_lem : (q : LockQueue T) → q.is_terminated ≡ false → q.queue ≡ [] → front q ≡ waits
  unfolding front
  front_waits_lem q alive empty = ground (arith, alive, empty)

  front_lem :
      (x : T) (q : LockQueue T)
      → q.is_terminated ≡ false
      → front (record q { queue = x ∷ [] }) ≡ returns x
  unfolding front
  front_lem x q alive = rw alive refl

  -- front() takes nothing and passes no notification on: from every empty queue that is valid and
  -- not terminated, a call of pop(), one of front() and one of push() reach a state in which nothing
  -- is under way, the queue has an item, and the call of pop() sleeps.
  pub front_strands :
      (policy : LeakPolicy) (x : T) (q : LockQueue T)
      → IsValid q
      → q.is_terminated ≡ false
      → q.queue ≡ []
      → (t : Threads T) × Reach (Step policy) (idle q) t
        × IsQuiet t
        × (t.queue.queue ≡ x ∷ [])
        × (t.queue.is_terminated ≡ false)
        × (t.sleeping_consumers ≡ 1)
  front_strands policy x q v alive empty =
      let q1 : LockQueue T = record q { queue = x ∷ [] } in
      let s1 : Threads T = record (idle q) { blocked = some consumer } in
      let s2 : Threads T = record (idle q) { sleeping_consumers = 1 } in
      let s3 : Threads T = record s2 { blocked = some reader } in
      let s4 : Threads T = record s2 { sleeping_readers = 1 } in
      let s5 : Threads T = record s4 { queue = q1; consumer_signals = 1 } in
      let s6 : Threads T = record s2 { queue = q1; woken_readers = 1 } in
      let s7 : Threads T = record s2 { queue = q1 } in
      let r1 : Reach (Step policy) (idle q) s1 =
        next here (moves (pop_waits false refl tt (ground (arith, pop_lem q)) refl)) in
      let r2 : Reach (Step policy) (idle q) s2 = next r1 (moves (sleeps consumer refl refl)) in
      let r3 : Reach (Step policy) (idle q) s3 =
        next r2 (moves (front_waits false refl tt (front_waits_lem q alive empty) refl)) in
      let r4 : Reach (Step policy) (idle q) s4 = next r3 (moves (sleeps reader refl refl)) in
      let r5 : Reach (Step policy) (idle q) s5 =
        next r4
          (moves (push_returns false x q1 refl tt (pushed_first policy x q v alive empty) refl)) in
      let r6 : Reach (Step policy) (idle q) s6 =
        next r5 (moves (signals_reader (omega arith) (omega arith) refl)) in
      let r7 : Reach (Step policy) (idle q) s7 =
        next r6 (moves (front_returns true x refl (omega arith) (front_lem x q alive) refl)) in
      (
        s7,
        r7,
        record {
          nobody_blocked = refl;
          no_consumer = refl;
          no_producer = refl;
          no_reader = refl;
          no_consumer_signal = refl;
          no_producer_signal = refl;
          no_termination = refl;
        },
        refl,
        alive,
        refl,
      )
