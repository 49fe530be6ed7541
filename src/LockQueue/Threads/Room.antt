-- ===== src/LockQueue/Threads/Room.antt =====
-- Producers that wait for room, as long as nobody calls clearQueue().
use superflow.Base.{
  ◌+◌, ◌-◌, ◌≤◌, ◌≡◌, refl, sym, subst, ◌⊎◌, inl, inr, true, false, [], ◌∷◌, arith, length,
  length-append, length-drop, drop, some, returns, throws, waits, terminated,
}
use superflow.Policy.{push_blocking}
use superflow.LockQueue.{LockQueue, push, terminate}
use superflow.LockQueue.Bounds.{IsValid, push_lem}
use superflow.LockQueue.Termination.{terminate-IsValid}
use superflow.LockQueue.Threads.Wakeups.{IsQuiet, popped_facts, pushed_facts}
use superflow.LockQueue.Threads.{
  consumer, producer, front_returns, front_throws, front_waits, signals_reader, reader, Threads,
  idle, Move, pop_returns, pop_throws, pop_waits, push_returns, push_throws, push_waits, sleeps,
  signals_consumer, signals_producer, sets_flag, notifies_all, wakes_spuriously, Reach, here, next,
}

module _ {ℓ} {T : Type ℓ} where
  -- Every free place in the queue has a producer on its way, or no producer sleeps.
  pub record IsFair (s : Threads T) : Type ℓ where
    pub valid : IsValid s.queue
    pub room :
        (s.queue.is_terminated ≡ true)
        ⊎ (s.sleeping_producers ≡ 0)
        ⊎ (s.queue.max_queue_size ≤ length s.queue.queue + s.woken_producers + s.producer_signals)
    pub blocked_full :
        s.blocked ≡ some producer
        → (s.queue.is_terminated ≡ true) ⊎ (s.queue.max_queue_size ≤ length s.queue.queue)

  push_grows :
      (x : T) (q r : LockQueue T)
      → IsValid q
      → push push_blocking x q ≡ returns r
      → length r.queue ≡ length q.queue + 1
  push_grows x q r v h =
      let n = length q.queue + 1 - q.max_queue_size in
      ground (
        arith,
        push_lem push_blocking x q v,
        length-append (drop n q.queue) (x ∷ []),
        length-drop n q.queue,
      )

  push_refused :
      (x : T) (q : LockQueue T)
      → IsValid q
      → push push_blocking x q ≡ throws terminated
      → q.is_terminated ≡ true
  push_refused x q v h = ground (arith, push_lem push_blocking x q v)

  push_full :
      (x : T) (q : LockQueue T)
      → IsValid q
      → push push_blocking x q ≡ waits
      → q.max_queue_size ≤ length q.queue
  push_full x q v h = ground (arith, push_lem push_blocking x q v)

  Move-IsFair : (s t : Threads T) → Move push_blocking s t → IsFair s → IsFair t
  unfolding terminate
  Move-IsFair s t (pop_returns woken x q b w p e) v = subst IsFair (sym e) (record {
    valid = record {
      has_room = ground (arith, v.valid, popped_facts x s.queue q p);
      within = ground (arith, v.valid, popped_facts x s.queue q p);
    };
    room = ground (arith, v.room, popped_facts x s.queue q p);
    blocked_full = ground (arith, v.blocked_full, popped_facts x s.queue q p);
  })
  Move-IsFair s t (pop_throws woken b w p e) v = subst IsFair (sym e) (record {
    valid = v.valid;
    room = ground (arith, v.room);
    blocked_full = ground (arith, v.blocked_full);
  })
  Move-IsFair s t (pop_waits woken b w p e) v = subst IsFair (sym e) (record {
    valid = v.valid;
    room = ground (arith, v.room);
    blocked_full = ground (arith, v.blocked_full);
  })
  Move-IsFair s t (push_returns woken x q b w p e) v = subst IsFair (sym e) (record {
    valid = ground (arith, pushed_facts push_blocking x s.queue q v.valid p);
    room = ground (
      arith,
      v.room,
      pushed_facts push_blocking x s.queue q v.valid p,
      push_grows x s.queue q v.valid p,
    );
    blocked_full = ground (
      arith,
      v.blocked_full,
      pushed_facts push_blocking x s.queue q v.valid p,
      push_grows x s.queue q v.valid p,
    );
  })
  Move-IsFair s t (push_throws woken x b w p e) v = subst IsFair (sym e) (record {
    valid = v.valid;
    room = ground (arith, v.room, push_refused x s.queue v.valid p);
    blocked_full = ground (arith, v.blocked_full, push_refused x s.queue v.valid p);
  })
  Move-IsFair s t (push_waits woken x b w p e) v = subst IsFair (sym e) (record {
    valid = v.valid;
    room = ground (arith, v.room, push_full x s.queue v.valid p);
    blocked_full = ground (arith, v.blocked_full, push_full x s.queue v.valid p);
  })
  Move-IsFair s t (front_returns woken x b w p e) v = subst IsFair (sym e) (record {
    valid = ground (arith, v.valid);
    room = ground (arith, v.room);
    blocked_full = ground (arith, v.blocked_full);
  })
  Move-IsFair s t (front_throws woken b w p e) v = subst IsFair (sym e) (record {
    valid = ground (arith, v.valid);
    room = ground (arith, v.room);
    blocked_full = ground (arith, v.blocked_full);
  })
  Move-IsFair s t (front_waits woken b w p e) v = subst IsFair (sym e) (record {
    valid = ground (arith, v.valid);
    room = ground (arith, v.room);
    blocked_full = ground (arith, v.blocked_full);
  })
  Move-IsFair s t (sleeps reader b e) v = subst IsFair (sym e) (record {
    valid = ground (arith, v.valid);
    room = ground (arith, v.room);
    blocked_full = ground (arith, v.blocked_full);
  })
  Move-IsFair s t (signals_reader n h e) v = subst IsFair (sym e) (record {
    valid = ground (arith, v.valid);
    room = ground (arith, v.room);
    blocked_full = ground (arith, v.blocked_full);
  })
  Move-IsFair s t (wakes_spuriously reader e) v = subst IsFair (sym e) (record {
    valid = ground (arith, v.valid);
    room = ground (arith, v.room);
    blocked_full = ground (arith, v.blocked_full);
  })
  Move-IsFair s t (sleeps consumer b e) v = subst IsFair (sym e) (record {
    valid = v.valid;
    room = ground (arith, v.room);
    blocked_full = ground (arith, v.blocked_full);
  })
  Move-IsFair s t (sleeps producer b e) v = subst IsFair (sym e) (record {
    valid = v.valid;
    room = ground (arith, v.room);
    blocked_full = ground (arith, v.blocked_full);
  })
  Move-IsFair s t (signals_consumer n h e) v = subst IsFair (sym e) (record {
    valid = ground (arith, v.valid);
    room = ground (arith, v.room);
    blocked_full = ground (arith, v.blocked_full);
  })
  Move-IsFair s t (signals_producer n e) v = subst IsFair (sym e) (record {
    valid = ground (arith, v.valid);
    room = ground (arith, v.room);
    blocked_full = ground (arith, v.blocked_full);
  })
  Move-IsFair s t (sets_flag n e) v = subst IsFair (sym e) (record {
    valid = terminate-IsValid s.queue v.valid;
    room = ground (arith, v.room);
    blocked_full = ground (arith, v.blocked_full);
  })
  Move-IsFair s t (notifies_all n e) v = subst IsFair (sym e) (record {
    valid = v.valid;
    room = ground (arith, v.room);
    blocked_full = ground (arith, v.blocked_full);
  })
  Move-IsFair s t (wakes_spuriously consumer e) v = subst IsFair (sym e) (record {
    valid = ground (arith, v.valid);
    room = ground (arith, v.room);
    blocked_full = ground (arith, v.blocked_full);
  })
  Move-IsFair s t (wakes_spuriously producer e) v = subst IsFair (sym e) (record {
    valid = ground (arith, v.valid);
    room = ground (arith, v.room);
    blocked_full = ground (arith, v.blocked_full);
  })

  Reach-IsFair : (s t : Threads T) → Reach (Move push_blocking) s t → IsFair s → IsFair t
  Reach-IsFair s t here v = v
  Reach-IsFair s t (next {t = u} r m) v = Move-IsFair u t m (Reach-IsFair s u r v)

  -- From a valid push-blocking queue with no threads, whatever any number of threads do but
  -- clearQueue(): whenever nothing is under way and the queue is not terminated, a producer sleeps
  -- only if the queue is full.
  pub no_producer_forgotten :
      (q : LockQueue T) (t : Threads T)
      → IsValid q
      → Reach (Move push_blocking) (idle q) t
      → IsQuiet t
      → t.queue.is_terminated ≡ false
      → 1 ≤ t.sleeping_producers
      → length t.queue.queue ≡ t.queue.max_queue_size
  no_producer_forgotten q t v r quiet alive h =
      let fair =
        Reach-IsFair (idle q) t r
          (record { valid = v; room = inr (inl refl); blocked_full = λ b. cc }) in
      ground (arith, fair.valid.within, fair.room, quiet.no_producer, quiet.no_producer_signal)
