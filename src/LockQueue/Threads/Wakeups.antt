-- ===== src/LockQueue/Threads/Wakeups.antt =====
-- No wake-up is lost between push and pop, as long as no thread sleeps in front().
use superflow.Base.{
  ◌+◌, ◌-◌, ◌≤◌, ◌≡◌, refl, sym, subst, ◌⊎◌, inl, inr, true, false, List, [], ◌∷◌, arith, length,
  length-append, length-drop, drop, none, some, Bool-cases, returns, throws, waits, terminated,
}
use superflow.Policy.{LeakPolicy, leaky, push_blocking}
use superflow.LockQueue.{LockQueue, push, pop, clear_queue, terminate}
use superflow.LockQueue.Bounds.{IsValid, push_lem, pop_lem, pop_cases, pushed-IsValid}
use superflow.LockQueue.Termination.{terminate-IsValid}
use superflow.LockQueue.Threads.{
  consumer, producer, front_returns, front_throws, front_waits, signals_reader, reader, Threads,
  idle, Move, pop_returns, pop_throws, pop_waits, push_returns, push_throws, push_waits, sleeps,
  signals_consumer, signals_producer, sets_flag, notifies_all, wakes_spuriously, Step, moves,
  clears, Reach, here, next,
}

module _ {ℓ} {T : Type ℓ} where
  -- Every item in the queue has a consumer on its way, or no consumer sleeps.
  pub record IsServed (s : Threads T) : Type ℓ where
    pub valid : IsValid s.queue
    pub due :
        (s.queue.is_terminated ≡ true)
        ⊎ (s.sleeping_consumers ≡ 0)
        ⊎ (length s.queue.queue ≤ s.woken_consumers + s.consumer_signals)
    pub blocked_empty : s.blocked ≡ some consumer → s.queue.queue ≡ []

  pub popped_facts :
      (x : T) (q r : LockQueue T)
      → pop q ≡ returns (x, r)
      → (r.is_terminated ≡ q.is_terminated)
        × (r.max_queue_size ≡ q.max_queue_size)
        × (length q.queue ≡ length r.queue + 1)
        × (q.is_terminated ≡ false)
  popped_facts x q r h = elim (pop_cases q) [
    | inl dead ↦ cc
    | inr (inl stuck) ↦ cc
    | inr (inr (y, ys, e, f)) ↦ ground (arith, pop_lem q)
  ]

  pub pushed_facts :
      (policy : LeakPolicy) (x : T) (q r : LockQueue T)
      → IsValid q
      → push policy x q ≡ returns r
      → (r.is_terminated ≡ q.is_terminated)
        × (r.max_queue_size ≡ q.max_queue_size)
        × (length r.queue ≤ length q.queue + 1)
        × IsValid r
        × (q.is_terminated ≡ false)
  pushed_facts policy x q r v h =
      let n = length q.queue + 1 - q.max_queue_size in
      ground (
        arith,
        push_lem policy x q v,
        pushed-IsValid x q v,
        length-append (drop n q.queue) (x ∷ []),
        length-drop n q.queue,
      )

  never :
      (xs : List T) (q : LockQueue T)
      → q.queue ≡ xs
      → q.is_terminated ≡ false
      → ¬ (pop q ≡ throws terminated)
  never [] q e alive h = ground (arith, pop_lem q)
  never (x ∷ xs) q e alive h = ground (arith, pop_lem q)

  throws_facts : (q : LockQueue T) → pop q ≡ throws terminated → q.is_terminated ≡ true
  throws_facts q h = elim (Bool-cases q.is_terminated) [
    | inl dead ↦ dead
    | inr alive ↦ elim (pop_cases q) [
      | inl dead ↦ absurd (never q.queue q refl alive h)
      | inr (inl stuck) ↦ cc
      | inr (inr (y, ys, e, f)) ↦ cc
    ]
  ]

  empty_of : (xs : List T) (q : LockQueue T) → q.queue ≡ xs → pop q ≡ waits → q.queue ≡ []
  empty_of [] q e h = e
  empty_of (x ∷ xs) q e h = ground (arith, pop_lem q)

  waited_facts : (q : LockQueue T) → pop q ≡ waits → q.queue ≡ []
  waited_facts q h = elim (pop_cases q) [
    | inl dead ↦ cc
    | inr (inl stuck) ↦ empty_of q.queue q refl h
    | inr (inr (y, ys, e, f)) ↦ cc
  ]

  Move-IsServed :
      (policy : LeakPolicy) (s t : Threads T)
      → s.sleeping_readers ≡ 0
      → Move policy s t
      → IsServed s
      → IsServed t
  unfolding terminate
  Move-IsServed leaky s t unread (pop_returns woken x q b w p e) v =
      subst IsServed (sym e) (record {
        valid = record {
          has_room = ground (arith, v.valid, popped_facts x s.queue q p);
          within = ground (arith, v.valid, popped_facts x s.queue q p);
        };
        due = ground (arith, v.due, popped_facts x s.queue q p);
        blocked_empty = ground (arith, v.blocked_empty, popped_facts x s.queue q p);
      })
  Move-IsServed push_blocking s t unread (pop_returns woken x q b w p e) v =
      subst IsServed (sym e) (record {
        valid = record {
          has_room = ground (arith, v.valid, popped_facts x s.queue q p);
          within = ground (arith, v.valid, popped_facts x s.queue q p);
        };
        due = ground (arith, v.due, popped_facts x s.queue q p);
        blocked_empty = ground (arith, v.blocked_empty, popped_facts x s.queue q p);
      })
  Move-IsServed policy s t unread (pop_throws woken b w p e) v = subst IsServed (sym e) (record {
    valid = v.valid;
    due = ground (arith, v.due, pop_lem s.queue, throws_facts s.queue p);
    blocked_empty = ground (arith, v.blocked_empty, pop_lem s.queue, throws_facts s.queue p);
  })
  Move-IsServed policy s t unread (pop_waits woken b w p e) v = subst IsServed (sym e) (record {
    valid = v.valid;
    due = ground (arith, v.due, waited_facts s.queue p);
    blocked_empty = ground (arith, v.blocked_empty, waited_facts s.queue p);
  })
  Move-IsServed policy s t unread (push_returns woken x q b w p e) v =
      subst IsServed (sym e) (record {
        valid = ground (arith, pushed_facts policy x s.queue q v.valid p);
        due = ground (arith, v.due, pushed_facts policy x s.queue q v.valid p);
        blocked_empty = ground (arith, v.blocked_empty, pushed_facts policy x s.queue q v.valid p);
      })
  Move-IsServed policy s t unread (push_throws woken x b w p e) v = subst IsServed (sym e) (record {
    valid = v.valid;
    due = ground (arith, v.due);
    blocked_empty = ground (arith, v.blocked_empty);
  })
  Move-IsServed policy s t unread (push_waits woken x b w p e) v = subst IsServed (sym e) (record {
    valid = v.valid;
    due = ground (arith, v.due);
    blocked_empty = ground (arith, v.blocked_empty);
  })
  Move-IsServed policy s t unread (front_returns woken x b w p e) v =
      subst IsServed (sym e) (record {
        valid = v.valid;
        due = ground (arith, v.due);
        blocked_empty = ground (arith, v.blocked_empty);
      })
  Move-IsServed policy s t unread (front_throws woken b w p e) v = subst IsServed (sym e) (record {
    valid = v.valid;
    due = ground (arith, v.due);
    blocked_empty = ground (arith, v.blocked_empty);
  })
  Move-IsServed policy s t unread (front_waits woken b w p e) v = subst IsServed (sym e) (record {
    valid = v.valid;
    due = ground (arith, v.due);
    blocked_empty = ground (arith, v.blocked_empty);
  })
  Move-IsServed policy s t unread (sleeps reader b e) v = subst IsServed (sym e) (record {
    valid = v.valid;
    due = ground (arith, v.due);
    blocked_empty = ground (arith, v.blocked_empty);
  })
  Move-IsServed policy s t unread (signals_reader n h e) v = absurd (omega arith)
  Move-IsServed policy s t unread (wakes_spuriously reader e) v = subst IsServed (sym e) (record {
    valid = ground (arith, v.valid);
    due = ground (arith, v.due);
    blocked_empty = ground (arith, v.blocked_empty);
  })
  Move-IsServed policy s t unread (sleeps consumer b e) v = subst IsServed (sym e) (record {
    valid = v.valid;
    due = ground (arith, v.due);
    blocked_empty = ground (arith, v.blocked_empty);
  })
  Move-IsServed policy s t unread (sleeps producer b e) v = subst IsServed (sym e) (record {
    valid = v.valid;
    due = ground (arith, v.due);
    blocked_empty = ground (arith, v.blocked_empty);
  })
  Move-IsServed policy s t unread (signals_consumer n h e) v = subst IsServed (sym e) (record {
    valid = ground (arith, v.valid);
    due = ground (arith, v.due);
    blocked_empty = ground (arith, v.blocked_empty);
  })
  Move-IsServed policy s t unread (signals_producer n e) v = subst IsServed (sym e) (record {
    valid = ground (arith, v.valid);
    due = ground (arith, v.due);
    blocked_empty = ground (arith, v.blocked_empty);
  })
  Move-IsServed policy s t unread (sets_flag n e) v = subst IsServed (sym e) (record {
    valid = terminate-IsValid s.queue v.valid;
    due = ground (arith, v.due);
    blocked_empty = ground (arith, v.blocked_empty);
  })
  Move-IsServed policy s t unread (notifies_all n e) v = subst IsServed (sym e) (record {
    valid = v.valid;
    due = ground (arith, v.due);
    blocked_empty = ground (arith, v.blocked_empty);
  })
  Move-IsServed policy s t unread (wakes_spuriously consumer e) v = subst IsServed (sym e) (record {
    valid = ground (arith, v.valid);
    due = ground (arith, v.due);
    blocked_empty = ground (arith, v.blocked_empty);
  })
  Move-IsServed policy s t unread (wakes_spuriously producer e) v = subst IsServed (sym e) (record {
    valid = ground (arith, v.valid);
    due = ground (arith, v.due);
    blocked_empty = ground (arith, v.blocked_empty);
  })

  Step-IsServed :
      (policy : LeakPolicy) (s t : Threads T)
      → s.sleeping_readers ≡ 0
      → Step policy s t
      → IsServed s
      → IsServed t
  unfolding clear_queue
  Step-IsServed policy s t unread (moves m) v = Move-IsServed policy s t unread m v
  Step-IsServed policy s t unread (clears b e) v = subst IsServed (sym e) (record {
    valid = record { has_room = v.valid.has_room; within = omega arith };
    due = inr (inr (omega arith));
    blocked_empty = λ h. refl;
  })

  -- A step after which no thread sleeps in front()
  abbrev pub Unread : LeakPolicy → Threads T → Threads T → Type ℓ
  Unread policy s t = Step policy s t × (t.sleeping_readers ≡ 0)

  Reach-IsServed :
      (policy : LeakPolicy) (s t : Threads T)
      → s.sleeping_readers ≡ 0
      → Reach (Unread policy) s t
      → IsServed s
      → IsServed t × (t.sleeping_readers ≡ 0)
  Reach-IsServed policy s t unread here v = (v, unread)
  Reach-IsServed policy s t unread (next {t = u} r (m, unread')) v =
      let (served, none_reads) = Reach-IsServed policy s u unread r v in
      (Step-IsServed policy u t none_reads m served, unread')

  -- Nothing is under way: no woken thread, no signal to come, nobody between test and sleep.
  pub record IsQuiet (s : Threads T) : Type 0 where
    pub nobody_blocked : s.blocked ≡ none
    pub no_consumer : s.woken_consumers ≡ 0
    pub no_producer : s.woken_producers ≡ 0
    pub no_reader : s.woken_readers ≡ 0
    pub no_consumer_signal : s.consumer_signals ≡ 0
    pub no_producer_signal : s.producer_signals ≡ 0
    pub no_termination : s.terminations ≡ 0

  -- From a valid queue with no threads, whatever any number of threads do (push, pop, clear,
  -- terminate, and calls of front that do not have to sleep, with spurious wake-ups), as long as no
  -- thread sleeps in front(): whenever nothing is under way and the queue is not terminated, a
  -- consumer sleeps only if the queue is empty.
  pub no_consumer_forgotten :
      (policy : LeakPolicy) (q : LockQueue T) (t : Threads T)
      → IsValid q
      → Reach (Unread policy) (idle q) t
      → IsQuiet t
      → t.queue.is_terminated ≡ false
      → 1 ≤ t.sleeping_consumers
      → t.queue.queue ≡ []
  no_consumer_forgotten policy q t v r quiet alive h =
      let served =
        (Reach-IsServed policy (idle q) t refl r
          (record { valid = v; due = inr (inl refl); blocked_empty = λ b. cc })).0 in
      no_item t.queue.queue
        (ground (arith, served.due, quiet.no_consumer, quiet.no_consumer_signal))
    where
      no_item : (xs : List T) → length xs ≤ 0 → xs ≡ []
      no_item [] h = refl
      no_item (x ∷ xs) h = absurd (omega arith)
