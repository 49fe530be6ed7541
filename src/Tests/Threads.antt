-- ===== src/Tests/Threads.antt =====
-- The threads of a LockQueue of numbers, at concrete inputs.
use superflow.Base.{ℕ, ◌≡◌, refl, false, [], ◌∷◌, length, arith}
use superflow.Policy.{leaky, push_blocking}
use superflow.LockQueue.{LockQueue, push, pop}
use superflow.LockQueue.Bounds.{IsValid}
use superflow.LockQueue.History.{run, start}
use superflow.LockQueue.Threads.{
  Threads, idle, consumer, producer, Move, Step, Reach, here, next, moves, pop_waits, push_waits,
  push_returns, pop_returns, sleeps,
}
use superflow.LockQueue.Threads.Wakeups.{IsQuiet, Unread, no_consumer_forgotten}
use superflow.LockQueue.Threads.Room.{no_producer_forgotten}
use superflow.LockQueue.Threads.Stranded.{front_strands, clear_strands}
use superflow.LockQueue.Threads.Refines.{threads-run, calls_of, accepted_by, taken_by}

abbrev empty_queue : LockQueue ℕ
empty_queue = record { queue = []; max_queue_size = 1; is_terminated = false }

empty_queue-IsValid : IsValid empty_queue
empty_queue-IsValid = record { has_room = omega arith; within = omega arith }

abbrev full_queue : LockQueue ℕ
full_queue = record { queue = 7 ∷ []; max_queue_size = 1; is_terminated = false }

full_queue-IsValid : IsValid full_queue
full_queue-IsValid = record { has_room = omega arith; within = omega arith }

-- A consumer sleeps.
abbrev one_consumer : Threads ℕ
one_consumer = record (idle empty_queue) { sleeping_consumers = 1 }

consumer_comes : Reach (Unread leaky) (idle empty_queue) one_consumer
unfolding pop
consumer_comes =
    next (next here (moves (pop_waits false refl tt refl refl), refl))
      (moves (sleeps consumer refl refl), refl)

-- An item comes, and goes.
abbrev item_passed : Threads ℕ
item_passed = record (idle empty_queue) { consumer_signals = 2 }

item_passes : Reach (Step leaky) (idle empty_queue) item_passed
unfolding push pop
item_passes =
    next
      (next here
        (moves (push_returns false 8 (record empty_queue { queue = 8 ∷ [] }) refl tt refl refl)))
      (moves (pop_returns false 8 empty_queue refl tt refl refl))

-- A producer sleeps.
abbrev one_producer : Threads ℕ
one_producer = record (idle full_queue) { sleeping_producers = 1 }

producer_comes : Reach (Move push_blocking) (idle full_queue) one_producer
unfolding push
producer_comes = next (next here (push_waits false 8 refl tt refl refl)) (sleeps producer refl refl)

abbrev quiet :
    (q : LockQueue ℕ) (c p : ℕ)
    → IsQuiet (record (idle q) { sleeping_consumers = c; sleeping_producers = p })
quiet q c p = record {
  nobody_blocked = refl;
  no_consumer = refl;
  no_producer = refl;
  no_reader = refl;
  no_consumer_signal = refl;
  no_producer_signal = refl;
  no_termination = refl;
}

no_consumer_forgotten_example : one_consumer.queue.queue ≡ []
no_consumer_forgotten_example =
    no_consumer_forgotten leaky empty_queue one_consumer empty_queue-IsValid consumer_comes
      (quiet empty_queue 1 0) refl (omega arith)

no_producer_forgotten_example : length one_producer.queue.queue ≡ one_producer.queue.max_queue_size
no_producer_forgotten_example =
    no_producer_forgotten full_queue one_producer full_queue-IsValid producer_comes
      (quiet full_queue 0 1) refl (omega arith)

threads-run_example : run leaky (start empty_queue) (calls_of item_passes) ≡ record {
  last = item_passed.queue;
  accepted = accepted_by item_passes;
  taken = taken_by item_passes;
}
threads-run_example = threads-run leaky (idle empty_queue) item_passed item_passes

front_strands_example :
    (t : Threads ℕ) × Reach (Step leaky) (idle empty_queue) t
    × IsQuiet t
    × (t.queue.queue ≡ 8 ∷ [])
    × (t.queue.is_terminated ≡ false)
    × (t.sleeping_consumers ≡ 1)
front_strands_example = front_strands leaky 8 empty_queue empty_queue-IsValid refl refl

clear_strands_example :
    (t : Threads ℕ) × Reach (Step push_blocking) (idle full_queue) t
    × IsQuiet t
    × (t.queue.queue ≡ [])
    × (t.queue.is_terminated ≡ false)
    × (t.sleeping_producers ≡ 1)
    × (t.sleeping_consumers ≡ 1)
clear_strands_example = clear_strands 8 full_queue full_queue-IsValid refl refl
