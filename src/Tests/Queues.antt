-- ===== src/Tests/Queues.antt =====
-- Queues of numbers: lock_queue.h and multi_lock_queue.h at concrete inputs.
use superflow.Base.{
  ℕ, ◌≤◌, ◌≡◌, refl, true, false, List, [], ◌∷◌, ◌++◌, arith, length, keep_last, returns, throws,
  terminated,
}
use superflow.Policy.{leaky, push_blocking}
use superflow.Map.{nat_key, IsMap}
use superflow.LockQueue.{LockQueue}
use superflow.LockQueue.History.{Call, pushes, pops, terminates, start, step, run}
use superflow.LockQueue.Bounds.{calls-IsValid}
use superflow.LockQueue.Fifo.{HasNoClear, run-lossless}
use superflow.LockQueue.Latest.{push_all, push_all-keep_last}
use superflow.LockQueue.Termination.{terminate_final}
use superflow.MultiLockQueue.{
  MultiLockQueue, queue_at, has_all, pop_ready, pop_all, pop_at_least_one, peek_at_least_one,
}
use superflow.MultiLockQueue.Ready.{heads}
use superflow.MultiLockQueue.Waiting.{pops_and_peeks, popped, gated}
use superflow.LockQueue as Single
use superflow.LockQueue.Bounds as SingleBounds
use superflow.MultiLockQueue as Multi

-- Two items in a queue for three.
abbrev two_items : LockQueue ℕ
two_items = record { queue = 4 ∷ 5 ∷ []; max_queue_size = 3; is_terminated = false }

two_items-IsValid : SingleBounds.IsValid two_items
two_items-IsValid = record { has_room = omega arith; within = omega arith }

abbrev calls : List (Call ℕ)
calls = pushes 6 ∷ pushes 7 ∷ pops ∷ pushes 8 ∷ []

calls-HasNoClear : HasNoClear calls
calls-HasNoClear = ((λ e. cc), ((λ e. cc), ((λ e. cc), ((λ e. cc), tt))))

run-lossless_example :
    let l = run push_blocking (start two_items) calls in
    (4 ∷ 5 ∷ [] ++ l.accepted ≡ l.taken ++ l.last.queue)
    × (length l.last.queue ≤ l.last.max_queue_size)
run-lossless_example = run-lossless two_items calls two_items-IsValid calls-HasNoClear

push_all-keep_last_example :
    push_all (6 ∷ 7 ∷ []) two_items
    ≡ returns (record two_items { queue = keep_last 3 (4 ∷ 5 ∷ 6 ∷ 7 ∷ []) })
push_all-keep_last_example = push_all-keep_last (6 ∷ 7 ∷ []) two_items two_items-IsValid refl

terminate_final_example :
    let m = run leaky (step leaky (start two_items) terminates) calls in
    (Single.push leaky 6 m.last ≡ throws terminated)
    × (Single.pop m.last ≡ throws terminated)
    × (Single.front m.last ≡ throws terminated)
    × (m.accepted ≡ [])
    × (m.taken ≡ [])
terminate_final_example = terminate_final leaky 6 (start two_items) calls two_items-IsValid

-- Two producers, each with items.
abbrev both_ready : MultiLockQueue ℕ ℕ
both_ready = record {
  queues = (1, 4 ∷ 5 ∷ []) ∷ (2, 6 ∷ []) ∷ [];
  max_queue_size = 2;
  is_terminated = false;
}

both_ready-IsMap : IsMap both_ready.queues
both_ready-IsMap = ((refl, tt), (tt, tt))

pops_and_peeks_example :
    (pop_ready both_ready ≡ gated false true (popped both_ready))
    × (pop_at_least_one both_ready ≡ gated false (Multi.has_any both_ready) (popped both_ready))
    × (pop_all both_ready ≡ gated false (has_all both_ready) (popped both_ready))
    × (Multi.peek_ready both_ready ≡ gated false true (heads both_ready.queues))
    × (peek_at_least_one both_ready
        ≡ gated false (Multi.has_any both_ready) (heads both_ready.queues))
    × (Multi.peek_all both_ready ≡ gated false (has_all both_ready) (heads both_ready.queues))
pops_and_peeks_example = pops_and_peeks both_ready both_ready-IsMap
