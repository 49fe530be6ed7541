-- ===== src/LockQueue.antt =====
-- LockQueue (core/include/superflow/utils/lock_queue.h), each method as one critical section.
pub mod History
pub mod Bounds
pub mod Fifo
pub mod Latest
pub mod Termination
pub mod Threads
use superflow.Base.{
  ℕ, Bool, true, false, not, ◌||◌, List, [], ◌∷◌, ◌++◌, ltb, leb, length, is_empty, if◌then◌else◌,
  returns, throws, Outcome, waits, undefined, ◌>>=◌, ◌>>◌, Exception, terminated, invalid_argument,
  range_error,
}
use superflow.Policy.{LeakPolicy, leaky, push_blocking}

-- The front of the std::queue is the head of the list.
pub record LockQueue {ℓ} (T : Type ℓ) : Type ℓ where
  pub queue : List T
  pub max_queue_size : ℕ
  pub is_terminated : Bool

-- The two constructors: the second with a list of initial elements, the first without.
pub data Constructed {ℓ} (A : Type ℓ) : Type ℓ where
  made : A → Constructed A
  refused : Exception → Constructed A

module _ {ℓ} {T : Type ℓ} where
  unfoldable pub make_list : ℕ → List T → Constructed (LockQueue T)
  make_list max items =
      if ltb max 1
      then refused invalid_argument
      else if ltb max (length items)
      then refused range_error
      else made (record { queue = items; max_queue_size = max; is_terminated = false })

  unfoldable pub make : ℕ → Constructed (LockQueue T)
  unfolding make_list
  make max = make_list max []

  unfoldable pub clear_queue : LockQueue T → LockQueue T
  clear_queue q = record q { queue = [] }

  unfoldable pub get_queue_size : LockQueue T → ℕ
  get_queue_size q = length q.queue

  unfoldable pub queue_is_empty : LockQueue T → Bool
  queue_is_empty q = is_empty q.queue

  unfoldable pub terminate : LockQueue T → LockQueue T
  terminate q = if q.is_terminated then q else record q { is_terminated = true }

  -- std::queue::front and std::queue::pop are undefined on an empty queue.
  unfoldable pub front_item : LockQueue T → Outcome T
  front_item q = elim q.queue [ [] ↦ undefined | x ∷ xs ↦ returns x ]

  unfoldable pub pop_item : LockQueue T → Outcome (LockQueue T)
  pop_item q = elim q.queue [ [] ↦ undefined | x ∷ xs ↦ returns (record q { queue = xs }) ]

  -- The wait's predicate is tested under the mutex; until it holds, the call stays in the wait.
  unfoldable pub consumer_wait : LockQueue T → Outcome (Unit {0})
  consumer_wait q =
      if not (is_empty q.queue) || q.is_terminated
      then if q.is_terminated then throws terminated else returns tt
      else waits

  unfoldable pub producer_wait : LeakPolicy → LockQueue T → Outcome (Unit {0})
  producer_wait leaky q = if q.is_terminated then throws terminated else returns tt
  producer_wait push_blocking q =
      if ltb (length q.queue) q.max_queue_size || q.is_terminated
      then if q.is_terminated then throws terminated else returns tt
      else waits

  unfoldable pub front : LockQueue T → Outcome T
  unfolding consumer_wait front_item
  front q = do consumer_wait q; front_item q

  unfoldable pub pop : LockQueue T → Outcome (T × LockQueue T)
  unfolding consumer_wait front_item pop_item
  pop q = do consumer_wait q; item ← front_item q; rest ← pop_item q; returns (item, rest)

  -- `if (queue_.size() >= max_queue_size_) { queue_.pop(); }`
  unfoldable pub make_room : LockQueue T → Outcome (LockQueue T)
  unfolding pop_item
  make_room q = if leb q.max_queue_size (length q.queue) then pop_item q else returns q

  unfoldable pub append_item : T → LockQueue T → LockQueue T
  append_item item q = record q { queue = q.queue ++ item ∷ [] }

  unfoldable pub push : LeakPolicy → T → LockQueue T → Outcome (LockQueue T)
  unfolding producer_wait make_room append_item
  push policy item q = do
    producer_wait policy q
    room ← make_room q
    returns (append_item item room)
