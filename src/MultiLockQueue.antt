-- ===== src/MultiLockQueue.antt =====
-- MultiLockQueue (core/include/superflow/utils/multi_lock_queue.h), each method as one critical
-- section.
pub mod Ready
pub mod Bounds
pub mod Waiting
use superflow.Base.{
  ℕ, ◌≡◌, Bool, true, false, not, ◌&&◌, ◌||◌, List, [], ◌∷◌, ◌++◌, Option, none, some, leb, length,
  is_empty, if◌then◌else◌, Outcome, returns, throws, waits, undefined, ◌>>=◌, ◌>>◌, terminated,
}
use superflow.Map.{Key, Map, lookup, insert, erase}

pub record MultiLockQueue {ℓ κ} (K : Type ℓ) (T : Type κ) : Type (ℓ ⊔ κ) where
  pub queues : Map K (List T)
  pub max_queue_size : ℕ
  pub is_terminated : Bool

-- `if (queue.size() >= max_queue_size_) { queue.pop(); }`
unfoldable pub pop_if_full {κ} : {T : Type κ} → ℕ → List T → Outcome (List T)
pop_if_full max queue =
    if leb max (length queue)
    then elim queue [ [] ↦ undefined | x ∷ xs ↦ returns xs ]
    else returns queue

module _ {ℓ κ} {K : Type ℓ} {T : Type κ} ⦃key : Key K⦄ where
  unfoldable pub create_queues : List K → Map K (List T) → Map K (List T)
  create_queues [] queues = queues
  create_queues (k ∷ ks) queues = create_queues ks (insert k [] queues)

  unfoldable pub make : ℕ → List K → MultiLockQueue K T
  unfolding create_queues
  make max keys = record {
    queues = create_queues keys [];
    max_queue_size = max;
    is_terminated = false;
  }

  -- `queues_[key]`, which makes an empty queue for an unused key
  unfoldable pub queue_at : K → Map K (List T) → List T
  queue_at k queues = elim (lookup k queues) [ none ↦ [] | some queue ↦ queue ]

  unfoldable pub push : K → T → MultiLockQueue K T → Outcome (MultiLockQueue K T)
  unfolding queue_at pop_if_full
  push k item q = do
    room ← pop_if_full q.max_queue_size (queue_at k q.queues)
    returns (record q { queues = insert k (room ++ item ∷ []) q.queues })

  -- The loops of `hasAny` and `hasAll`
  unfoldable pub any_ready : Map K (List T) → Bool
  any_ready [] = false
  any_ready ((k, queue) ∷ m) = not (is_empty queue) || any_ready m

  unfoldable pub all_ready : Map K (List T) → Bool
  all_ready [] = true
  all_ready ((k, queue) ∷ m) = not (is_empty queue) && all_ready m

  unfoldable pub has_any : MultiLockQueue K T → Bool
  unfolding any_ready
  has_any q = any_ready q.queues

  unfoldable pub has_all : MultiLockQueue K T → Bool
  unfolding all_ready
  has_all q = all_ready q.queues

  unfoldable pub wait_any : MultiLockQueue K T → Outcome (Unit {0})
  unfolding has_any
  wait_any q =
      if q.is_terminated || has_any q
      then if q.is_terminated then throws terminated else returns tt
      else waits

  unfoldable pub wait_all : MultiLockQueue K T → Outcome (Unit {0})
  unfolding has_all
  wait_all q =
      if q.is_terminated || has_all q
      then if q.is_terminated then throws terminated else returns tt
      else waits

  -- The loop of `peekReady`, with the items found so far
  unfoldable pub peek_loop : Map K (List T) → Map K T → Map K T
  peek_loop [] items = items
  peek_loop ((k, []) ∷ m) items = peek_loop m items
  peek_loop ((k, x ∷ xs) ∷ m) items = peek_loop m (insert k x items)

  -- The loop of `popReady`: the items, and what stays in the queues
  unfoldable pub pop_loop : Map K (List T) → Map K T → Map K T × Map K (List T)
  pop_loop [] items = (items, [])
  pop_loop ((k, []) ∷ m) items = let r = pop_loop m items in (r.0, (k, []) ∷ r.1)
  pop_loop ((k, x ∷ xs) ∷ m) items = let r = pop_loop m (insert k x items) in (r.0, (k, xs) ∷ r.1)

  unfoldable pub peek_locked : MultiLockQueue K T → Map K T
  unfolding peek_loop
  peek_locked q = peek_loop q.queues []

  unfoldable pub pop_locked : MultiLockQueue K T → Map K T × MultiLockQueue K T
  unfolding pop_loop
  pop_locked q = let r = pop_loop q.queues [] in (r.0, record q { queues = r.1 })

  unfoldable pub peek_ready : MultiLockQueue K T → Outcome (Map K T)
  unfolding peek_locked
  peek_ready q = if q.is_terminated then throws terminated else returns (peek_locked q)

  unfoldable pub peek_at_least_one : MultiLockQueue K T → Outcome (Map K T)
  unfolding wait_any peek_locked
  peek_at_least_one q = do wait_any q; returns (peek_locked q)

  unfoldable pub peek_all : MultiLockQueue K T → Outcome (Map K T)
  unfolding wait_all peek_locked
  peek_all q = do wait_all q; returns (peek_locked q)

  unfoldable pub pop_ready : MultiLockQueue K T → Outcome (Map K T × MultiLockQueue K T)
  unfolding pop_locked
  pop_ready q = if q.is_terminated then throws terminated else returns (pop_locked q)

  unfoldable pub pop_at_least_one : MultiLockQueue K T → Outcome (Map K T × MultiLockQueue K T)
  unfolding wait_any pop_locked
  pop_at_least_one q = do wait_any q; returns (pop_locked q)

  unfoldable pub pop_all : MultiLockQueue K T → Outcome (Map K T × MultiLockQueue K T)
  unfolding wait_all pop_locked
  pop_all q = do wait_all q; returns (pop_locked q)

  unfoldable pub clear_queues : Map K (List T) → Map K (List T)
  clear_queues [] = []
  clear_queues ((k, queue) ∷ m) = (k, []) ∷ clear_queues m

  unfoldable pub clear : MultiLockQueue K T → MultiLockQueue K T
  unfolding clear_queues
  clear q = record q { queues = clear_queues q.queues }

  unfoldable pub add_queue : K → MultiLockQueue K T → MultiLockQueue K T
  add_queue k q = elim (lookup k q.queues) [
    | some queue ↦ q
    | none ↦ record q { queues = insert k [] q.queues }
  ]

  unfoldable pub remove_queue : K → MultiLockQueue K T → MultiLockQueue K T
  remove_queue k q = record q { queues = erase k q.queues }

  unfoldable pub remove_all_queues : MultiLockQueue K T → MultiLockQueue K T
  remove_all_queues q = record q { queues = [] }

  unfoldable pub terminate : MultiLockQueue K T → MultiLockQueue K T
  terminate q = if q.is_terminated then q else record q { is_terminated = true }

  unfoldable pub get_num_queues : MultiLockQueue K T → ℕ
  get_num_queues q = length q.queues
