-- ===== src/Consumer/Multi.antt =====
-- MultiConsumerPort and its MultiQueueGetter.
use superflow.Base.{
  ℕ, Bool, true, not, List, [], ◌∷◌, map, is_empty, Option, none, some, if◌then◌else◌, Outcome,
  returns, ◌>>=◌,
}
use superflow.Policy.{GetMode, blocking, latched, ready_only, at_least_one_new}
use superflow.Map.{Key, Map, insert}
use superflow.MultiLockQueue.{
  MultiLockQueue, push, pop_all, pop_ready, pop_at_least_one, has_all, has_any, add_queue,
  remove_queue, remove_all_queues, terminate,
}
use superflow.MultiLockQueue as Queues
use superflow.Consumer.{on_terminated, count_transaction}

-- `last_items`: the member of the getters that keep the last item of each queue.
pub record MultiConsumer {ℓ κ} (K : Type ℓ) (T : Type κ) : Type (ℓ ⊔ κ) where
  pub multi_queue : MultiLockQueue K T
  pub last_items : Map K T
  pub num_transactions : ℕ

module _ {ℓ κ} {K : Type ℓ} {T : Type κ} ⦃key : Key K⦄ where
  unfoldable pub make_consumer : ℕ → MultiConsumer K T
  unfolding Queues.make
  make_consumer buffer_size = record {
    multi_queue = Queues.make buffer_size [];
    last_items = [];
    num_transactions = 0;
  }

  -- `for (auto& kv : items) last_items_[kv.first] = std::move(kv.second);`
  unfoldable pub overwrite : Map K T → Map K T → Map K T
  overwrite [] last = last
  overwrite ((k, x) ∷ items) last = overwrite items (insert k x last)

  abbrev pub values : Map K T → List T
  values items = map (λ e. e.1) items

  -- MultiQueueGetter::get: the vector, with `last_items_` and the queues after it
  unfoldable pub get_items :
      GetMode → Map K T → MultiLockQueue K T → Outcome (List T × Map K T × MultiLockQueue K T)
  unfolding pop_all pop_ready pop_at_least_one overwrite
  get_items blocking last queues = do r ← pop_all queues; returns (values r.0, last, r.1)
  get_items latched last queues =
      if is_empty last
      then (do r ← pop_all queues; returns (values r.0, r.0, r.1))
      else (do r ← pop_ready queues; returns (values (overwrite r.0 last), overwrite r.0 last, r.1))
  get_items ready_only last queues = do r ← pop_ready queues; returns (values r.0, last, r.1)
  get_items at_least_one_new last queues =
      if is_empty last then (do r ← pop_all queues; returns (values r.0, r.0, r.1)) else (do
        r ← pop_at_least_one queues
        returns (values (overwrite r.0 last), overwrite r.0 last, r.1))

  -- MultiQueueGetter::hasNext
  unfoldable pub has_items : GetMode → Map K T → MultiLockQueue K T → Bool
  unfolding has_all has_any
  has_items blocking last queues = has_all queues
  has_items latched last queues = if is_empty last then has_all queues else true
  has_items ready_only last queues = true
  has_items at_least_one_new last queues = if is_empty last then has_all queues else has_any queues

  unfoldable pub receive : T → K → MultiConsumer K T → Outcome (MultiConsumer K T)
  unfolding push
  receive t ptr p = do q ← push ptr t p.multi_queue; returns (record p { multi_queue = q })

  -- MultiConsumerPort::get
  unfoldable pub get : GetMode → MultiConsumer K T → Outcome (List T × MultiConsumer K T)
  unfolding get_items count_transaction
  get mode p = do
    r ← get_items mode p.last_items p.multi_queue
    returns (
      r.0,
      record {
        multi_queue = r.2;
        last_items = r.1;
        num_transactions = count_transaction p.num_transactions;
      },
    )

  -- `getNext` is `get` with a handler.
  unfoldable pub get_next :
      GetMode → MultiConsumer K T → Outcome (Option (List T) × MultiConsumer K T)
  unfolding on_terminated get
  get_next mode p = on_terminated (none, p) (do r ← get mode p; returns (some r.0, r.1))

  unfoldable pub has_next : GetMode → MultiConsumer K T → Bool
  unfolding has_items
  has_next mode p = has_items mode p.last_items p.multi_queue

  -- `operator bool`
  unfoldable pub is_active : MultiConsumer K T → Bool
  is_active p = not p.multi_queue.is_terminated

  unfoldable pub clear : MultiConsumer K T → MultiConsumer K T
  unfolding Queues.clear
  clear p = record p { multi_queue = Queues.clear p.multi_queue }

  unfoldable pub deactivate : MultiConsumer K T → MultiConsumer K T
  unfolding terminate
  deactivate p = record p { multi_queue = terminate p.multi_queue }

  -- The queues in `connect`, `disconnect()` and `disconnect(ptr)`, after the ConnectionManager
  unfoldable pub add_producer : K → MultiConsumer K T → MultiConsumer K T
  unfolding add_queue
  add_producer ptr p = record p { multi_queue = add_queue ptr p.multi_queue }

  unfoldable pub remove_producers : MultiConsumer K T → MultiConsumer K T
  unfolding remove_all_queues
  remove_producers p = record p { multi_queue = remove_all_queues p.multi_queue }

  unfoldable pub remove_producer : K → MultiConsumer K T → MultiConsumer K T
  unfolding remove_queue
  remove_producer ptr p = record p { multi_queue = remove_queue ptr p.multi_queue }
