-- ===== src/Consumer/Buffered.antt =====
-- BufferedConsumerPort and its QueueGetter.
use superflow.Base.{
  ℕ, Bool, true, false, not, ◌||◌, Option, none, some, if◌then◌else◌, Outcome, returns, ◌>>=◌,
}
use superflow.Policy.{LeakPolicy}
use superflow.LockQueue.{
  LockQueue, Constructed, made, refused, make, push, pop, clear_queue, get_queue_size,
  queue_is_empty, terminate,
}
use superflow.Consumer.{on_terminated, count_transaction}

-- The modes that QueueGetter is specialised for; a static_assert refuses the others.
pub data QueueMode : Type 0 where
  blocking : QueueMode
  latched : QueueMode

-- `opt`: the member of the latched getter, which is never set in the blocking mode.
pub record BufferedConsumer {ℓ} (T : Type ℓ) : Type ℓ where
  pub buffer : LockQueue T
  pub opt : Option T
  pub num_transactions : ℕ

module _ {ℓ} {T : Type ℓ} where
  unfoldable pub make_consumer : ℕ → Constructed (BufferedConsumer T)
  unfolding make
  make_consumer buffer_size = elim (make {T = T} buffer_size) [
    | made q ↦ made (record { buffer = q; opt = none; num_transactions = 0 })
    | refused e ↦ refused e
  ]

  unfoldable pub has_value : Option T → Bool
  has_value none = false
  has_value (some x) = true

  -- QueueGetter::get: the result, with `opt` and the queue after it
  unfoldable pub get_item :
      QueueMode → Option T → LockQueue T → Outcome (Option T × Option T × LockQueue T)
  unfolding on_terminated pop has_value queue_is_empty
  get_item blocking opt queue =
      on_terminated (none, opt, queue)
        (do popped ← pop queue; returns (some popped.0, opt, popped.1))
  get_item latched opt queue =
      on_terminated (none, opt, queue)
        (if not (has_value opt) || not (queue_is_empty queue)
          then (do popped ← pop queue; returns (some popped.0, some popped.0, popped.1))
          else returns (opt, opt, queue))

  -- QueueGetter::hasNext
  unfoldable pub has_item : QueueMode → Option T → LockQueue T → Bool
  unfolding has_value queue_is_empty
  has_item blocking opt queue = not (queue_is_empty queue)
  has_item latched opt queue = has_value opt || not (queue_is_empty queue)

  unfoldable pub receive : LeakPolicy → T → BufferedConsumer T → Outcome (BufferedConsumer T)
  unfolding on_terminated push
  receive policy item p =
      if not p.buffer.is_terminated
      then on_terminated p (do q ← push policy item p.buffer; returns (record p { buffer = q }))
      else returns p

  unfoldable pub get_next : QueueMode → BufferedConsumer T → Outcome (Option T × BufferedConsumer T)
  unfolding get_item has_value count_transaction
  get_next mode p = do
    got ← get_item mode p.opt p.buffer
    returns (
      got.0,
      record {
        buffer = got.2;
        opt = got.1;
        num_transactions =
            if has_value got.0 then count_transaction p.num_transactions else p.num_transactions;
      },
    )

  unfoldable pub has_next : QueueMode → BufferedConsumer T → Bool
  unfolding has_item
  has_next mode p = has_item mode p.opt p.buffer

  -- `operator bool`
  unfoldable pub is_active : BufferedConsumer T → Bool
  is_active p = not p.buffer.is_terminated

  unfoldable pub queue_size : BufferedConsumer T → ℕ
  unfolding get_queue_size
  queue_size p = get_queue_size p.buffer

  -- QueueGetter::clear
  unfoldable pub clear_item : QueueMode → Option T → Option T
  clear_item blocking opt = opt
  clear_item latched opt = none

  unfoldable pub clear : QueueMode → BufferedConsumer T → BufferedConsumer T
  unfolding clear_queue clear_item
  clear mode p = record p { buffer = clear_queue p.buffer; opt = clear_item mode p.opt }

  unfoldable pub deactivate : BufferedConsumer T → BufferedConsumer T
  unfolding terminate
  deactivate p = record p { buffer = terminate p.buffer }
