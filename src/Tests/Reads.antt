-- ===== src/Tests/Reads.antt =====
-- Reads of consumer ports of numbers, at concrete inputs.
use superflow.Base.{ℕ, ◌≡◌, refl, ◌⊎◌, true, false, [], ◌∷◌, some, waits}
use superflow.Map.{nat_key}
use superflow.Consumer.Buffered.{QueueMode, BufferedConsumer, receive, deactivate}
use superflow.Consumer.Buffered as Buffered
use superflow.Consumer.BufferedReads.{Hands, get_next-has_next}
use superflow.Consumer.Multi.{MultiConsumer, get_next, has_next}

-- A port with room for one item, which has read 3 and has 4 in its buffer
abbrev one_item : BufferedConsumer ℕ
one_item = record {
  buffer = record { queue = 4 ∷ []; max_queue_size = 1; is_terminated = false };
  opt = some 3;
  num_transactions = 1;
}

get_next-has_next_example :
    ((Buffered.has_next QueueMode.latched one_item ≡ true) × Hands QueueMode.latched one_item)
    ⊎ ((Buffered.has_next QueueMode.latched one_item ≡ false)
        × (Buffered.get_next QueueMode.latched one_item ≡ waits))
get_next-has_next_example = get_next-has_next QueueMode.latched one_item refl

-- Two producers: 1 has sent an item since the last read, and 2 has not.
abbrev one_new : MultiConsumer ℕ ℕ
one_new = record {
  multi_queue = record {
    queues = (1, 5 ∷ []) ∷ (2, []) ∷ [];
    max_queue_size = 1;
    is_terminated = false;
  };
  last_items = (1, 3) ∷ (2, 4) ∷ [];
  num_transactions = 1;
}
