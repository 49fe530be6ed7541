-- ===== src/Consumer/Disconnected.antt =====
-- What a MultiConsumerPort still has of a producer after `disconnect(ptr)`.
use superflow.Base.{◌≡◌, ◌≢◌, ap, ◌∙◌, false, [], arith, none, some, returns}
use superflow.Policy.{latched}
use superflow.Map.{Key, Map, IsMap, lookup, erase}
use superflow.Map.Laws.{erase-IsMap, lookup-erase_self}
use superflow.MultiLockQueue.{remove_queue}
use superflow.MultiLockQueue.Waiting.{lookup-heads-none}
use superflow.MultiLockQueue.Ready.{heads}
use superflow.Consumer.Multi.{MultiConsumer, values, get_next, remove_producer}
use superflow.Consumer.MultiReads.{first_of, latched_newest}

module _ {ℓ κ} {K : Type ℓ} {T : Type κ} ⦃key : Key K⦄ where
  nonempty : (k : K) (x : T) (m : Map K T) → lookup k m ≡ some x → m ≢ []
  unfolding lookup
  nonempty k x m h e = ground (arith, ap (lookup k) e)

  -- `disconnect(ptr)` takes the queue of the producer away, but not its last item from a Latched
  -- port: on sorted queues and not deactivated, the next read still returns that item, and keeps
  -- it.
  pub keeps_disconnected :
      (k : K) (x : T) (p : MultiConsumer K T)
      → IsMap p.multi_queue.queues
      → p.multi_queue.is_terminated ≡ false
      → lookup k p.last_items ≡ some x
      → (r : MultiConsumer K T) × (get_next latched (remove_producer k p)
          ≡ returns (some (values r.last_items), r))
        × (lookup k r.last_items ≡ some x)
  unfolding remove_producer remove_queue
  keeps_disconnected k x p v alive h =
      let q : MultiConsumer K T = remove_producer k p in
      let (r, e, l) =
        latched_newest k q (erase-IsMap k p.multi_queue.queues v) alive
          (nonempty k x p.last_items h) in
      let gone : lookup k (heads q.multi_queue.queues) ≡ none =
        lookup-heads-none k (erase k p.multi_queue.queues)
          (lookup-erase_self k p.multi_queue.queues v) in
      (r, e, l ∙ ap (λ o. first_of o (lookup k p.last_items)) gone ∙ h)
