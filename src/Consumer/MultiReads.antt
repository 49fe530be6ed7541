-- ===== src/Consumer/MultiReads.antt =====
-- What a MultiConsumerPort hands out.
use superflow.Base.{
  ◌≡◌, ◌≢◌, refl, inl, inr, true, false, List, [], ◌∷◌, arith, is_empty, Option, none, some,
  if◌then◌else◌, returns, waits, Bool-cases,
}
use superflow.Policy.{GetMode, blocking, latched, ready_only, at_least_one_new}
use superflow.Map.{Key, Map, IsMap, lookup, insert}
use superflow.Map.Laws.{lookup-insert_self, lookup-insert_ne, IsAbove-lookup}
use superflow.MultiLockQueue.Ready.{heads, tails}
use superflow.MultiLockQueue.Waiting.{heads-IsMap, gated, pops_and_peeks}
use superflow.Consumer.{on_terminated, count_transaction}
use superflow.Consumer.Multi.{
  MultiConsumer, overwrite, values, get_items, has_items, get, get_next, has_next,
}

-- The first option if it has a value, and else the second
abbrev pub first_of {κ} : {T : Type κ} → Option T → Option T → Option T
first_of (some x) other = some x
first_of none other = other

is_empty→nil {ℓ} : {A : Type ℓ} (xs : List A) → is_empty xs ≡ true → xs ≡ []
is_empty→nil [] h = refl
is_empty→nil (x ∷ xs) h = cc

module _ {ℓ κ} {K : Type ℓ} {T : Type κ} ⦃key : Key K⦄ where
  -- The items that the latched modes have after a read of the fronts of the queues.
  abbrev pub renewed : MultiConsumer K T → Map K T
  renewed p =
      if is_empty p.last_items
      then heads p.multi_queue.queues
      else overwrite (heads p.multi_queue.queues) p.last_items

  -- The vector and the kept items of a read, by mode
  abbrev pub shown : GetMode → MultiConsumer K T → Map K T
  shown blocking p = heads p.multi_queue.queues
  shown latched p = renewed p
  shown ready_only p = heads p.multi_queue.queues
  shown at_least_one_new p = renewed p

  abbrev pub kept : GetMode → MultiConsumer K T → Map K T
  kept blocking p = p.last_items
  kept latched p = renewed p
  kept ready_only p = p.last_items
  kept at_least_one_new p = renewed p

  -- The port after a read
  abbrev pub after_read : GetMode → MultiConsumer K T → MultiConsumer K T
  after_read mode p = record {
    multi_queue = record p.multi_queue { queues = tails p.multi_queue.queues };
    last_items = kept mode p;
    num_transactions = count_transaction p.num_transactions;
  }

  get_items_lem :
      (mode : GetMode) (p : MultiConsumer K T)
      → IsMap p.multi_queue.queues
      → get_items mode p.last_items p.multi_queue
        ≡ gated p.multi_queue.is_terminated
            (has_next mode p)
            (values (shown mode p), kept mode p, (after_read mode p).multi_queue)
  unfolding get_items has_next has_items
  get_items_lem blocking p v = ground (arith, (pops_and_peeks p.multi_queue v).2)
  get_items_lem latched p v =
      ground (arith, (pops_and_peeks p.multi_queue v).2, (pops_and_peeks p.multi_queue v).0)
  get_items_lem ready_only p v = ground (arith, (pops_and_peeks p.multi_queue v).0)
  get_items_lem at_least_one_new p v =
      ground (arith, (pops_and_peeks p.multi_queue v).2, (pops_and_peeks p.multi_queue v).1)

  get_lem :
      (mode : GetMode) (p : MultiConsumer K T)
      → IsMap p.multi_queue.queues
      → get mode p
        ≡ gated p.multi_queue.is_terminated
            (has_next mode p)
            (values (shown mode p), after_read mode p)
  unfolding get
  get_lem mode p v = ground (arith, get_items_lem mode p v)

  pub lookup-overwrite :
      (k : K) (items last : Map K T)
      → IsMap items
      → lookup k (overwrite items last) ≡ first_of (lookup k items) (lookup k last)
  unfolding overwrite lookup
  lookup-overwrite k [] last v = refl
  lookup-overwrite k ((j, x) ∷ items) last v = ground (
    arith,
    lookup-overwrite k items (insert j x last) v.1,
    lookup-insert_self k x last,
    lookup-insert_ne k j x last,
    key.cmp_eq k j,
    IsAbove-lookup j items v.0,
  )

  pub renewed-lookup :
      (k : K) (p : MultiConsumer K T)
      → IsMap p.multi_queue.queues
      → p.last_items ≢ []
      → lookup k (renewed p)
        ≡ first_of (lookup k (heads p.multi_queue.queues)) (lookup k p.last_items)
  renewed-lookup k p v n = elim (Bool-cases (is_empty p.last_items)) [
    | inl e ↦ absurd (n (is_empty→nil p.last_items e))
    | inr e ↦ rw e (lookup-overwrite k (heads p.multi_queue.queues) p.last_items (heads-IsMap _ v))
  ]

  get_next_lem :
      (mode : GetMode) (p : MultiConsumer K T)
      → IsMap p.multi_queue.queues
      → get_next mode p ≡ (
          if p.multi_queue.is_terminated
          then returns (none, p)
          else if has_next mode p
          then returns (some (values (shown mode p)), after_read mode p)
          else waits)
  unfolding get_next on_terminated
  get_next_lem mode p v = ground (arith, get_lem mode p v)

  -- A Latched port that has read before, on sorted queues and not deactivated, never waits: it
  -- returns the new `last_items_`, which have for each key the front of its queue, or, if there is
  -- none, the item that they had before.
  pub latched_newest :
      (k : K) (p : MultiConsumer K T)
      → IsMap p.multi_queue.queues
      → p.multi_queue.is_terminated ≡ false
      → p.last_items ≢ []
      → (r : MultiConsumer K T) × (get_next latched p ≡ returns (some (values r.last_items), r))
        × (lookup k r.last_items
            ≡ first_of (lookup k (heads p.multi_queue.queues)) (lookup k p.last_items))
  unfolding has_next has_items
  latched_newest k p v alive n = (
    after_read latched p,
    ground (arith, get_next_lem latched p v, is_empty→nil p.last_items),
    renewed-lookup k p v n,
  )
