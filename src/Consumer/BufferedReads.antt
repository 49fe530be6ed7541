-- ===== src/Consumer/BufferedReads.antt =====
-- What a BufferedConsumerPort hands out.
use superflow.Base.{
  suc, ◌-◌, ◌≡◌, refl, sym, ap, ◌∙◌, ◌⊎◌, inl, inr, true, false, List, [], ◌∷◌, ◌++◌, arith,
  append_assoc, length, length-append, drop, keep_last, Option, none, some, Outcome, returns, waits,
  ◌>>=◌,
}
use superflow.Policy.{LeakPolicy, leaky}
use superflow.LockQueue.{LockQueue, queue_is_empty, terminate}
use superflow.LockQueue.Bounds.{IsValid, pushed, push_lem, pop_lem, pushed-IsValid}
use superflow.LockQueue.Latest.{push_all, push_all-keep_last}
use superflow.Consumer.{on_terminated, count_transaction}
use superflow.Consumer.Buffered.{
  QueueMode, blocking, latched, BufferedConsumer, get_item, receive, get_next, has_next, has_item,
  has_value, deactivate,
}

module _ {ℓ} {T : Type ℓ} where
  -- The port after a read that took the oldest item.
  abbrev pub taken : QueueMode → T → List T → BufferedConsumer T → BufferedConsumer T
  taken blocking x rest p = record {
    buffer = record p.buffer { queue = rest };
    opt = p.opt;
    num_transactions = count_transaction p.num_transactions;
  }
  taken latched x rest p = record {
    buffer = record p.buffer { queue = rest };
    opt = some x;
    num_transactions = count_transaction p.num_transactions;
  }

  -- The port after a read that repeated the last item.
  abbrev pub repeated : BufferedConsumer T → BufferedConsumer T
  repeated p = record p { num_transactions = count_transaction p.num_transactions }

  get_next_taken :
      (mode : QueueMode) (x : T) (rest : List T) (p : BufferedConsumer T)
      → p.buffer.queue ≡ x ∷ rest
      → p.buffer.is_terminated ≡ false
      → get_next mode p ≡ returns (some x, taken mode x rest p)
  unfolding get_next get_item on_terminated has_value queue_is_empty
  get_next_taken blocking x rest p e alive = ground (arith, pop_lem p.buffer)
  get_next_taken latched x rest p e alive = ground (arith, pop_lem p.buffer)

  get_next_blocked :
      (p : BufferedConsumer T)
      → p.buffer.queue ≡ []
      → p.buffer.is_terminated ≡ false
      → get_next blocking p ≡ waits
  unfolding get_next get_item on_terminated
  get_next_blocked p e alive = ground (arith, pop_lem p.buffer)

  get_next_unlatched :
      (p : BufferedConsumer T)
      → p.buffer.queue ≡ []
      → p.opt ≡ none
      → p.buffer.is_terminated ≡ false
      → get_next latched p ≡ waits
  unfolding get_next get_item on_terminated has_value queue_is_empty
  get_next_unlatched p e n alive = ground (arith, pop_lem p.buffer)

  -- Once a latched port has handed out an item, a read with an empty buffer returns it again, and
  -- this also on a deactivated port.
  pub latched_repeats :
      (x : T) (p : BufferedConsumer T)
      → p.opt ≡ some x
      → p.buffer.queue ≡ []
      → (get_next latched p ≡ returns (some x, repeated p))
        × (get_next latched (deactivate p) ≡ returns (some x, repeated (deactivate p)))
  unfolding get_next get_item on_terminated has_value queue_is_empty deactivate terminate
  latched_repeats x p o e = (ground arith, ground arith)

  -- The read hands out the oldest item of the buffer, or, latched, the last item again.
  abbrev pub Hands : QueueMode → BufferedConsumer T → Type ℓ
  Hands mode p =
      ((x : T) × (rest : List T) × (p.buffer.queue ≡ x ∷ rest)
        × (get_next mode p ≡ returns (some x, taken mode x rest p)))
      ⊎ ((x : T) × (mode ≡ latched)
          × (p.buffer.queue ≡ [])
          × (p.opt ≡ some x)
          × (get_next mode p ≡ returns (some x, repeated p)))

  reads_fields :
      (mode : QueueMode) (queue : List T) (opt : Option T) (p : BufferedConsumer T)
      → p.buffer.queue ≡ queue
      → p.opt ≡ opt
      → p.buffer.is_terminated ≡ false
      → ((has_next mode p ≡ true) × Hands mode p)
        ⊎ ((has_next mode p ≡ false) × (get_next mode p ≡ waits))
  unfolding has_next has_item has_value queue_is_empty
  reads_fields blocking (x ∷ rest) opt p e o alive =
      inl (ground arith, inl (x, rest, e, get_next_taken blocking x rest p e alive))
  reads_fields latched (x ∷ rest) opt p e o alive =
      inl (ground arith, inl (x, rest, e, get_next_taken latched x rest p e alive))
  reads_fields blocking [] opt p e o alive = inr (ground arith, get_next_blocked p e alive)
  reads_fields latched [] (some x) p e o alive =
      inl (ground arith, inr (x, refl, e, o, (latched_repeats x p o e).0))
  reads_fields latched [] none p e o alive = inr (ground arith, get_next_unlatched p e o alive)

  -- On a port that is not deactivated, `hasNext` tells whether `getNext` waits. If it does not
  -- wait, it hands out the oldest item of the buffer and takes it from there, or, in the latched
  -- mode with an empty buffer, it hands out the last item again.
  pub get_next-has_next :
      (mode : QueueMode) (p : BufferedConsumer T)
      → p.buffer.is_terminated ≡ false
      → ((has_next mode p ≡ true) × Hands mode p)
        ⊎ ((has_next mode p ≡ false) × (get_next mode p ≡ waits))
  get_next-has_next mode p alive = reads_fields mode p.buffer.queue p.opt p refl refl alive

  -- After `deactivate` an arriving item is dropped without waiting or throwing, and a blocking read
  -- returns no item.
  pub deactivate_stops :
      (policy : LeakPolicy) (item : T) (p : BufferedConsumer T)
      → (receive policy item (deactivate p) ≡ returns (deactivate p))
        × (get_next blocking (deactivate p) ≡ returns (none, deactivate p))
  unfolding receive get_next get_item on_terminated has_value deactivate terminate
  deactivate_stops policy item p =
      (ground arith, ground (arith, pop_lem p.buffer, pop_lem (terminate p.buffer)))

  -- One arrival after the other, with no read in between.
  unfoldable pub receive_all : List T → BufferedConsumer T → Outcome (BufferedConsumer T)
  receive_all [] p = returns p
  receive_all (x ∷ xs) p = receive leaky x p >>= receive_all xs

  receive_live :
      (x : T) (p : BufferedConsumer T)
      → IsValid p.buffer
      → p.buffer.is_terminated ≡ false
      → receive leaky x p ≡ returns (record p { buffer = pushed x p.buffer })
  unfolding receive on_terminated
  receive_live x p v alive = ground (arith, push_lem leaky x p.buffer v)

  receive_all-push_all :
      (xs : List T) (p : BufferedConsumer T) (q : LockQueue T)
      → IsValid p.buffer
      → p.buffer.is_terminated ≡ false
      → push_all xs p.buffer ≡ returns q
      → receive_all xs p ≡ returns (record p { buffer = q })
  unfolding receive_all push_all
  receive_all-push_all [] p q v alive e = ground arith
  receive_all-push_all (x ∷ xs) p q v alive e = rw (receive_live x p v alive) (
      receive_all-push_all xs (record p { buffer = pushed x p.buffer }) q
        (pushed-IsValid x p.buffer v) alive (ground (arith, push_lem leaky x p.buffer v)))

  keep_one : (xs : List T) (x : T) → keep_last 1 (xs ++ x ∷ []) ≡ x ∷ []
  keep_one [] x = refl
  keep_one (y ∷ ys) x =
      let e : length (y ∷ ys ++ x ∷ []) - 1 ≡ suc (length (ys ++ x ∷ []) - 1) =
        omega (arith, length-append ys (x ∷ [])) in
      ap (λ n. drop n (y ∷ ys ++ x ∷ [])) e ∙ keep_one ys x

  -- "With buffer size 1 you will always get newest data available": whatever arrives at a leaky
  -- port with room for one item, and in whatever state its buffer was, the next read returns the
  -- item that came last.
  pub newest :
      (mode : QueueMode) (xs : List T) (x : T) (p : BufferedConsumer T)
      → IsValid p.buffer
      → p.buffer.max_queue_size ≡ 1
      → p.buffer.is_terminated ≡ false
      → (q r : BufferedConsumer T) × (receive_all (xs ++ x ∷ []) p ≡ returns q)
        × (get_next mode q ≡ returns (some x, r))
  newest mode xs x p v one alive =
      let e = push_all-keep_last (xs ++ x ∷ []) p.buffer v alive in
      (
        _,
        _,
        receive_all-push_all (xs ++ x ∷ []) p _ v alive e,
        get_next_taken mode x [] _
            (ap (λ n. keep_last n (p.buffer.queue ++ (xs ++ x ∷ []))) one
              ∙ ap (keep_last 1) (sym (append_assoc p.buffer.queue xs (x ∷ [])))
              ∙ keep_one (p.buffer.queue ++ xs) x)
            alive,
      )
