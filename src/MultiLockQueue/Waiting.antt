-- ===== src/MultiLockQueue/Waiting.antt =====
-- What the pops and peeks of a MultiLockQueue return, when they wait, and when they throw.
use superflow.Base.{
  ◌≡◌, ◌≢◌, refl, ap, ◌∙◌, List, [], ◌∷◌, ◌++◌, map, arith, Ordering, Option, none, some, Outcome,
  returns, throws, waits, terminated, Bool, true, false, if◌then◌else◌,
}
use superflow.Map.{Key, Map, IsAbove, IsMap, lookup}
use superflow.Map.Laws.{IsAbove-lookup}
use superflow.MultiLockQueue.{
  MultiLockQueue, queue_at, any_ready, all_ready, has_any, has_all, wait_any, wait_all, pop_locked,
  peek_locked, pop_ready, pop_at_least_one, pop_all, peek_ready, peek_at_least_one, peek_all,
}
use superflow.MultiLockQueue.Ready.{heads, tails, pop_locked_lem, peek_locked_lem}

module _ {ℓ} {A : Type ℓ} where
  -- The result of a pop or peek that may go on if `ready`.
  abbrev pub gated : Bool → Bool → A → Outcome A
  gated dead ready a = if dead then throws terminated else if ready then returns a else waits

  -- The optional item as a list
  abbrev pub to_list : Option A → List A
  to_list none = []
  to_list (some a) = a ∷ []

module _ {ℓ κ} {K : Type ℓ} {T : Type κ} ⦃key : Key K⦄ where
  -- The fronts, and the state without them.
  abbrev pub popped : MultiLockQueue K T → Map K T × MultiLockQueue K T
  popped q = (heads q.queues, record q { queues = tails q.queues })

  pop_ready_lem : (q : MultiLockQueue K T) → pop_ready q ≡ gated q.is_terminated true (pop_locked q)
  unfolding pop_ready
  pop_ready_lem q = ground arith

  pop_at_least_one_lem :
      (q : MultiLockQueue K T)
      → pop_at_least_one q ≡ gated q.is_terminated (has_any q) (pop_locked q)
  unfolding pop_at_least_one wait_any
  pop_at_least_one_lem q = ground arith

  pop_all_lem :
      (q : MultiLockQueue K T) → pop_all q ≡ gated q.is_terminated (has_all q) (pop_locked q)
  unfolding pop_all wait_all
  pop_all_lem q = ground arith

  peek_ready_lem :
      (q : MultiLockQueue K T) → peek_ready q ≡ gated q.is_terminated true (peek_locked q)
  unfolding peek_ready
  peek_ready_lem q = ground arith

  peek_at_least_one_lem :
      (q : MultiLockQueue K T)
      → peek_at_least_one q ≡ gated q.is_terminated (has_any q) (peek_locked q)
  unfolding peek_at_least_one wait_any
  peek_at_least_one_lem q = ground arith

  peek_all_lem :
      (q : MultiLockQueue K T) → peek_all q ≡ gated q.is_terminated (has_all q) (peek_locked q)
  unfolding peek_all wait_all
  peek_all_lem q = ground arith

  -- What each pop and each peek does on sorted queues: all of them take, or show, the fronts of
  -- the queues that have one, and they differ in what they wait for.
  pub pops_and_peeks :
      (q : MultiLockQueue K T)
      → IsMap q.queues
      → (pop_ready q ≡ gated q.is_terminated true (popped q))
        × (pop_at_least_one q ≡ gated q.is_terminated (has_any q) (popped q))
        × (pop_all q ≡ gated q.is_terminated (has_all q) (popped q))
        × (peek_ready q ≡ gated q.is_terminated true (heads q.queues))
        × (peek_at_least_one q ≡ gated q.is_terminated (has_any q) (heads q.queues))
        × (peek_all q ≡ gated q.is_terminated (has_all q) (heads q.queues))
  pops_and_peeks q v =
      let pops = pop_locked_lem q v in
      let peeks = peek_locked_lem q v in
      (
        pop_ready_lem q ∙ ap (gated q.is_terminated true) pops,
        pop_at_least_one_lem q ∙ ap (gated q.is_terminated (has_any q)) pops,
        pop_all_lem q ∙ ap (gated q.is_terminated (has_all q)) pops,
        peek_ready_lem q ∙ ap (gated q.is_terminated true) peeks,
        peek_at_least_one_lem q ∙ ap (gated q.is_terminated (has_any q)) peeks,
        peek_all_lem q ∙ ap (gated q.is_terminated (has_all q)) peeks,
      )

  all_ready-keys :
      (m : Map K (List T)) → all_ready m ≡ true → map (λ e. e.0) (heads m) ≡ map (λ e. e.0) m
  unfolding all_ready
  all_ready-keys [] h = refl
  all_ready-keys ((k, []) ∷ m) h = cc
  all_ready-keys ((k, x ∷ xs) ∷ m) h = ap (◌∷◌ k) (all_ready-keys m h)

  any_ready-heads : (m : Map K (List T)) → any_ready m ≡ true → heads m ≢ []
  unfolding any_ready
  any_ready-heads [] h = cc
  any_ready-heads ((k, []) ∷ m) h = any_ready-heads m h
  any_ready-heads ((k, x ∷ xs) ∷ m) h = λ e. cc

  IsAbove-heads : (k : K) (m : Map K (List T)) → IsAbove k m → IsAbove k (heads m)
  IsAbove-heads k [] h = tt
  IsAbove-heads k ((j, []) ∷ m) h = IsAbove-heads k m h.1
  IsAbove-heads k ((j, x ∷ xs) ∷ m) h = (h.0, IsAbove-heads k m h.1)

  pub heads-IsMap : (m : Map K (List T)) → IsMap m → IsMap (heads m)
  heads-IsMap [] v = tt
  heads-IsMap ((j, []) ∷ m) v = heads-IsMap m v.1
  heads-IsMap ((j, x ∷ xs) ∷ m) v = (IsAbove-heads j m v.0, heads-IsMap m v.1)

  pub lookup-heads-none :
      (k : K) (m : Map K (List T)) → lookup k m ≡ none → lookup k (heads m) ≡ none
  unfolding lookup
  lookup-heads-none k [] h = refl
  lookup-heads-none k ((j, []) ∷ m) h = ground (arith, lookup-heads-none k m)
  lookup-heads-none k ((j, x ∷ xs) ∷ m) h = ground (arith, lookup-heads-none k m)

  pub lookup-tails-none :
      (k : K) (m : Map K (List T)) → lookup k m ≡ none → lookup k (tails m) ≡ none
  unfolding lookup
  lookup-tails-none k [] h = refl
  lookup-tails-none k ((j, []) ∷ m) h = ground (arith, lookup-tails-none k m)
  lookup-tails-none k ((j, x ∷ xs) ∷ m) h = ground (arith, lookup-tails-none k m)

  head_absent :
      (k j : K) (m : Map K (List T))
      → key.cmp k j ≡ Ordering.eq
      → IsAbove j m
      → lookup k (heads m) ≡ none
  head_absent k j m e h =
      rw ((key.cmp_eq k j).0 e) (IsAbove-lookup j (heads m) (IsAbove-heads j m h))

  -- What was popped for a key stood before what is left.
  heads-tails :
      (k : K) (m : Map K (List T))
      → IsMap m
      → queue_at k m ≡ to_list (lookup k (heads m)) ++ queue_at k (tails m)
  unfolding queue_at lookup
  heads-tails k [] v = refl
  heads-tails k ((j, []) ∷ m) v =
      ground
        (arith, heads-tails k m v.1, λ (e : key.cmp k j ≡ Ordering.eq). head_absent k j m e v.0)
  heads-tails k ((j, x ∷ xs) ∷ m) v = ground (arith, heads-tails k m v.1)

  -- On a queue that is not terminated `popReady` returns, and nothing is lost or moved between
  -- queues: what it hands out for a key stood before what stays in the queue of that key.
  pub pop_ready-queue_at :
      (k : K) (q : MultiLockQueue K T)
      → IsMap q.queues
      → q.is_terminated ≡ false
      → (items : Map K T) × (r : MultiLockQueue K T) × (pop_ready q ≡ returns (items, r))
        × (queue_at k q.queues ≡ to_list (lookup k items) ++ queue_at k r.queues)
  pop_ready-queue_at k q v alive = (
    _,
    _,
    (pops_and_peeks q v).0 ∙ ap (λ t. gated t true (popped q)) alive,
    heads-tails k q.queues v,
  )

  -- If the queue is not terminated and every one of its queues has an item, `popAll` returns one
  -- item for each of them, in the order of the keys.
  pub pop_all-keys :
      (q : MultiLockQueue K T)
      → IsMap q.queues
      → q.is_terminated ≡ false
      → has_all q ≡ true
      → (r : MultiLockQueue K T) × (items : Map K T) × (pop_all q ≡ returns (items, r))
        × (map (λ e. e.0) items ≡ map (λ e. e.0) q.queues)
  unfolding has_all
  pop_all-keys q v alive ready = (
    _,
    _,
    (pops_and_peeks q v).2
        ∙ ap (λ t. gated t (has_all q) (popped q)) alive
        ∙ ap (λ t. gated false t (popped q)) ready,
    all_ready-keys q.queues ready,
  )

  -- If the queue is not terminated and some queue has an item, `popAtLeastOne` returns an item.
  pub pop_at_least_one_nonempty :
      (q : MultiLockQueue K T)
      → IsMap q.queues
      → q.is_terminated ≡ false
      → has_any q ≡ true
      → (r : MultiLockQueue K T) × (items : Map K T) × (pop_at_least_one q ≡ returns (items, r))
        × (items ≢ [])
  unfolding has_any
  pop_at_least_one_nonempty q v alive ready = (
    _,
    _,
    (pops_and_peeks q v).1
        ∙ ap (λ t. gated t (has_any q) (popped q)) alive
        ∙ ap (λ t. gated false t (popped q)) ready,
    any_ready-heads q.queues ready,
  )

  -- With no queues at all and no termination, `hasAll` answers true and yet `popAtLeastOne` and
  -- `peekAtLeastOne` wait.
  pub no_queues :
      (q : MultiLockQueue K T)
      → q.queues ≡ []
      → q.is_terminated ≡ false
      → (has_all q ≡ true) × (pop_at_least_one q ≡ waits) × (peek_at_least_one q ≡ waits)
  unfolding has_all has_any
  no_queues q empty alive = (
    ground arith,
    ground (arith, pop_at_least_one_lem q),
    ground (arith, peek_at_least_one_lem q),
  )
