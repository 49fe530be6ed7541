-- ===== src/MultiLockQueue/Bounds.antt =====
-- The invariant of a MultiLockQueue: sorted keys, and no queue above the limit.
use superflow.Base.{
  ℕ, suc, ◌+◌, ◌-◌, ◌≤◌, ◌≡◌, ◌≢◌, refl, inl, inr, ◌∙◌, List, [], ◌∷◌, ◌++◌, arith, length,
  length-append, length-drop, drop, dec_le, returns, undefined, Ensures,
}
use superflow.Map.{Key, Map, IsAbove, IsMap, insert, erase, lookup}
use superflow.Map.Laws.{
  insert-IsMap, erase-IsMap, lookup-insert_self, lookup-insert_ne, same_or_not,
}
use superflow.MultiLockQueue.{
  MultiLockQueue, make, create_queues, queue_at, pop_if_full, push, pop_locked, clear, clear_queues,
  add_queue, remove_queue, remove_all_queues, terminate,
}
use superflow.MultiLockQueue.Ready.{tails, pop_locked_lem}

-- No queue is longer than the limit.
abbrev pub IsWithin {ℓ κ} : {K : Type ℓ} {T : Type κ} → ℕ → Map K (List T) → Type 0
IsWithin max [] = Unit
IsWithin max ((k, queue) ∷ m) = (length queue ≤ max) × IsWithin max m

pub record IsValid {ℓ κ} {K : Type ℓ} {T : Type κ} ⦃key : Key K⦄ (q : MultiLockQueue K T)
    : Type ℓ where
  pub has_room : 1 ≤ q.max_queue_size
  pub within : IsWithin q.max_queue_size q.queues
  pub sorted : IsMap q.queues

module _ {ℓ} {T : Type ℓ} where
  -- A queue after a push: the oldest item gives way if it was full.
  abbrev pub pushed : ℕ → T → List T → List T
  pushed max item queue = drop (length queue + 1 - max) queue ++ item ∷ []

  pop_if_full_lem :
      (max : ℕ) (queue : List T)
      → 1 ≤ max
      → length queue ≤ max
      → pop_if_full max queue ≡ returns (drop (length queue + 1 - max) queue)
  unfolding pop_if_full
  pop_if_full_lem max [] h w = ground arith
  pop_if_full_lem max (x ∷ xs) h w = elim (dec_le max (suc (length xs))) [
    | yes full ↦ let e : suc (length xs) + 1 - max ≡ 1 = omega arith in rw e (ground arith)
    | no room ↦ let e : suc (length xs) + 1 - max ≡ 0 = omega arith in rw e (ground arith)
  ]

module _ {ℓ κ} {K : Type ℓ} {T : Type κ} ⦃key : Key K⦄ where
  IsWithin-insert :
      (max : ℕ) (k : K) (queue : List T) (m : Map K (List T))
      → length queue ≤ max
      → IsWithin max m
      → IsWithin max (insert k queue m)
  unfolding insert
  IsWithin-insert max k queue [] h w = (h, tt)
  IsWithin-insert max k queue ((j, other) ∷ m) h w = ground (arith, IsWithin-insert max k queue m h)

  IsWithin-erase :
      (max : ℕ) (k : K) (m : Map K (List T)) → IsWithin max m → IsWithin max (erase k m)
  unfolding erase
  IsWithin-erase max k [] w = tt
  IsWithin-erase max k ((j, other) ∷ m) w = ground (arith, IsWithin-erase max k m)

  IsWithin-lookup :
      (max : ℕ) (k : K) (m : Map K (List T)) → IsWithin max m → length (queue_at k m) ≤ max
  unfolding queue_at lookup
  IsWithin-lookup max k [] w = omega arith
  IsWithin-lookup max k ((j, other) ∷ m) w = ground (arith, IsWithin-lookup max k m)

  create_queues-IsValid :
      (max : ℕ) (ks : List K) (m : Map K (List T))
      → IsWithin max m
      → IsMap m
      → IsWithin max (create_queues ks m) × IsMap (create_queues ks m)
  unfolding create_queues
  create_queues-IsValid max [] m w s = (w, s)
  create_queues-IsValid max (k ∷ ks) m w s =
      create_queues-IsValid max ks (insert k [] m) (IsWithin-insert max k [] m (omega arith) w)
        (insert-IsMap k [] m s)

  IsAbove-tails : (k : K) (m : Map K (List T)) → IsAbove k m → IsAbove k (tails m)
  IsAbove-tails k [] h = tt
  IsAbove-tails k ((j, []) ∷ m) h = (h.0, IsAbove-tails k m h.1)
  IsAbove-tails k ((j, x ∷ xs) ∷ m) h = (h.0, IsAbove-tails k m h.1)

  tails-IsMap : (m : Map K (List T)) → IsMap m → IsMap (tails m)
  tails-IsMap [] h = tt
  tails-IsMap ((j, []) ∷ m) h = (IsAbove-tails j m h.0, tails-IsMap m h.1)
  tails-IsMap ((j, x ∷ xs) ∷ m) h = (IsAbove-tails j m h.0, tails-IsMap m h.1)

  IsWithin-tails : (max : ℕ) (m : Map K (List T)) → IsWithin max m → IsWithin max (tails m)
  IsWithin-tails max [] w = tt
  IsWithin-tails max ((j, []) ∷ m) w = (w.0, IsWithin-tails max m w.1)
  IsWithin-tails max ((j, x ∷ xs) ∷ m) w = (omega arith, IsWithin-tails max m w.1)

  IsAbove-clear : (k : K) (m : Map K (List T)) → IsAbove k m → IsAbove k (clear_queues m)
  unfolding clear_queues
  IsAbove-clear k [] h = tt
  IsAbove-clear k ((j, queue) ∷ m) h = (h.0, IsAbove-clear k m h.1)

  clear_queues-IsValid :
      (max : ℕ) (m : Map K (List T))
      → IsMap m
      → IsWithin max (clear_queues m) × IsMap (clear_queues m)
  unfolding clear_queues
  clear_queues-IsValid max [] h = (tt, tt)
  clear_queues-IsValid max ((j, queue) ∷ m) h =
      let r = clear_queues-IsValid max m h.1 in ((omega arith, r.0), (IsAbove-clear j m h.0, r.1))

  pub push_lem :
      (k : K) (item : T) (q : MultiLockQueue K T)
      → IsValid q
      → push k item q
        ≡ returns (record q {
          queues = insert k (pushed q.max_queue_size item (queue_at k q.queues)) q.queues;
        })
  unfolding push
  push_lem k item q v = rw (
      pop_if_full_lem q.max_queue_size (queue_at k q.queues) v.has_room
        (IsWithin-lookup q.max_queue_size k q.queues v.within))

  pub make-IsValid : (max : ℕ) (ks : List K) → 1 ≤ max → IsValid {T = T} (make max ks)
  unfolding make
  make-IsValid max ks h =
      let r = create_queues-IsValid max ks [] tt tt in
      record { has_room = h; within = r.0; sorted = r.1 }

  pub push-IsValid :
      (k : K) (item : T) (q : MultiLockQueue K T) → IsValid q → Ensures IsValid (push k item q)
  push-IsValid k item q v = rw (push_lem k item q v) (record {
    has_room = v.has_room;
    within = IsWithin-insert q.max_queue_size k _ q.queues fits v.within;
    sorted = insert-IsMap k _ q.queues v.sorted;
  })
    where
      fits : length (pushed q.max_queue_size item (queue_at k q.queues)) ≤ q.max_queue_size
      fits =
          let queue = queue_at k q.queues in
          let n = length queue + 1 - q.max_queue_size in
          omega (
            arith,
            v.has_room,
            IsWithin-lookup q.max_queue_size k q.queues v.within,
            length-append (drop n queue) (item ∷ []),
            length-drop n queue,
          )

  pub pop_locked-IsValid : (q : MultiLockQueue K T) → IsValid q → IsValid (pop_locked q).1
  pop_locked-IsValid q v = rw (pop_locked_lem q v.sorted) (record {
    has_room = v.has_room;
    within = IsWithin-tails q.max_queue_size q.queues v.within;
    sorted = tails-IsMap q.queues v.sorted;
  })

  add_queue-IsValid : (k : K) (q : MultiLockQueue K T) → IsValid q → IsValid (add_queue k q)
  unfolding add_queue
  add_queue-IsValid k q v =
      ground
        (arith, IsWithin-insert q.max_queue_size k [] q.queues, insert-IsMap k [] q.queues v.sorted)

  -- On a valid queue every operation keeps the invariant, and a push never pops an empty queue.
  pub operations-IsValid :
      (k : K) (item : T) (q : MultiLockQueue K T)
      → IsValid q
      → Ensures IsValid (push k item q)
        × IsValid (pop_locked q).1
        × IsValid (clear q)
        × IsValid (add_queue k q)
        × IsValid (remove_queue k q)
        × IsValid (remove_all_queues q)
        × IsValid (terminate q)
  unfolding clear remove_queue remove_all_queues terminate
  operations-IsValid k item q v =
      let c = clear_queues-IsValid q.max_queue_size q.queues v.sorted in
      (
        push-IsValid k item q v,
        pop_locked-IsValid q v,
        record { has_room = v.has_room; within = c.0; sorted = c.1 },
        add_queue-IsValid k q v,
        record {
          has_room = v.has_room;
          within = IsWithin-erase q.max_queue_size k q.queues v.within;
          sorted = erase-IsMap k q.queues v.sorted;
        },
        record { has_room = v.has_room; within = tt; sorted = tt },
        ground arith,
      )

  queue_at-insert_self :
      (k : K) (queue : List T) (m : Map K (List T)) → queue_at k (insert k queue m) ≡ queue
  unfolding queue_at
  queue_at-insert_self k queue m = rw (lookup-insert_self k queue m, queue_at)

  queue_at-insert_ne :
      (k j : K) (queue : List T) (m : Map K (List T))
      → j ≢ k
      → queue_at j (insert k queue m) ≡ queue_at j m
  unfolding queue_at
  queue_at-insert_ne k j queue m h = rw (lookup-insert_ne j k queue m h, queue_at)

  -- In a valid queue a push returns. The item goes to the end of the queue of its key, which
  -- keeps its newest items; no other queue changes.
  pub push_effect :
      (k j : K) (item : T) (q : MultiLockQueue K T)
      → IsValid q
      → j ≢ k
      → (r : MultiLockQueue K T) × (push k item q ≡ returns r)
        × (queue_at k r.queues ≡ pushed q.max_queue_size item (queue_at k q.queues))
        × (queue_at j r.queues ≡ queue_at j q.queues)
  push_effect k j item q v h = (
    _,
    push_lem k item q v,
    queue_at-insert_self k _ q.queues,
    queue_at-insert_ne k j _ q.queues h,
  )

  insert_empty :
      (k j : K) (m : Map K (List T)) → queue_at k m ≡ [] → queue_at k (insert j [] m) ≡ []
  insert_empty k j m e = elim (same_or_not k j) [
    | inl same ↦ rw same (queue_at-insert_self j [] m)
    | inr other ↦ queue_at-insert_ne j k [] m other ∙ e
  ]

  queue_at-create :
      (k : K) (ks : List K) (m : Map K (List T))
      → queue_at k m ≡ []
      → queue_at k (create_queues ks m) ≡ []
  unfolding create_queues
  queue_at-create k [] m e = e
  queue_at-create k (j ∷ ks) m e = queue_at-create k ks (insert j [] m) (insert_empty k j m e)

  queue_at-nil : (k : K) → queue_at {T = T} k [] ≡ []
  unfolding queue_at lookup
  queue_at-nil k = refl

  -- The constructor does not refuse a limit of 0, and then the first push is undefined behaviour.
  pub push_no_limit : (k : K) (item : T) (ks : List K) → push k item (make 0 ks) ≡ undefined
  unfolding push make
  push_no_limit k item ks = rw (queue_at-create k ks [] (queue_at-nil k))
