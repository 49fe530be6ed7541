-- ===== src/LockQueue/Bounds.antt =====
-- The bound of a LockQueue, and what it protects: no method touches the front of an empty queue.
use superflow.Base.{
  ℕ, suc, ◌+◌, ◌-◌, ◌≤◌, ◌≡◌, refl, ◌⊎◌, inl, inr, Bool-cases, Bool, true, false, List, [], ◌∷◌,
  ◌++◌, arith, length, length-append, length-drop, drop, leb, if◌then◌else◌, dec_le, Outcome,
  returns, throws, waits, terminated, Ensures, ◌>>=◌,
}
use superflow.Policy.{LeakPolicy, leaky, push_blocking}
use superflow.LockQueue.{
  LockQueue, made, make_list, push, pop, front, clear_queue, terminate, make_room, append_item,
}

pub record IsValid {ℓ} {T : Type ℓ} (q : LockQueue T) : Type 0 where
  pub has_room : 1 ≤ q.max_queue_size
  pub within : length q.queue ≤ q.max_queue_size

module _ {ℓ} {T : Type ℓ} where
  -- A constructed queue is valid.
  pub make_list-IsValid :
      (max : ℕ) (items : List T) (q : LockQueue T) → make_list max items ≡ made q → IsValid q
  unfolding make_list
  make_list-IsValid max items q h = ground arith

  -- Whether a push finds the queue full and has to wait for a consumer.
  abbrev pub is_blocked : LeakPolicy → LockQueue T → Bool
  is_blocked leaky q = false
  is_blocked push_blocking q = leb q.max_queue_size (length q.queue)

  -- The queue after an accepted push: the oldest item gives way if the queue was full.
  abbrev pub pushed : T → LockQueue T → LockQueue T
  pushed x q = record q { queue = drop (length q.queue + 1 - q.max_queue_size) q.queue ++ x ∷ [] }

  -- The front item and the queue without it; a pop of an empty queue waits.
  abbrev pub popped : List T → LockQueue T → Outcome (T × LockQueue T)
  popped [] q = waits
  popped (x ∷ xs) q = returns (x, record q { queue = xs })

  abbrev queue_of : List T → ℕ → Bool → LockQueue T
  queue_of xs max t = record { queue = xs; max_queue_size = max; is_terminated = t }

  accept :
      (x : T) (xs : List T) (max : ℕ) (t : Bool)
      → IsValid (queue_of xs max t)
      → (make_room (queue_of xs max t) >>= λ r. returns (append_item x r))
        ≡ returns (pushed x (queue_of xs max t))
  unfolding make_room append_item
  accept x [] max t v = ground arith
  accept x (y ∷ ys) max t v = elim (dec_le max (suc (length ys))) [
    | yes full ↦ let e : suc (length ys) + 1 - max ≡ 1 = omega arith in rw e (ground arith)
    | no room ↦ let e : suc (length ys) + 1 - max ≡ 0 = omega arith in rw e (ground arith)
  ]

  push_fields :
      (policy : LeakPolicy) (x : T) (xs : List T) (max : ℕ) (t : Bool)
      → IsValid (queue_of xs max t)
      → let q = queue_of xs max t in
        push policy x q ≡ (
          if t
          then throws terminated
          else if is_blocked policy q
          then waits
          else returns (pushed x q))
  unfolding push
  push_fields leaky x xs max true v = refl
  push_fields leaky x xs max false v = accept x xs max false v
  push_fields push_blocking x xs max true v = ground arith
  push_fields push_blocking x xs max false v = ground (arith, accept x xs max false v)

  -- What a push does, on every branch.
  pub push_lem :
      (policy : LeakPolicy) (x : T) (q : LockQueue T)
      → IsValid q
      → push policy x q ≡ (
          if q.is_terminated
          then throws terminated
          else if is_blocked policy q
          then waits
          else returns (pushed x q))
  push_lem policy x q v = push_fields policy x q.queue q.max_queue_size q.is_terminated v

  pop_fields :
      (xs : List T) (max : ℕ) (t : Bool)
      → pop (queue_of xs max t) ≡ (if t then throws terminated else popped xs (queue_of xs max t))
  unfolding pop
  pop_fields [] max true = refl
  pop_fields (x ∷ xs) max true = refl
  pop_fields [] max false = refl
  pop_fields (x ∷ xs) max false = refl

  -- What a pop does, on every branch.
  pub pop_lem :
      (q : LockQueue T) → pop q ≡ (if q.is_terminated then throws terminated else popped q.queue q)
  pop_lem q = pop_fields q.queue q.max_queue_size q.is_terminated

  pub push_cases :
      (policy : LeakPolicy) (x : T) (q : LockQueue T)
      → IsValid q
      → (push policy x q ≡ throws terminated)
        ⊎ (push policy x q ≡ waits)
        ⊎ ((is_blocked policy q ≡ false) × (push policy x q ≡ returns (pushed x q)))
  push_cases policy x q v = ground (arith, push_lem policy x q v)

  popped_cases :
      (xs : List T) (q : LockQueue T)
      → (popped xs q ≡ waits)
        ⊎ ((y : T) × (ys : List T) × (xs ≡ y ∷ ys)
            × (popped xs q ≡ returns (y, record q { queue = ys })))
  popped_cases [] q = inl refl
  popped_cases (x ∷ xs) q = inr (x, xs, refl, refl)

  pub pop_cases :
      (q : LockQueue T)
      → (pop q ≡ throws terminated)
        ⊎ (pop q ≡ waits)
        ⊎ ((y : T) × (ys : List T) × (q.queue ≡ y ∷ ys)
            × (pop q ≡ returns (y, record q { queue = ys })))
  pop_cases q = elim (Bool-cases q.is_terminated) [
    | inl dead ↦ inl (ground (arith, pop_lem q))
    | inr alive ↦ inr (elim (popped_cases q.queue q) [
      | inl e ↦ inl (ground (arith, pop_lem q))
      | inr (y, ys, e, r) ↦ inr (y, ys, e, ground (arith, pop_lem q))
    ])
  ]

  pub pushed-IsValid : (x : T) (q : LockQueue T) → IsValid q → IsValid (pushed x q)
  pushed-IsValid x q v = record {
    has_room = v.has_room;
    within = omega (
      arith,
      v.within,
      length-append (drop (length q.queue + 1 - q.max_queue_size) q.queue) (x ∷ []),
      length-drop (length q.queue + 1 - q.max_queue_size) q.queue,
    );
  }

  pub push-IsValid :
      (policy : LeakPolicy) (x : T) (q : LockQueue T)
      → IsValid q
      → Ensures IsValid (push policy x q)
  push-IsValid policy x q v = rw (push_lem policy x q v) (ground (arith, pushed-IsValid x q v))

  pub pop-IsValid :
      (q : LockQueue T) → IsValid q → Ensures (λ (r : T × LockQueue T). IsValid r.1) (pop q)
  pop-IsValid q v = rw (pop_lem q) (ground arith)

  -- On a valid queue no push, pop or front ever touches the front of an empty std::queue, and every
  -- queue that a call leaves is valid.
  pub calls-IsValid :
      (policy : LeakPolicy) (x : T) (q : LockQueue T)
      → IsValid q
      → Ensures IsValid (push policy x q)
        × Ensures (λ (r : T × LockQueue T). IsValid r.1) (pop q)
        × Ensures (λ (_ : T). Unit {0}) (front q)
        × IsValid (clear_queue q)
        × IsValid (terminate q)
  unfolding clear_queue terminate front
  calls-IsValid policy x q v = (
    push-IsValid policy x q v,
    pop-IsValid q v,
    ground arith,
    record { has_room = v.has_room; within = omega arith },
    ground arith,
  )
