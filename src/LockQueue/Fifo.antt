-- ===== src/LockQueue/Fifo.antt =====
-- The order and the loss of items over a history of a LockQueue.
use mathlib.Core.List.Sublist
use mathlib.Core.List.{Sublist, nil-sublist}
use superflow.Base.{
  ℕ, zero, suc, ◌+◌, ◌-◌, ◌≤◌, ◌≡◌, refl, sym, ap, ◌∙◌, inl, inr, ◌≢◌, false, List, [], ◌∷◌, ◌++◌,
  arith, length, append_assoc, append-nil, drop,
}
use superflow.Policy.{LeakPolicy, push_blocking}
use superflow.LockQueue.{LockQueue, clear_queue, terminate}
use superflow.LockQueue.History.{Log, Call, pushes, pops, clears, terminates, start, step, run}
use superflow.LockQueue.Bounds.{IsValid, is_blocked, pushed, push_cases, pop_cases, pushed-IsValid}

module _ {ℓ} {T : Type ℓ} where
  -- A property of logs that the four things which can happen keep, every call keeps.
  pub step_cases {κ} :
      (P : Log T → Type κ) (policy : LeakPolicy) (l : Log T) (c : Call T)
      → IsValid l.last
      → P l
      → ((x : T)
          → c ≡ pushes x
          → is_blocked policy l.last ≡ false
          → P (record { last = pushed x l.last; accepted = l.accepted ++ x ∷ []; taken = l.taken }))
      → ((x : T) (xs : List T)
          → l.last.queue ≡ x ∷ xs
          → P (record {
            last = record (l.last) { queue = xs };
            accepted = l.accepted;
            taken = l.taken ++ x ∷ [];
          }))
      → (c ≡ clears → P (record l { last = clear_queue l.last }))
      → P (record l { last = terminate l.last })
      → P (step policy l c)
  unfolding step
  step_cases P policy l (pushes x) v same on_push on_pop on_clear on_end =
      elim (push_cases policy x l.last v) [
        | inl e ↦ rw e same
        | inr (inl e) ↦ rw e same
        | inr (inr (room, e)) ↦ rw e (on_push x refl room)
      ]
  step_cases P policy l pops v same on_push on_pop on_clear on_end = elim (pop_cases l.last) [
    | inl e ↦ rw e same
    | inr (inl e) ↦ rw e same
    | inr (inr (x, xs, q, e)) ↦ rw e (on_pop x xs q)
  ]
  step_cases P policy l clears v same on_push on_pop on_clear on_end = on_clear refl
  step_cases P policy l terminates v same on_push on_pop on_clear on_end = on_end

  pub step-IsValid :
      (policy : LeakPolicy) (l : Log T) (c : Call T)
      → IsValid l.last
      → IsValid (step policy l c).last
  unfolding clear_queue terminate
  step-IsValid policy l c v =
      step_cases (λ m. IsValid m.last) policy l c v v (λ x _ _. pushed-IsValid x l.last v)
        (λ x xs e. ground arith) (λ _. record { has_room = v.has_room; within = omega arith })
        (ground arith)

  pub run-IsValid :
      (policy : LeakPolicy) (l : Log T) (cs : List (Call T))
      → IsValid l.last
      → IsValid (run policy l cs).last
  unfolding run
  run-IsValid policy l [] v = v
  run-IsValid policy l (c ∷ cs) v =
      run-IsValid policy (step policy l c) cs (step-IsValid policy l c v)

  abbrev pub HasNoClear : List (Call T) → Type ℓ
  HasNoClear [] = Unit
  HasNoClear (c ∷ cs) = (c ≢ clears) × HasNoClear cs

  -- What was in the queue and what was accepted is what was taken and what is in it now.
  abbrev pub Balanced : List T → Log T → Type ℓ
  Balanced items l = items ++ l.accepted ≡ l.taken ++ l.last.queue

  queue-terminate : (q : LockQueue T) → (terminate q).queue ≡ q.queue
  unfolding terminate
  queue-terminate q = ground arith

  queue-pushed :
      (x : T) (q : LockQueue T)
      → is_blocked push_blocking q ≡ false
      → (pushed x q).queue ≡ q.queue ++ x ∷ []
  queue-pushed x q room = let e : length q.queue + 1 - q.max_queue_size ≡ 0 = ground arith in rw e

  step-Balanced :
      (items : List T) (l : Log T) (c : Call T)
      → IsValid l.last
      → c ≢ clears
      → Balanced items l
      → Balanced items (step push_blocking l c)
  step-Balanced items l c v h b =
      step_cases (Balanced items) push_blocking l c v b
        (λ x _ room. rw (queue-pushed x l.last room) (
          sym (append_assoc items l.accepted (x ∷ []))
          ∙ ap (λ t. t ++ x ∷ []) b
          ∙ append_assoc l.taken l.last.queue (x ∷ [])))
        (λ x xs e. b ∙ ap (λ t. l.taken ++ t) e ∙ sym (append_assoc l.taken (x ∷ []) xs))
        (λ e. absurd (h e)) (rw (queue-terminate l.last) b)

  run-Balanced :
      (items : List T) (l : Log T) (cs : List (Call T))
      → IsValid l.last
      → HasNoClear cs
      → Balanced items l
      → Balanced items (run push_blocking l cs)
  unfolding run
  run-Balanced items l [] v h b = b
  run-Balanced items l (c ∷ cs) v h b =
      run-Balanced items (step push_blocking l c) cs (step-IsValid push_blocking l c v) h.1
        (step-Balanced items l c v h.0 b)

  -- A valid queue that blocks when it is full, and is not cleared, loses nothing and keeps the
  -- order through any sequence of calls: what was taken, then what is left, is what was there
  -- first, then what was accepted. It is never above its limit.
  pub run-lossless :
      (q : LockQueue T) (cs : List (Call T))
      → IsValid q
      → HasNoClear cs
      → let l = run push_blocking (start q) cs in
        (q.queue ++ l.accepted ≡ l.taken ++ l.last.queue)
        × (length l.last.queue ≤ l.last.max_queue_size)
  run-lossless q cs v h = (
    run-Balanced q.queue (start q) cs v h (append-nil q.queue),
    (run-IsValid push_blocking (start q) cs v).within,
  )

  -- Leaky: what was taken and what is left is a part of what came in, in the same order.
  abbrev IsOrdered : List T → Log T → Type ℓ
  IsOrdered items l = Sublist (l.taken ++ l.last.queue) (items ++ l.accepted)

  drop-sublist : (n : ℕ) (xs : List T) → Sublist (drop n xs) xs
  drop-sublist zero xs = Sublist.refl xs
  drop-sublist (suc n) [] = Sublist.refl []
  drop-sublist (suc n) (x ∷ xs) = Sublist.cons x (drop-sublist n xs)

  push-IsOrdered :
      (taken queue items accepted : List T) (n : ℕ) (x : T)
      → Sublist (taken ++ queue) (items ++ accepted)
      → Sublist (taken ++ (drop n queue ++ x ∷ [])) (items ++ (accepted ++ x ∷ []))
  push-IsOrdered taken queue items accepted n x b =
      rw (← append_assoc taken (drop n queue) (x ∷ []), ← append_assoc items accepted (x ∷ []))
        (Sublist.append
          (Sublist.trans (Sublist.append (Sublist.refl taken) (drop-sublist n queue)) b)
          (Sublist.refl (x ∷ [])))

  step-IsOrdered :
      (policy : LeakPolicy) (items : List T) (l : Log T) (c : Call T)
      → IsValid l.last
      → IsOrdered items l
      → IsOrdered items (step policy l c)
  unfolding clear_queue
  step-IsOrdered policy items l c v b =
      step_cases (IsOrdered items) policy l c v b
        (λ x _ _. push-IsOrdered l.taken l.last.queue items l.accepted _ x b)
        (λ x xs e. rw (append_assoc l.taken (x ∷ []) xs) (rw e at b))
        (λ e. Sublist.trans (Sublist.append (Sublist.refl l.taken) (nil-sublist l.last.queue)) b)
        (rw (queue-terminate l.last) b)

  run-IsOrdered :
      (policy : LeakPolicy) (items : List T) (l : Log T) (cs : List (Call T))
      → IsValid l.last
      → IsOrdered items l
      → IsOrdered items (run policy l cs)
  unfolding run
  run-IsOrdered policy items l [] v b = b
  run-IsOrdered policy items l (c ∷ cs) v b =
      run-IsOrdered policy items (step policy l c) cs (step-IsValid policy l c v)
        (step-IsOrdered policy items l c v b)

  -- In a valid queue, under either policy and with clears, nothing is duplicated, made up or
  -- reordered: what was taken, then what is left, is a sublist of what was there first and what
  -- was accepted. The queue is never above its limit.
  pub run-ordered :
      (policy : LeakPolicy) (q : LockQueue T) (cs : List (Call T))
      → IsValid q
      → let l = run policy (start q) cs in
        Sublist (l.taken ++ l.last.queue) (q.queue ++ l.accepted)
        × (length l.last.queue ≤ l.last.max_queue_size)
  run-ordered policy q cs v = (
    run-IsOrdered policy q.queue (start q) cs v (rw append-nil (Sublist.refl q.queue)),
    (run-IsValid policy (start q) cs v).within,
  )
