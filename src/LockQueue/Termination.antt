-- ===== src/LockQueue/Termination.antt =====
-- When the calls of a LockQueue wait, and what `terminate` does to them.
use superflow.Base.{
  ◌≤◌, ◌≡◌, refl, ◌∙◌, ◌↔◌, true, false, List, [], ◌∷◌, arith, length, throws, waits, terminated,
}
use superflow.Policy.{LeakPolicy, leaky, push_blocking}
use superflow.LockQueue.{LockQueue, push, pop, front, clear_queue, terminate}
use superflow.LockQueue.Bounds.{IsValid, push_lem, pop_lem}
use superflow.LockQueue.History.{Log, Call, pushes, pops, clears, terminates, step, run}
use superflow.LockQueue.Fifo.{step-IsValid, run-IsValid}

module _ {ℓ} {T : Type ℓ} where
  pop_waits_fields :
      (xs : List T) (q : LockQueue T)
      → q.queue ≡ xs
      → (pop q ≡ waits) ↔ ((q.queue ≡ []) × (q.is_terminated ≡ false))
  pop_waits_fields [] q e = (λ h. ground (arith, pop_lem q), λ h. ground (arith, pop_lem q))
  pop_waits_fields (x ∷ xs) q e = (λ h. ground (arith, pop_lem q), λ h. ground (arith, pop_lem q))

  -- In a valid queue a pop waits exactly if the queue is empty and not terminated, and a
  -- push waits exactly if it may not drop items and the queue is full and not terminated.
  pub waits_iff :
      (policy : LeakPolicy) (x : T) (q : LockQueue T)
      → IsValid q
      → ((pop q ≡ waits) ↔ ((q.queue ≡ []) × (q.is_terminated ≡ false)))
        × ((push policy x q ≡ waits) ↔ (
            (policy ≡ push_blocking)
            × (q.max_queue_size ≤ length q.queue)
            × (q.is_terminated ≡ false)))
  waits_iff leaky x q v = (
    pop_waits_fields q.queue q refl,
    (λ h. ground (arith, push_lem leaky x q v), λ h. ground (arith, push_lem leaky x q v)),
  )
  waits_iff push_blocking x q v = (
    pop_waits_fields q.queue q refl,
    (
      λ h. ground (arith, push_lem push_blocking x q v),
      λ h. ground (arith, push_lem push_blocking x q v),
    ),
  )

  -- A terminated queue stays terminated, and its log stays as it is.
  step_dead :
      (policy : LeakPolicy) (l : Log T) (c : Call T)
      → IsValid l.last
      → l.last.is_terminated ≡ true
      → ((step policy l c).last.is_terminated ≡ true)
        × ((step policy l c).accepted ≡ l.accepted)
        × ((step policy l c).taken ≡ l.taken)
  unfolding step terminate clear_queue
  step_dead policy l (pushes x) v e = ground (arith, push_lem policy x l.last v)
  step_dead policy l pops v e = ground (arith, pop_lem l.last)
  step_dead policy l clears v e = (e, refl, refl)
  step_dead policy l terminates v e = ground arith

  run_dead :
      (policy : LeakPolicy) (l : Log T) (cs : List (Call T))
      → IsValid l.last
      → l.last.is_terminated ≡ true
      → ((run policy l cs).last.is_terminated ≡ true)
        × ((run policy l cs).accepted ≡ l.accepted)
        × ((run policy l cs).taken ≡ l.taken)
  unfolding run
  run_dead policy l [] v e = (e, refl, refl)
  run_dead policy l (c ∷ cs) v e =
      let s = step_dead policy l c v e in
      let r = run_dead policy (step policy l c) cs (step-IsValid policy l c v) s.0 in
      (r.0, r.1 ∙ s.1, r.2 ∙ s.2)

  front_dead : (q : LockQueue T) → q.is_terminated ≡ true → front q ≡ throws terminated
  unfolding front
  front_dead q e = ground arith

  pub terminate-IsValid : (q : LockQueue T) → IsValid q → IsValid (terminate q)
  unfolding terminate
  terminate-IsValid q v = ground arith

  pub terminate-is_terminated : (q : LockQueue T) → (terminate q).is_terminated ≡ true
  unfolding terminate
  terminate-is_terminated q = ground arith

  -- Once `terminate` was called on a valid queue, whatever is called, nothing is accepted or
  -- taken any more, and every push, pop and front throws at once.
  pub terminate_final :
      (policy : LeakPolicy) (x : T) (l : Log T) (cs : List (Call T))
      → IsValid l.last
      → let m = run policy (step policy l terminates) cs in
        (push policy x m.last ≡ throws terminated)
        × (pop m.last ≡ throws terminated)
        × (front m.last ≡ throws terminated)
        × (m.accepted ≡ l.accepted)
        × (m.taken ≡ l.taken)
  unfolding step
  terminate_final policy x l cs v =
      let l' : Log T = record l { last = terminate l.last } in
      let w = terminate-IsValid l.last v in
      let d = run_dead policy l' cs w (terminate-is_terminated l.last) in
      let u = run-IsValid policy l' cs w in
      let q = (run policy l' cs).last in
      (
        ground (arith, push_lem policy x q u, d.0),
        ground (arith, pop_lem q, d.0),
        front_dead q d.0,
        d.1,
        d.2,
      )
