-- ===== src/LockQueue/Threads/Refines.antt =====
-- The threads of a LockQueue do what a history of critical sections does.
use superflow.Base.{◌≡◌, refl, sym, ap, ◌∙◌, List, [], ◌∷◌, ◌++◌, arith, returns, append-nil}
use superflow.Policy.{LeakPolicy, leaky, push_blocking}
use superflow.LockQueue.{LockQueue, push, pop, clear_queue, terminate}
use superflow.LockQueue.History.{
  Call, pushes, pops, clears as clears_queue, terminates, Log, start, step, run, log_push, log_pop,
}
use superflow.LockQueue.Threads.{
  Threads, front_returns, front_throws, front_waits, signals_reader, Move, pop_returns, pop_throws,
  pop_waits, push_returns, push_throws, push_waits, sleeps, signals_consumer, signals_producer,
  sets_flag, notifies_all, wakes_spuriously, Step, moves, clears, Reach, here, next,
}

module _ {ℓ} {T : Type ℓ} where
  run-append :
      (policy : LeakPolicy) (l : Log T) (cs ds : List (Call T))
      → run policy l (cs ++ ds) ≡ run policy (run policy l cs) ds
  unfolding run
  run-append policy l [] ds = refl
  run-append policy l (c ∷ cs) ds = run-append policy (step policy l c) cs ds

  -- The critical sections of a step that change the queue: one, or none
  abbrev calls_of_move : {policy : LeakPolicy} {s t : Threads T} → Move policy s t → List (Call T)
  calls_of_move (pop_returns woken x q b w p e) = pops ∷ []
  calls_of_move (push_returns woken x q b w p e) = pushes x ∷ []
  calls_of_move (sets_flag n e) = terminates ∷ []
  calls_of_move _ = []

  abbrev calls_of_step : {policy : LeakPolicy} {s t : Threads T} → Step policy s t → List (Call T)
  calls_of_step (moves m) = calls_of_move m
  calls_of_step (clears b e) = clears_queue ∷ []

  -- The item with which a call of push() returns, and that which a call of pop() returns
  abbrev accepted_in : {policy : LeakPolicy} {s t : Threads T} → Step policy s t → List T
  accepted_in (moves (push_returns woken x q b w p e)) = x ∷ []
  accepted_in _ = []

  abbrev taken_in : {policy : LeakPolicy} {s t : Threads T} → Step policy s t → List T
  taken_in (moves (pop_returns woken x q b w p e)) = x ∷ []
  taken_in _ = []

  -- The same for all steps, in their order
  abbrev pub calls_of :
      {policy : LeakPolicy} {s t : Threads T} → Reach (Step policy) s t → List (Call T)
  calls_of here = []
  calls_of (next r m) = calls_of r ++ calls_of_step m

  abbrev pub accepted_by :
      {policy : LeakPolicy} {s t : Threads T} → Reach (Step policy) s t → List T
  accepted_by here = []
  accepted_by (next r m) = accepted_by r ++ accepted_in m

  abbrev pub taken_by : {policy : LeakPolicy} {s t : Threads T} → Reach (Step policy) s t → List T
  taken_by here = []
  taken_by (next r m) = taken_by r ++ taken_in m

  -- The log after a step
  abbrev logged : LockQueue T → List T → List T → Log T
  logged q accepted taken = record { last = q; accepted = accepted; taken = taken }

  nothing :
      (q r : LockQueue T) (xs ys : List T) → r ≡ q → logged q xs ys ≡ logged r (xs ++ []) (ys ++ [])
  nothing q r xs ys e = rw (append-nil xs, append-nil ys, e) refl

  pops_once :
      (policy : LeakPolicy) (x : T) (q r : LockQueue T) (xs ys : List T)
      → pop q ≡ returns (x, r)
      → run policy (logged q xs ys) (pops ∷ []) ≡ logged r (xs ++ []) (ys ++ x ∷ [])
  unfolding run step log_pop
  pops_once policy x q r xs ys p = rw (p, append-nil xs) refl

  pushes_once :
      (policy : LeakPolicy) (x : T) (q r : LockQueue T) (xs ys : List T)
      → push policy x q ≡ returns r
      → run policy (logged q xs ys) (pushes x ∷ []) ≡ logged r (xs ++ x ∷ []) (ys ++ [])
  unfolding run step log_push
  pushes_once policy x q r xs ys p = rw (p, append-nil ys) refl

  -- What a step does to the log
  abbrev Logs : (policy : LeakPolicy) (s t : Threads T) → Step policy s t → Type ℓ
  Logs policy s t m =
      (xs ys : List T)
      → run policy (logged s.queue xs ys) (calls_of_step m)
        ≡ logged t.queue (xs ++ accepted_in m) (ys ++ taken_in m)

  Move-Logs :
      (policy : LeakPolicy) (s t : Threads T) (m : Move policy s t) → Logs policy s t (moves m)
  unfolding run step
  Move-Logs leaky s t (pop_returns woken x q b w p e) xs ys =
      pops_once leaky x s.queue t.queue xs ys (p ∙ ap (λ u. returns (x, u.queue)) (sym e))
  Move-Logs push_blocking s t (pop_returns woken x q b w p e) xs ys =
      pops_once push_blocking x s.queue t.queue xs ys (p ∙ ap (λ u. returns (x, u.queue)) (sym e))
  Move-Logs policy s t (push_returns woken x q b w p e) xs ys =
      pushes_once policy x s.queue t.queue xs ys (p ∙ ap (λ u. returns u.queue) (sym e))
  Move-Logs policy s t (sets_flag n e) xs ys =
      nothing (terminate s.queue) t.queue xs ys (ap (λ u. u.queue) e)
  Move-Logs policy s t (pop_throws woken b w p e) xs ys =
      nothing s.queue t.queue xs ys (ap (λ u. u.queue) e)
  Move-Logs policy s t (pop_waits woken b w p e) xs ys =
      nothing s.queue t.queue xs ys (ap (λ u. u.queue) e)
  Move-Logs policy s t (push_throws woken x b w p e) xs ys =
      nothing s.queue t.queue xs ys (ap (λ u. u.queue) e)
  Move-Logs policy s t (push_waits woken x b w p e) xs ys =
      nothing s.queue t.queue xs ys (ap (λ u. u.queue) e)
  Move-Logs policy s t (front_returns woken x b w p e) xs ys =
      nothing s.queue t.queue xs ys (ap (λ u. u.queue) e)
  Move-Logs policy s t (front_throws woken b w p e) xs ys =
      nothing s.queue t.queue xs ys (ap (λ u. u.queue) e)
  Move-Logs policy s t (front_waits woken b w p e) xs ys =
      nothing s.queue t.queue xs ys (ap (λ u. u.queue) e)
  Move-Logs policy s t (notifies_all n e) xs ys =
      nothing s.queue t.queue xs ys (ap (λ u. u.queue) e)
  Move-Logs policy s t (sleeps role b e) xs ys = nothing s.queue t.queue xs ys (ground arith)
  Move-Logs policy s t (signals_consumer n h e) xs ys = nothing s.queue t.queue xs ys (ground arith)
  Move-Logs policy s t (signals_reader n h e) xs ys = nothing s.queue t.queue xs ys (ground arith)
  Move-Logs policy s t (signals_producer n e) xs ys = nothing s.queue t.queue xs ys (ground arith)
  Move-Logs policy s t (wakes_spuriously role e) xs ys =
      nothing s.queue t.queue xs ys (ground arith)

  Step-Logs : (policy : LeakPolicy) (s t : Threads T) (m : Step policy s t) → Logs policy s t m
  unfolding run step
  Step-Logs policy s t (moves m) xs ys = Move-Logs policy s t m xs ys
  Step-Logs policy s t (clears b e) xs ys =
      nothing (clear_queue s.queue) t.queue xs ys (ap (λ u. u.queue) e)

  -- Whatever any number of threads do, with all their tests, waits and wake-ups: the history of the
  -- calls that come to a return, in the order of their critical sections, with each clearQueue() and
  -- each terminate() that sets the flag, leads to the same queue; and its log has the items that the
  -- calls of push() were given and those that the calls of pop() returned, in the same order.
  pub threads-run :
      (policy : LeakPolicy) (s t : Threads T) (r : Reach (Step policy) s t)
      → run policy (start s.queue) (calls_of r)
        ≡ record { last = t.queue; accepted = accepted_by r; taken = taken_by r }
  unfolding run
  threads-run policy s t here = refl
  threads-run policy s t (next {t = u} r m) =
      run-append policy (start s.queue) (calls_of r) (calls_of_step m)
      ∙ ap (λ l. run policy l (calls_of_step m)) (threads-run policy s u r)
      ∙ Step-Logs policy u t m (accepted_by r) (taken_by r)
