-- ===== src/LockQueue/Latest.antt =====
-- A leaky LockQueue with no reader keeps the newest items.
use superflow.Base.{
  ℕ, ◌+◌, ◌-◌, ◌≤◌, ◌≡◌, ap, sym, ◌∙◌, false, List, [], ◌∷◌, ◌++◌, arith, append_assoc, append-nil,
  length, length-append, drop, drop-append_of_le, keep_last, keep_last-drop, ◌>>=◌, Outcome,
  returns,
}
use superflow.Policy.{leaky}
use superflow.LockQueue.{LockQueue, push}
use superflow.LockQueue.Bounds.{IsValid, pushed, push_lem, pushed-IsValid}

module _ {ℓ} {T : Type ℓ} where
  -- One push after the other, with no pop in between.
  unfoldable pub push_all : List T → LockQueue T → Outcome (LockQueue T)
  push_all [] q = returns q
  push_all (x ∷ xs) q = push leaky x q >>= push_all xs

  push_live :
      (x : T) (q : LockQueue T)
      → IsValid q
      → q.is_terminated ≡ false
      → push leaky x q ≡ returns (pushed x q)
  push_live x q v e = ground (arith, push_lem leaky x q v)

  keep_pushed :
      (max : ℕ) (queue : List T) (x : T) (xs : List T)
      → 1 ≤ max
      → length queue ≤ max
      → keep_last max ((drop (length queue + 1 - max) queue ++ x ∷ []) ++ xs)
        ≡ keep_last max (queue ++ x ∷ xs)
  keep_pushed max queue x xs h k =
      ap (keep_last max) (
        append_assoc (drop n queue) (x ∷ []) xs
        ∙ sym (drop-append_of_le n queue (x ∷ xs) (omega arith)))
      ∙ keep_last-drop max n (queue ++ x ∷ xs) (omega (arith, length-append queue (x ∷ xs)))
    where
      n : ℕ
      n = length queue + 1 - max

  -- Pushes to a valid leaky queue that is not terminated all return, and the queue ends up with
  -- the newest `max_queue_size` of the items it had and those that came.
  pub push_all-keep_last :
      (xs : List T) (q : LockQueue T)
      → IsValid q
      → q.is_terminated ≡ false
      → push_all xs q ≡ returns (record q { queue = keep_last q.max_queue_size (q.queue ++ xs) })
  unfolding push_all
  push_all-keep_last [] q v e = ap (λ (t : List T). returns (record q { queue = t })) (sym whole)
    where
      whole : keep_last q.max_queue_size (q.queue ++ []) ≡ q.queue
      whole =
          let none_dropped : length q.queue - q.max_queue_size ≡ 0 = omega (arith, v.within) in
          ap (keep_last q.max_queue_size) (append-nil q.queue)
          ∙ ap (λ t. drop t q.queue) none_dropped
  push_all-keep_last (x ∷ xs) q v e = rw (push_live x q v e) (
      push_all-keep_last xs (pushed x q) (pushed-IsValid x q v) e
      ∙ ap (λ (t : List T). returns (record q { queue = t }))
          (keep_pushed q.max_queue_size q.queue x xs v.has_room v.within))
