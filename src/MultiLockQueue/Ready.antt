-- ===== src/MultiLockQueue/Ready.antt =====
-- The loops of `peekReady` and `popReady` against a plain description.
use superflow.Base.{◌≡◌, ap, ◌∙◌, sym, List, [], ◌∷◌, ◌++◌, append-nil, append_assoc}
use superflow.Map.{Key, Map, IsAbove, IsMap}
use superflow.Map.Laws.{IsBelow, IsBelow-append, insert_last}
use superflow.MultiLockQueue.{MultiLockQueue, peek_loop, pop_loop, peek_locked, pop_locked}

-- The fronts of the queues that have one, and the queues without them.
abbrev pub heads {ℓ κ} : {K : Type ℓ} {T : Type κ} → Map K (List T) → Map K T
heads [] = []
heads ((k, []) ∷ m) = heads m
heads ((k, x ∷ xs) ∷ m) = (k, x) ∷ heads m

abbrev pub tails {ℓ κ} : {K : Type ℓ} {T : Type κ} → Map K (List T) → Map K (List T)
tails [] = []
tails ((k, []) ∷ m) = (k, []) ∷ tails m
tails ((k, x ∷ xs) ∷ m) = (k, xs) ∷ tails m

module _ {ℓ κ} {K : Type ℓ} {T : Type κ} ⦃key : Key K⦄ where
  -- Every item found so far has its key before those that are still to come.
  abbrev IsPast : Map K T → Map K (List T) → Type ℓ
  IsPast items [] = Unit
  IsPast items ((k, queue) ∷ m) = IsBelow k items × IsPast items m

  IsPast-nil : (m : Map K (List T)) → IsPast [] m
  IsPast-nil [] = tt
  IsPast-nil ((k, queue) ∷ m) = (tt, IsPast-nil m)

  IsPast-append :
      (items : Map K T) (k : K) (x : T) (m : Map K (List T))
      → IsPast items m
      → IsAbove k m
      → IsPast (items ++ (k, x) ∷ []) m
  IsPast-append items k x [] p a = tt
  IsPast-append items k x ((j, queue) ∷ m) p a =
      (IsBelow-append j items ((k, x) ∷ []) p.0 (a.0, tt), IsPast-append items k x m p.1 a.1)

  peek_loop_lem :
      (m : Map K (List T)) (items : Map K T)
      → IsMap m
      → IsPast items m
      → peek_loop m items ≡ items ++ heads m
  unfolding peek_loop
  peek_loop_lem [] items v p = sym (append-nil items)
  peek_loop_lem ((k, []) ∷ m) items v p = peek_loop_lem m items v.1 p.1
  peek_loop_lem ((k, x ∷ xs) ∷ m) items v p = rw (insert_last k x items p.0) (
      peek_loop_lem m (items ++ (k, x) ∷ []) v.1 (IsPast-append items k x m p.1 v.0)
      ∙ append_assoc items ((k, x) ∷ []) (heads m))

  pop_loop_lem :
      (m : Map K (List T)) (items : Map K T)
      → IsMap m
      → IsPast items m
      → pop_loop m items ≡ (items ++ heads m, tails m)
  unfolding pop_loop
  pop_loop_lem [] items v p = ap (λ (t : Map K T). (t, [])) (sym (append-nil items))
  pop_loop_lem ((k, []) ∷ m) items v p = rw (pop_loop_lem m items v.1 p.1)
  pop_loop_lem ((k, x ∷ xs) ∷ m) items v p = rw (
    insert_last k x items p.0,
    pop_loop_lem m (items ++ (k, x) ∷ []) v.1 (IsPast-append items k x m p.1 v.0),
    append_assoc items ((k, x) ∷ []) (heads m),
  )

  pub peek_locked_lem : (q : MultiLockQueue K T) → IsMap q.queues → peek_locked q ≡ heads q.queues
  unfolding peek_locked
  peek_locked_lem q v = peek_loop_lem q.queues [] v (IsPast-nil q.queues)

  pub pop_locked_lem :
      (q : MultiLockQueue K T)
      → IsMap q.queues
      → pop_locked q ≡ (heads q.queues, record q { queues = tails q.queues })
  unfolding pop_locked
  pop_locked_lem q v = rw (pop_loop_lem q.queues [] v (IsPast-nil q.queues))
