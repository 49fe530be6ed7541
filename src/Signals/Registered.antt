-- ===== src/Signals/Registered.antt =====
-- Which handlers are registered, and when the process's handler is installed
-- (core/src/signal_waiter.cpp).
use superflow.Base.{
  ℕ, ◌≡◌, sym, ap, subst, ◌∙◌, Bool, true, false, not, ◌&&◌, ◌||◌, [], ◌∷◌, ◌==◌, ==_iff,
  if◌then◌else◌, Option, none, some, is_empty, arith, inl, inr, Bool-cases, Option-cases,
  List-cases,
}
use superflow.Map.{IsMap, lookup, insert, erase, nat_key}
use superflow.Map.Laws.{insert-IsMap, erase-IsMap}
use superflow.Map.Numbers.{lookup-insert, lookup-erase, insert-nonempty}
use superflow.Registry.{has}
use superflow.Signals.{HandlerSet, Handlers, install, register_handler, unregister_handler}

abbrev or_none : Option HandlerSet → HandlerSet
or_none none = []
or_none (some set) = set

-- The handlers of a signal
unfoldable pub set_of : ℕ → Handlers → HandlerSet
set_of signal h = or_none (lookup signal h.handlers)

-- `handler` is registered for `signal`.
unfoldable pub registered : ℕ → ℕ → Handlers → Bool
unfolding set_of has
registered handler signal h = has handler (set_of signal h)

-- What holds of the handlers between any two calls
pub record IsValid (h : Handlers) : Type 0 where
  pub sorted : IsMap h.handlers
  pub sets :
      (s : ℕ) (set : HandlerSet)
      → lookup s h.handlers ≡ some set
      → IsMap set × (is_empty set ≡ false)
  pub in_step : (s : ℕ) → h.installed s ≡ has s h.handlers

abbrev unless_empty : HandlerSet → Option HandlerSet
unless_empty [] = none
unless_empty (x ∷ set) = some (x ∷ set)

module _ (signal handler : ℕ) (h : Handlers) where
  register-handlers :
      (register_handler signal handler h).handlers
      ≡ insert signal (insert handler tt (set_of signal h)) h.handlers
  unfolding register_handler set_of
  register-handlers = ground arith

  register-installed :
      (s : ℕ)
      → ((t : ℕ) → h.installed t ≡ has t h.handlers)
      → (register_handler signal handler h).installed s
        ≡ (if s == signal then true else h.installed s)
  unfolding register_handler install has
  register-installed s v = elim (Bool-cases (s == signal)) [
    | inl e ↦ rw ((==_iff s signal).0 e) (ground (arith, v signal))
    | inr n ↦ ground arith
  ]

  lookup-unregister :
      (s : ℕ)
      → IsMap h.handlers
      → lookup s (unregister_handler signal handler h).handlers ≡ (
          if s == signal
          then unless_empty (erase handler (set_of signal h))
          else lookup s h.handlers)
  unfolding unregister_handler set_of erase
  lookup-unregister s m = elim (Option-cases (lookup signal h.handlers)) [
    | inl e ↦ elim (Bool-cases (s == signal)) [
      | inl same ↦ rw ((==_iff s signal).0 same) (ground (arith, e))
      | inr n ↦ ground arith
    ]
    | inr (set, e) ↦ elim (List-cases (erase handler set)) [
      | inl gone ↦ ground (arith, lookup-erase s signal h.handlers m)
      | inr (x, rest, left) ↦ ground (arith, lookup-insert s signal (erase handler set) h.handlers)
    ]
  ]

  unregister-installed :
      (s : ℕ)
      → ((t : ℕ) → h.installed t ≡ has t h.handlers)
      → (unregister_handler signal handler h).installed s
        ≡ (if s == signal then not (is_empty (erase handler (set_of signal h))) else h.installed s)
  unfolding unregister_handler install has set_of erase
  unregister-installed s v = elim (Option-cases (lookup signal h.handlers)) [
    | inl e ↦ elim (Bool-cases (s == signal)) [
      | inl same ↦ rw ((==_iff s signal).0 same) (ground (arith, e, v signal))
      | inr n ↦ ground arith
    ]
    | inr (set, e) ↦ elim (Bool-cases (s == signal)) [
      | inl same ↦ rw ((==_iff s signal).0 same) (ground (arith, e, v signal))
      | inr n ↦ ground arith
    ]
  ]

pub set_of-IsMap : (signal : ℕ) (h : Handlers) → IsValid h → IsMap (set_of signal h)
unfolding set_of
set_of-IsMap signal h v = elim (Option-cases (lookup signal h.handlers)) [
  | inl e ↦ rw e tt
  | inr (set, e) ↦ rw e ((v.sets signal set e).0)
]

some-unless_empty :
    (set other : HandlerSet)
    → unless_empty set ≡ some other
    → (set ≡ other) × (is_empty other ≡ false)
some-unless_empty [] other e = cc
some-unless_empty (x ∷ set) other e = ground arith

module _ (signal handler : ℕ) (h : Handlers) (v : IsValid h) where
  lookup-register :
      (s : ℕ)
      → lookup s (register_handler signal handler h).handlers
        ≡ (if s == signal then some (insert handler tt (set_of signal h)) else lookup s h.handlers)
  lookup-register s =
      ap (lookup s) (register-handlers signal handler h)
      ∙ lookup-insert s signal (insert handler tt (set_of signal h)) h.handlers

  register-sets :
      (s : ℕ) (set : HandlerSet)
      → lookup s (register_handler signal handler h).handlers ≡ some set
      → IsMap set × (is_empty set ≡ false)
  register-sets s set l = elim (Bool-cases (s == signal)) [
    | inl e ↦
        let same : insert handler tt (set_of signal h) ≡ set = ground (arith, lookup-register s) in
        subst (λ t. IsMap t × (is_empty t ≡ false)) same
          (
            insert-IsMap handler tt (set_of signal h) (set_of-IsMap signal h v),
            insert-nonempty handler tt (set_of signal h),
          )
    | inr n ↦ v.sets s set (ground (arith, lookup-register s))
  ]

  register-in_step :
      (s : ℕ)
      → (register_handler signal handler h).installed s
        ≡ has s (register_handler signal handler h).handlers
  unfolding has
  register-in_step s =
      ground
        (arith, register-installed signal handler h s v.in_step, lookup-register s, v.in_step s)

  pub register-IsValid : IsValid (register_handler signal handler h)
  register-IsValid = record {
    sorted =
        subst IsMap (sym (register-handlers signal handler h))
          (insert-IsMap signal (insert handler tt (set_of signal h)) h.handlers v.sorted);
    sets = register-sets;
    in_step = register-in_step;
  }

  unregister-sets :
      (s : ℕ) (set : HandlerSet)
      → lookup s (unregister_handler signal handler h).handlers ≡ some set
      → IsMap set × (is_empty set ≡ false)
  unregister-sets s set l = elim (Bool-cases (s == signal)) [
    | inl e ↦
        let (same, left) =
          some-unless_empty (erase handler (set_of signal h)) set
            (ground (arith, lookup-unregister signal handler h s v.sorted)) in
        (subst IsMap same (erase-IsMap handler (set_of signal h) (set_of-IsMap signal h v)), left)
    | inr n ↦ v.sets s set (ground (arith, lookup-unregister signal handler h s v.sorted))
  ]

  unregister-sorted : IsMap (unregister_handler signal handler h).handlers
  unfolding unregister_handler
  unregister-sorted = elim (Option-cases (lookup signal h.handlers)) [
    | inl e ↦
        let same : h.handlers ≡ (unregister_handler signal handler h).handlers = ground arith in
        subst IsMap same v.sorted
    | inr (set, e) ↦ elim (Bool-cases (is_empty (erase handler set))) [
      | inl gone ↦
          let same : erase signal h.handlers ≡ (unregister_handler signal handler h).handlers =
            ground arith in
          subst IsMap same (erase-IsMap signal h.handlers v.sorted)
      | inr left ↦
          let same : insert signal (erase handler set) h.handlers
              ≡ (unregister_handler signal handler h).handlers =
            ground arith in
          subst IsMap same (insert-IsMap signal (erase handler set) h.handlers v.sorted)
    ]
  ]

  unregister-in_step :
      (s : ℕ)
      → (unregister_handler signal handler h).installed s
        ≡ has s (unregister_handler signal handler h).handlers
  unfolding has
  unregister-in_step s = elim (List-cases (erase handler (set_of signal h))) [
    | inl gone ↦ ground (
      arith,
      unregister-installed signal handler h s v.in_step,
      lookup-unregister signal handler h s v.sorted,
      v.in_step s,
    )
    | inr (x, rest, left) ↦ ground (
      arith,
      unregister-installed signal handler h s v.in_step,
      lookup-unregister signal handler h s v.sorted,
      v.in_step s,
    )
  ]

  pub unregister-IsValid : IsValid (unregister_handler signal handler h)
  unregister-IsValid = record {
    sorted = unregister-sorted;
    sets = unregister-sets;
    in_step = unregister-in_step;
  }

  set_of-register :
      (s : ℕ)
      → set_of s (register_handler signal handler h)
        ≡ (if s == signal then insert handler tt (set_of signal h) else set_of s h)
  unfolding set_of
  set_of-register s = ground (arith, lookup-register s)

  set_of-unregister :
      (s : ℕ)
      → set_of s (unregister_handler signal handler h)
        ≡ (if s == signal then erase handler (set_of signal h) else set_of s h)
  unfolding set_of
  set_of-unregister s = elim (List-cases (erase handler (set_of signal h))) [
    | inl gone ↦ ground (arith, lookup-unregister signal handler h s v.sorted)
    | inr (x, rest, left) ↦ ground (arith, lookup-unregister signal handler h s v.sorted)
  ]

  -- `registered` after a registration, and after its end
  pub registered-register :
      (x s : ℕ)
      → registered x s (register_handler signal handler h)
        ≡ ((s == signal && x == handler) || registered x s h)
  unfolding registered has
  registered-register x s = elim (Bool-cases (s == signal)) [
    | inl e ↦
        rw ((==_iff s signal).0 e)
          (ground (arith, set_of-register signal, lookup-insert x handler tt (set_of signal h)))
    | inr n ↦ ground (arith, set_of-register s)
  ]

  pub registered-unregister :
      (x s : ℕ)
      → registered x s (unregister_handler signal handler h)
        ≡ (not (s == signal && x == handler) && registered x s h)
  unfolding registered has
  registered-unregister x s = elim (Bool-cases (s == signal)) [
    | inl e ↦ rw ((==_iff s signal).0 e) (
        ground (
          arith,
          set_of-unregister signal,
          lookup-erase x handler (set_of signal h) (set_of-IsMap signal h v),
        ))
    | inr n ↦ ground (arith, set_of-unregister s)
  ]
