-- ===== src/Signals/Lifetime.antt =====
-- The life of a SignalWaiter among the handlers of the process (core/src/signal_waiter.cpp).
use superflow.Base.{
  ℕ, ◌≡◌, refl, sym, ap, ◌∙◌, true, false, not, ◌&&◌, ◌||◌, List, [], ◌∷◌, ◌==◌, ==_iff, is_empty,
  arith, inl, inr, Bool-cases, Option-cases,
}
use superflow.Map.{lookup, nat_key}
use superflow.Port.{contains}
use superflow.Registry.{has}
use superflow.Signals.{
  HandlerSet, Handlers, Waiters, register_handler, unregister_handler, register_all, unregister_all,
  handle, handle_each, handle_signal,
}
use superflow.Signals.Registered.{
  set_of, registered, IsValid, register-IsValid, unregister-IsValid, registered-register,
  registered-unregister,
}

-- Registrations, and their ends, keep the handlers valid: the sets of handlers are sorted and none of
-- them is empty, and handle_signal is installed for exactly the signals that have one.
pub handlers-IsValid :
    (signal handler : ℕ) (h : Handlers)
    → IsValid h
    → IsValid (register_handler signal handler h) × IsValid (unregister_handler signal handler h)
handlers-IsValid signal handler h v =
    (register-IsValid signal handler h v, unregister-IsValid signal handler h v)

module _ (handler : ℕ) where
  register_all_lem :
      (signals : List ℕ) (h : Handlers)
      → IsValid h
      → IsValid (register_all signals handler h)
        × ((x s : ℕ)
            → registered x s (register_all signals handler h)
              ≡ ((contains s signals && x == handler) || registered x s h))
  unfolding register_all contains
  register_all_lem [] h v = (v, λ x s. refl)
  register_all_lem (signal ∷ signals) h v =
      let (w, rest) =
        register_all_lem signals (register_handler signal handler h)
          (register-IsValid signal handler h v) in
      (w, λ x s. ground (arith, rest x s, registered-register signal handler h v x s))

  unregister_all_lem :
      (signals : List ℕ) (h : Handlers)
      → IsValid h
      → IsValid (unregister_all signals handler h)
        × ((x s : ℕ)
            → registered x s (unregister_all signals handler h)
              ≡ (not (contains s signals && x == handler) && registered x s h))
  unfolding unregister_all contains
  unregister_all_lem [] h v = (v, λ x s. refl)
  unregister_all_lem (signal ∷ signals) h v =
      let (w, rest) =
        unregister_all_lem signals (unregister_handler signal handler h)
          (unregister-IsValid signal handler h v) in
      (w, λ x s. ground (arith, rest x s, registered-unregister signal handler h v x s))

-- Two sets with the same handlers
empty-same :
    (a b : HandlerSet) → ((x : ℕ) → has x a ≡ has x b) → is_empty b ≡ true → is_empty a ≡ true
unfolding has lookup
empty-same [] b same e = refl
empty-same ((x, t) ∷ a) [] same e = ground (arith, same x)
empty-same ((x, t) ∷ a) (y ∷ b) same e = cc

installed_by_sets : (s : ℕ) (h : Handlers) → IsValid h → h.installed s ≡ not (is_empty (set_of s h))
unfolding set_of has
installed_by_sets s h v = elim (Option-cases (lookup s h.handlers)) [
  | inl e ↦ ground (arith, v.in_step s)
  | inr (set, e) ↦ ground (arith, v.in_step s, (v.sets s set e).1)
]

installed-same :
    (s : ℕ) (g h : Handlers)
    → IsValid g
    → IsValid h
    → ((x : ℕ) → registered x s g ≡ registered x s h)
    → g.installed s ≡ h.installed s
unfolding registered
installed-same s g h v w same =
    installed_by_sets s g v
    ∙ ground (
      arith,
      empty-same (set_of s g) (set_of s h) same,
      empty-same (set_of s h) (set_of s g) (λ x. sym (same x)),
    )
    ∙ sym (installed_by_sets s h w)

-- A SignalWaiter that registers for its signals, whichever they are and however often one is listed,
-- and has done waiting leaves the handlers as they were: the same handlers for each signal, and
-- handle_signal installed for the same signals.
pub unregister_all-register_all :
    (signals : List ℕ) (handler : ℕ) (h : Handlers)
    → IsValid h
    → ((s : ℕ) → registered handler s h ≡ false)
    → ((x s : ℕ)
        → registered x s (unregister_all signals handler (register_all signals handler h))
          ≡ registered x s h)
      × ((s : ℕ)
          → (unregister_all signals handler (register_all signals handler h)).installed s
            ≡ h.installed s)
unregister_all-register_all signals handler h v fresh =
    let (w, on) = register_all_lem handler signals h v in
    let (z, off) = unregister_all_lem handler signals (register_all signals handler h) w in
    let same = λ (x s : ℕ). after x s (on x s) (off x s) in
    (same, λ s. installed-same s _ h z v (λ x. same x s))
  where
    after :
        (x s : ℕ)
        → registered x s (register_all signals handler h)
          ≡ ((contains s signals && x == handler) || registered x s h)
        → registered x s (unregister_all signals handler (register_all signals handler h)) ≡ (
            not (contains s signals && x == handler)
            && registered x s (register_all signals handler h))
        → registered x s (unregister_all signals handler (register_all signals handler h))
          ≡ registered x s h
    after x s on off = elim (Bool-cases (x == handler)) [
      | inl e ↦ ground (arith, fresh s, ap (λ y. registered y s h) ((==_iff x handler).0 e))
      | inr n ↦ ground arith
    ]

handle_each_lem :
    (set : HandlerSet) (w : Waiters) (x : ℕ)
    → ((handle_each set w x).got_signal ≡ (has x set || (w x).got_signal))
      × ((handle_each set w x).is_waiting ≡ (w x).is_waiting)
unfolding handle_each handle has lookup
handle_each_lem [] w x = (refl, refl)
handle_each_lem ((y, t) ∷ set) w x = ground (arith, handle_each_lem set (handle y w) x)

-- A signal reaches exactly the SignalWaiters that are registered for it, and changes nothing else.
pub handle_signal_lem :
    (signal : ℕ) (h : Handlers) (w : Waiters) (x : ℕ)
    → ((handle_signal signal h w x).got_signal ≡ (registered x signal h || (w x).got_signal))
      × ((handle_signal signal h w x).is_waiting ≡ (w x).is_waiting)
unfolding handle_signal registered set_of has lookup
handle_signal_lem signal h w x = elim (Option-cases (lookup signal h.handlers)) [
  | inl e ↦ (ground arith, ground arith)
  | inr (set, e) ↦ ground (arith, handle_each_lem set w x)
]
