-- ===== src/Signals.antt =====
-- The handlers of signals (core/src/signal_waiter.cpp).
pub mod Registered
pub mod Lifetime
use superflow.Base.{
  ℕ, Bool, true, false, List, [], ◌∷◌, ◌==◌, if◌then◌else◌, Option, none, some, is_empty,
}
use superflow.Map.{Map, lookup, insert, erase, nat_key}

-- A set of handlers, each by its address
abbrev pub HandlerSet : Type 0
HandlerSet = Map ℕ (Unit {0})

-- `handlers`, and for which signals handle_signal is the process's handler. The others have SIG_DFL.
pub record Handlers : Type 0 where
  pub handlers : Map ℕ HandlerSet
  pub installed : ℕ → Bool

-- `std::signal`
unfoldable pub install : ℕ → Bool → (ℕ → Bool) → ℕ → Bool
install signal on installed s = if s == signal then on else installed s

unfoldable pub register_handler : ℕ → ℕ → Handlers → Handlers
unfolding lookup insert install
register_handler signal handler h = elim (lookup signal h.handlers) [
  | none ↦ record {
    handlers = insert signal (insert handler tt []) h.handlers;
    installed = install signal true h.installed;
  }
  | some set ↦ record h { handlers = insert signal (insert handler tt set) h.handlers }
]

unfoldable pub unregister_handler : ℕ → ℕ → Handlers → Handlers
unfolding lookup insert erase install
unregister_handler signal handler h = elim (lookup signal h.handlers) [
  | none ↦ h
  | some set ↦ elim (is_empty (erase handler set)) [
    | true ↦ record {
      handlers = erase signal h.handlers;
      installed = install signal false h.installed;
    }
    | false ↦ record h { handlers = insert signal (erase handler set) h.handlers }
  ]
]

-- `is_waiting_` and `got_signal_` of a SignalWaiter
pub record Waiter : Type 0 where
  pub is_waiting : Bool
  pub got_signal : Bool

-- The SignalWaiters, each by the address of its handler
abbrev pub Waiters : Type 0
Waiters = ℕ → Waiter

-- SignalWaiter::handleSignal
unfoldable pub handle : ℕ → Waiters → Waiters
handle handler w x = if x == handler then record (w x) { got_signal = true } else w x

unfoldable pub handle_each : HandlerSet → Waiters → Waiters
unfolding handle
handle_each [] w = w
handle_each ((handler, _) ∷ set) w = handle_each set (handle handler w)

unfoldable pub handle_signal : ℕ → Handlers → Waiters → Waiters
unfolding lookup handle_each
handle_signal signal h w = elim (lookup signal h.handlers) [
  | none ↦ w
  | some set ↦ handle_each set w
]

-- The loop of the constructor
unfoldable pub register_all : List ℕ → ℕ → Handlers → Handlers
unfolding register_handler
register_all [] handler h = h
register_all (signal ∷ signals) handler h =
    register_all signals handler (register_handler signal handler h)

-- The loop of `await`, once it waits no longer
unfoldable pub unregister_all : List ℕ → ℕ → Handlers → Handlers
unfolding unregister_handler
unregister_all [] handler h = h
unregister_all (signal ∷ signals) handler h =
    unregister_all signals handler (unregister_handler signal handler h)

-- The condition of `await`
unfoldable pub goes_on : Waiter → Bool
goes_on w = if w.is_waiting then w.got_signal else true
