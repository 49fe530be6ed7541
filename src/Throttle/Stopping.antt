-- ===== src/Throttle/Stopping.antt =====
-- When the destructor of a Throttle waits for ever (core/include/superflow/utils/throttle.h).
use superflow.Base.{ℕ, ◌≡◌, refl, true, false}
use superflow.Throttle.{
  looping, testing, falling_asleep, asleep, Throttle, Runs, locks, leaves_loop, finds_stopped,
  finds_data, finds_nothing, sleeps, sends, fails, times_out, breaks_off, stops, notifies_all, runs,
  others, Reach, here, next,
}

-- From any state in which the worker of an idle Throttle is about to wait for data, it and the
-- destructor may interleave so that the destructor has set `stopped_` and notified, and the worker
-- sleeps and has no step of its own; no call of push() is to notify it either.
pub stop_is_missed {ℓ} :
    {T : Type ℓ} (delay : ℕ) (b : Throttle T)
    → b.phase ≡ looping
    → b.stopped ≡ false
    → b.new_data ≡ false
    → b.notifying ≡ 0
    → (e : Throttle T) × Reach delay b e
      × (e.phase ≡ asleep)
      × (e.stopped ≡ true)
      × (e.notifying ≡ 0)
      × ((f : Throttle T) → ¬ (Runs delay e f))
stop_is_missed delay b p s n k = (
  record b { stopped = true; phase = asleep },
  next {c = record b { stopped = true; phase = falling_asleep }}
      (next {c = record b { stopped = true; phase = falling_asleep }}
        (next {c = record b { phase = falling_asleep }}
          (next {c = record b { phase = testing }} (next here (runs (locks p s refl)))
            (runs (finds_nothing refl s n refl)))
          (others (stops refl)))
        (others (notifies_all refl refl)))
      (runs (sleeps refl refl)),
  refl,
  refl,
  k,
  stuck,
)
  where
    stuck : (f : Throttle _) → ¬ (Runs delay (record b { stopped = true; phase = asleep }) f)
    stuck f (locks q x y) = cc
    stuck f (leaves_loop q x y) = cc
    stuck f (finds_stopped q x y) = cc
    stuck f (finds_data q x y z) = cc
    stuck f (finds_nothing q x y z) = cc
    stuck f (sleeps q x) = cc
    stuck f (sends q x) = cc
    stuck f (fails q x) = cc
    stuck f (times_out q x y) = cc
    stuck f (breaks_off q x y) = cc
