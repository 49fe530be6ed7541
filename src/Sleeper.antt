-- ===== src/Sleeper.antt =====
-- A Sleeper (core/src/sleeper.cpp). Times and durations are ticks of its clock.
pub mod Rate
use superflow.Base.{ℕ, ◌+◌, List, [], ◌∷◌, ltb, if◌then◌else◌}

pub record Sleeper : Type 0 where
  pub time_point : ℕ
  pub period : ℕ

unfoldable pub make_sleeper : ℕ → ℕ → Sleeper
make_sleeper now period = record { time_point = now; period = period }

-- `sleep_until`: the thread goes on `late` ticks after the time, or after now if the time is over.
unfoldable pub sleep_until : ℕ → ℕ → ℕ → ℕ
sleep_until now late time_point = (if ltb now time_point then time_point else now) + late

-- sleepForRemainderOfPeriod, called now: when it returns
unfoldable pub sleep_for_remainder_of_period : ℕ → ℕ → Sleeper → ℕ × Sleeper
unfolding sleep_until
sleep_for_remainder_of_period now late s =
    let time_point = s.time_point + s.period in
    (sleep_until now late time_point, record s { time_point = time_point })

unfoldable pub set_sleep_period : ℕ → Sleeper → Sleeper
set_sleep_period period s = record s { period = period }

-- A loop that works and then sleeps: when each sleep returns
unfoldable pub rate_loop : List (ℕ × ℕ) → ℕ → Sleeper → List ℕ × Sleeper
unfolding sleep_for_remainder_of_period
rate_loop [] now s = ([], s)
rate_loop ((work, late) ∷ rounds) now s =
    let (woken, s') = sleep_for_remainder_of_period (now + work) late s in
    let (times, s'') = rate_loop rounds woken s' in (woken ∷ times, s'')
