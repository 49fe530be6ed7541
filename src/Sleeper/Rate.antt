-- ===== src/Sleeper/Rate.antt =====
-- The rate of a loop with a Sleeper (core/src/sleeper.cpp and its description in
-- core/include/superflow/utils/sleeper.h).
use superflow.Base.{ℕ, zero, suc, ◌+◌, ◌*◌, ◌≤◌, ◌≡◌, refl, ap, ◌∙◌, List, [], ◌∷◌, length, arith}
use superflow.Sleeper.{Sleeper, sleep_until, sleep_for_remainder_of_period, rate_loop}

-- Each time is at least one period after the one before it should be.
abbrev pub NotBefore : ℕ → ℕ → List ℕ → Type 0
NotBefore time_point period [] = Unit
NotBefore time_point period (t ∷ times) =
    (time_point + period ≤ t) × NotBefore (time_point + period) period times

-- `n` times, one period from each other
abbrev pub beats : ℕ → ℕ → ℕ → List ℕ
beats time_point period zero = []
beats time_point period (suc n) = (time_point + period) ∷ beats (time_point + period) period n

-- No round works for longer than the period, and each sleep ends in time.
abbrev pub InTime : ℕ → List (ℕ × ℕ) → Type 0
InTime period [] = Unit
InTime period ((work, late) ∷ rounds) = (work ≤ period) × (late ≡ 0) × InTime period rounds

sleep_until-ge : (now late time_point : ℕ) → time_point ≤ sleep_until now late time_point
unfolding sleep_until
sleep_until-ge now late time_point = ground arith

sleep_until-exact :
    (now time_point : ℕ) → now ≤ time_point → sleep_until now 0 time_point ≡ time_point
unfolding sleep_until
sleep_until-exact now time_point h = ground arith

-- However long each round works, and however late each sleep ends, the i-th sleep does not end before
-- i periods have passed since the start, and the next sleep is planned one period after that: what is
-- lost once does not shift the later ones.
pub rate_loop-NotBefore :
    (rounds : List (ℕ × ℕ)) (now time_point period : ℕ)
    → NotBefore time_point period
        (rate_loop rounds now (record { time_point = time_point; period = period })).0
      × ((rate_loop rounds now (record { time_point = time_point; period = period })).1
          ≡ record { time_point = time_point + length rounds * period; period = period })
unfolding rate_loop sleep_for_remainder_of_period
rate_loop-NotBefore [] now time_point period =
    let e : time_point + 0 * period ≡ time_point = omega arith in (tt, rw e refl)
rate_loop-NotBefore ((work, late) ∷ rounds) now time_point period =
    let (rest, s) =
      rate_loop-NotBefore rounds (sleep_until (now + work) late (time_point + period))
        (time_point + period) period in
    let e : time_point + period + length rounds * period
        ≡ time_point + suc (length rounds) * period =
      grind arith in
    ((sleep_until-ge (now + work) late (time_point + period), rest), s ∙ rw e refl)

-- If no round works for longer than the period and each sleep ends in time, then the sleeps end
-- exactly one period from each other.
pub rate_loop-beats :
    (rounds : List (ℕ × ℕ)) (now time_point period : ℕ)
    → now ≤ time_point
    → InTime period rounds
    → (rate_loop rounds now (record { time_point = time_point; period = period })).0
      ≡ beats time_point period (length rounds)
unfolding rate_loop sleep_for_remainder_of_period
rate_loop-beats [] now time_point period h i = refl
rate_loop-beats ((work, late) ∷ rounds) now time_point period h (fits, on_time, i) =
    let e : sleep_until (now + work) late (time_point + period) ≡ time_point + period =
      ap (λ l. sleep_until (now + work) l (time_point + period)) on_time
      ∙ sleep_until-exact (now + work) (time_point + period) (omega arith) in
    rw e (
      ap (λ t. (time_point + period) ∷ t)
        (rate_loop-beats rounds (time_point + period) (time_point + period) period (omega arith) i))

-- After a delay of two periods, one call and then the next return at once: the second does not wait
-- for a period to pass since the first.
pub sleep_at_once :
    (now : ℕ) (s : Sleeper)
    → s.time_point + s.period + s.period ≤ now
    → let first = sleep_for_remainder_of_period now 0 s in
      (first.0 ≡ now) × ((sleep_for_remainder_of_period first.0 0 first.1).0 ≡ now)
unfolding sleep_for_remainder_of_period sleep_until
sleep_at_once now s h = ground arith
