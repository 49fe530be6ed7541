-- ===== src/ProxelTimer.antt =====
-- A ProxelTimer (core/src/proxel_timer.cpp). Times are ticks of its clock. The doubles, with their
-- rounding, are a parameter.
pub mod Averages
use superflow.Base.{
  ℕ, suc, ◌%◌, Bool, true, false, List, [], ◌∷◌, ◌==◌, if◌then◌else◌, Outcome, returns, throws,
  ◌>>=◌, runtime_error,
}
use superflow.Base.Int.{ℤ, pos, ◌-ℤ◌}

-- What is used of double: `of_ticks` is the count of a Duration, `of_count` the cast of an integer.
pub record Doubles (D : Type 0) : Type 0 where
  pub zero : D
  pub plus : D → D → D
  pub divide : D → D → D
  pub of_ticks : ℤ → D
  pub of_count : ℕ → D

-- `first_time_point` and `start_point` are the epoch of the clock, 0, before the first start.
pub record ProxelTimer (D : Type 0) : Type 0 where
  pub first_flag : Bool
  pub first_time_point : ℕ
  pub start_point : ℕ
  pub run_counter : ℕ
  pub summed_processing_time : D
  pub mean_processing_time : D
  pub mean_busyness_time : D

module _ {D : Type 0} (doubles : Doubles D) where
  unfoldable pub make_timer : ProxelTimer D
  make_timer = record {
    first_flag = false;
    first_time_point = 0;
    start_point = 0;
    run_counter = 0;
    summed_processing_time = doubles.zero;
    mean_processing_time = doubles.zero;
    mean_busyness_time = doubles.zero;
  }

  unfoldable pub start : ℕ → ProxelTimer D → ProxelTimer D
  start now t = record t {
    first_flag = true;
    first_time_point = if t.first_flag then t.first_time_point else now;
    start_point = now;
  }

  -- The processing time, and the timer
  unfoldable pub stop : ℕ → ProxelTimer D → Outcome (D × ProxelTimer D)
  stop now t =
      if t.first_time_point == 0
      then throws runtime_error
      else let processing_time = doubles.of_ticks (pos now -ℤ pos t.start_point) in
        let summed = doubles.plus t.summed_processing_time processing_time in
        let count = suc t.run_counter % 18446744073709551616 in
        let uptime = doubles.of_ticks (pos now -ℤ pos t.first_time_point) in
        returns (
          processing_time,
          record t {
            run_counter = count;
            summed_processing_time = summed;
            mean_processing_time = doubles.divide summed (doubles.of_count count);
            mean_busyness_time = doubles.divide summed uptime;
          },
        )

  unfoldable pub peek : ℕ → ProxelTimer D → D
  peek now t = doubles.of_ticks (pos now -ℤ pos t.start_point)

  abbrev pub get_average_processing_time : ProxelTimer D → D
  get_average_processing_time t = t.mean_processing_time

  abbrev pub get_average_busyness : ProxelTimer D → D
  get_average_busyness t = t.mean_busyness_time

  abbrev pub get_run_count : ProxelTimer D → ℕ
  get_run_count t = t.run_counter

  -- Rounds of start and stop, at these times
  unfoldable pub time_rounds : List (ℕ × ℕ) → ProxelTimer D → Outcome (ProxelTimer D)
  unfolding start stop
  time_rounds [] t = returns t
  time_rounds ((begin, end) ∷ rounds) t = do
    (processing_time, t') ← stop end (start begin t)
    time_rounds rounds t'
