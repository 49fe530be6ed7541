-- ===== src/Tests/Rates.antt =====
-- The timers and the throttle, at concrete inputs.
use superflow.Base.{ℕ, ◌+◌, ◌*◌, ◌%◌, ◌≤◌, ◌≡◌, refl, true, [], ◌∷◌, arith, returns}
use superflow.Base.Int.{ℤ, pos, ◌+ℤ◌, ◌/ℤ◌, to_size}
use superflow.Throttle.{
  Throttle, make_throttle, locks, finds_data, finds_nothing, sends, times_out, stores, notifies,
  ticks, runs, others,
}
use superflow.Throttle
use superflow.Throttle.Fresh.{UpToDate, sleeps-UpToDate}
use superflow.Throttle.Pace.{Spaced, Picked, sent-Spaced}
use superflow.Metronome.{Metronome, make_metronome, begins_round, finds_due, returns_from, works}
use superflow.Metronome
use superflow.Metronome.Beats.{OnBeat, calls-OnBeat}
use superflow.Metronome.Stopped.{stop-ends}
use superflow.Sleeper.{rate_loop}
use superflow.Sleeper.Rate.{NotBefore, rate_loop-NotBefore}
use superflow.ProxelTimer.{
  Doubles, ProxelTimer, make_timer, time_rounds, get_run_count, get_average_processing_time,
  get_average_busyness,
}
use superflow.ProxelTimer.Averages.{time_rounds-averages}

-- The worker sleeps, and is woken for 7, which it sends; when the delay is over, it sleeps again.
abbrev sent_one : Throttle ℕ
sent_one = record (make_throttle 0) {
  item = 7;
  phase = Throttle.asleep;
  now = 1;
  until = 1;
  pushed = 7 ∷ [];
  sent = (0, 7) ∷ [];
}

one_pushed : Throttle.Reach 1 (make_throttle 0) sent_one
one_pushed =
    let fell_asleep =
      Throttle.next
        (Throttle.next (Throttle.next Throttle.here (runs (locks refl refl refl)))
          (runs (finds_nothing refl refl refl refl)))
        (runs (Throttle.sleeps refl refl)) in
    let woken =
      Throttle.next (Throttle.next fell_asleep (others (stores 7 refl refl)))
        (others (notifies 0 refl refl)) in
    let sent =
      Throttle.next (Throttle.next woken (runs (finds_data refl refl refl refl)))
        (runs (sends refl refl)) in
    let over =
      Throttle.next (Throttle.next sent (others (ticks refl)))
        (runs (times_out refl (omega arith) refl)) in
    Throttle.next
      (Throttle.next (Throttle.next over (runs (locks refl refl refl)))
        (runs (finds_nothing refl refl refl refl)))
      (runs (Throttle.sleeps refl refl))

sleeps-UpToDate_example : UpToDate sent_one.pushed sent_one.sent
sleeps-UpToDate_example = sleeps-UpToDate 1 0 sent_one one_pushed refl refl

sent-Spaced_example : Spaced 1 sent_one.sent × Picked sent_one.sent sent_one.pushed
sent-Spaced_example = sent-Spaced 1 0 sent_one one_pushed

-- The function is called after one tick, and stop() comes before it returns.
abbrev called_once : Metronome
called_once = record (make_metronome 5) {
  has_stopped = true;
  now = 6;
  time_point = 6;
  notifying = true;
  calls = (6, 1) ∷ [];
  late_calls = 1;
}

one_call : Metronome.Reach 1 (make_metronome 5) called_once
one_call =
    let begun =
      Metronome.next (Metronome.next Metronome.here (works (begins_round refl refl refl)))
        (Metronome.others (Metronome.ticks refl)) in
    let called = Metronome.next begun (works (finds_due refl refl (omega arith) refl)) in
    Metronome.next (Metronome.next called (Metronome.others (Metronome.stops refl refl refl)))
      (works (returns_from refl refl))

calls-OnBeat_example : OnBeat 5 1 called_once.calls
calls-OnBeat_example = calls-OnBeat 5 1 called_once one_call

stop-ends_example :
    (called_once.late_calls ≤ 1)
    × (called_once.phase ≡ Metronome.asleep
        → called_once.has_stopped ≡ true
        → called_once.notifying ≡ true)
stop-ends_example = stop-ends 5 1 called_once one_call

-- The first round works for longer than the period.
rate_loop-NotBefore_example :
    NotBefore 10 3 (rate_loop ((5, 0) ∷ (1, 1) ∷ []) 10 (record { time_point = 10; period = 3 })).0
    × ((rate_loop ((5, 0) ∷ (1, 1) ∷ []) 10 (record { time_point = 10; period = 3 })).1
        ≡ record { time_point = 10 + 2 * 3; period = 3 })
rate_loop-NotBefore_example = rate_loop-NotBefore ((5, 0) ∷ (1, 1) ∷ []) 10 10 3

-- Whole numbers in place of doubles
abbrev whole_numbers : Doubles ℤ
whole_numbers = record {
  zero = pos 0;
  plus = λ a b. a +ℤ b;
  divide = λ a b. a /ℤ to_size b;
  of_ticks = λ a. a;
  of_count = pos;
}

time_rounds-averages_example :
    (t : ProxelTimer ℤ) × (time_rounds whole_numbers
        ((5, 8) ∷ (10, 11) ∷ [])
        (make_timer whole_numbers)
      ≡ returns t)
    × (get_run_count whole_numbers t ≡ 2 % 18446744073709551616)
    × (get_average_processing_time whole_numbers t ≡ pos 2)
    × (get_average_busyness whole_numbers t ≡ pos 0)
time_rounds-averages_example = time_rounds-averages whole_numbers 5 8 ((10, 11) ∷ []) (omega arith)
