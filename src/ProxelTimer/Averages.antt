-- ===== src/ProxelTimer/Averages.antt =====
-- The averages of a ProxelTimer (core/src/proxel_timer.cpp).
use superflow.Base.{
  ℕ, suc, ◌+◌, ◌%◌, ◌<◌, ◌≡◌, refl, ◌∙◌, true, false, List, [], ◌∷◌, length, arith, ◌==◌, returns,
}
use superflow.Base.Int.{pos, ◌-ℤ◌}
use superflow.ProxelTimer.{
  Doubles, ProxelTimer, make_timer, start, stop, time_rounds, get_average_processing_time,
  get_average_busyness, get_run_count,
}

module _ {D : Type 0} (doubles : Doubles D) where
  -- The times of the rounds, added to this sum one after the other
  abbrev pub total : D → List (ℕ × ℕ) → D
  total sum [] = sum
  total sum ((begin, end) ∷ rounds) =
      total (doubles.plus sum (doubles.of_ticks (pos end -ℤ pos begin))) rounds

  abbrev pub last_end : ℕ → List (ℕ × ℕ) → ℕ
  last_end now [] = now
  last_end now ((begin, end) ∷ rounds) = last_end end rounds

  -- A timer that was first started at `first` and last stopped at `now`, after so many rounds
  record Timed (first now count : ℕ) (sum : D) (t : ProxelTimer D) : Type 0 where
    begun : t.first_flag ≡ true
    first_kept : t.first_time_point ≡ first
    summed_kept : t.summed_processing_time ≡ sum
    counted : t.run_counter ≡ count % 18446744073709551616
    mean_kept :
        t.mean_processing_time
        ≡ doubles.divide sum (doubles.of_count (count % 18446744073709551616))
    busy_kept : t.mean_busyness_time ≡ doubles.divide sum (doubles.of_ticks (pos now -ℤ pos first))

  counted_on :
      (n : ℕ) → suc (n % 18446744073709551616) % 18446744073709551616 ≡ suc n % 18446744073709551616
  counted_on n = omega arith

  -- The timer after stop(), if it was first started at `first`, last started at `begin`
  abbrev stopped_at : ℕ → ℕ → ℕ → D → ℕ → ProxelTimer D
  stopped_at first begin end sum count = record {
    first_flag = true;
    first_time_point = first;
    start_point = begin;
    run_counter = count % 18446744073709551616;
    summed_processing_time = sum;
    mean_processing_time = doubles.divide sum (doubles.of_count (count % 18446744073709551616));
    mean_busyness_time = doubles.divide sum (doubles.of_ticks (pos end -ℤ pos first));
  }

  stopped-Timed :
      (first begin end count : ℕ) (sum : D)
      → Timed first end count sum (stopped_at first begin end sum count)
  stopped-Timed first begin end count sum = record {
    begun = refl;
    first_kept = refl;
    summed_kept = refl;
    counted = refl;
    mean_kept = refl;
    busy_kept = refl;
  }

  round_lem :
      (first now count begin end : ℕ) (sum : D) (t : ProxelTimer D)
      → 0 < first
      → Timed first now count sum t
      → stop doubles end (start doubles begin t)
        ≡ returns (
          doubles.of_ticks (pos end -ℤ pos begin),
          stopped_at first begin end
              (doubles.plus sum (doubles.of_ticks (pos end -ℤ pos begin)))
              (suc count),
        )
  unfolding start stop
  round_lem first now count begin end sum t positive v =
      let started : (first == 0) ≡ false = ground arith in
      rw (v.begun, v.first_kept, v.summed_kept, v.counted, started) (rw (counted_on count) refl)

  first_round :
      (begin end : ℕ)
      → 0 < begin
      → stop doubles end (start doubles begin (make_timer doubles))
        ≡ returns (
          doubles.of_ticks (pos end -ℤ pos begin),
          stopped_at begin begin end
              (doubles.plus doubles.zero (doubles.of_ticks (pos end -ℤ pos begin)))
              1,
        )
  unfolding start stop make_timer
  first_round begin end positive =
      let started : (begin == 0) ≡ false = ground arith in rw started refl

  rounds-Timed :
      (rounds : List (ℕ × ℕ)) (first now count : ℕ) (sum : D) (t : ProxelTimer D)
      → 0 < first
      → Timed first now count sum t
      → (t' : ProxelTimer D) × (time_rounds doubles rounds t ≡ returns t')
        × Timed first (last_end now rounds) (count + length rounds) (total sum rounds) t'
  unfolding time_rounds
  rounds-Timed [] first now count sum t h v =
      let f : count + 0 ≡ count = omega arith in (t, refl, rw f v)
  rounds-Timed ((begin, end) ∷ rounds) first now count sum t h v =
      let run = round_lem first now count begin end sum t h v in
      let (t', rest, v') = rounds-Timed rounds first end (suc count) _ _ h (
        stopped-Timed first begin end (suc count)
          (doubles.plus sum (doubles.of_ticks (pos end -ℤ pos begin)))) in
      let f : suc count + length rounds ≡ count + suc (length rounds) = omega arith in
      (t', rw run rest, rw (← f) v')

  -- If start() and stop() alternate, and the clock has left its epoch at the first start, no call
  -- throws. Then the count of runs is that of the rounds, up to 2^64, and the two averages are the
  -- sum of the rounds' times, added in their order as the doubles add, divided by that count and by
  -- the time from the first start to the last stop.
  pub time_rounds-averages :
      (begin end : ℕ) (rounds : List (ℕ × ℕ))
      → 0 < begin
      → (t : ProxelTimer D) × (time_rounds doubles ((begin, end) ∷ rounds) (make_timer doubles)
          ≡ returns t)
        × (get_run_count doubles t ≡ suc (length rounds) % 18446744073709551616)
        × (get_average_processing_time doubles t
            ≡ doubles.divide
                (total doubles.zero ((begin, end) ∷ rounds))
                (doubles.of_count (suc (length rounds) % 18446744073709551616)))
        × (get_average_busyness doubles t
            ≡ doubles.divide
                (total doubles.zero ((begin, end) ∷ rounds))
                (doubles.of_ticks (pos (last_end end rounds) -ℤ pos begin)))
  unfolding time_rounds
  time_rounds-averages begin end rounds h =
      let (t, rest, v) = rounds-Timed rounds begin end 1 _ _ h (
        stopped-Timed begin begin end 1
          (doubles.plus doubles.zero (doubles.of_ticks (pos end -ℤ pos begin)))) in
      let e : 1 + length rounds ≡ suc (length rounds) = omega arith in
      (
        t,
        rw (first_round begin end h) rest,
        v.counted ∙ rw e refl,
        v.mean_kept ∙ rw e refl,
        v.busy_kept,
      )
