-- ===== src/Metronome/Beats.antt =====
-- When a Metronome calls its function (core/src/metronome.cpp).
use superflow.Base.{
  ℕ, suc, ◌+◌, ◌-◌, ◌*◌, ◌≤◌, ◌≡◌, ◌≢◌, refl, sym, ap, ◌∙◌, subst, List, [], ◌∷◌, length, arith,
}
use superflow.Metronome.{
  Phase, looping, testing, falling_asleep, asleep, calling, ended, failed, Metronome,
  make_metronome, awake, Works, begins_round, leaves_loop, finds_stopped, finds_due, finds_early,
  sleeps, times_out, returns_from, fails, Others, stops, notifies, ticks, wakes_spuriously, works,
  others, Reach, here, next,
}

-- The n-th call begins at least n periods after the start, and is given the time since the start.
abbrev pub OnBeat : ℕ → ℕ → List (ℕ × ℕ) → Type 0
OnBeat start period [] = Unit
OnBeat start period ((began, given) ∷ calls) =
    (start + suc (length calls) * period ≤ began)
    × (given ≡ began - start)
    × OnBeat start period calls

-- Rounds that have begun, in each phase, when so many calls have
abbrev rounds : Phase → ℕ → ℕ
rounds looping n = n
rounds calling n = n
rounds _ n = suc n

record Beating (start period : ℕ) (b : Metronome) : Type 0 where
  started : b.first_time_point ≡ start
  on_beat : OnBeat start period b.calls
  in_time :
      b.phase ≢ ended
      → b.phase ≢ failed
      → start + rounds b.phase (length b.calls) * period ≤ b.time_point

next_round : (a n t period : ℕ) → a + n * period ≤ t → a + suc n * period ≤ t + period
next_round a n t period h = grind arith

rounds-awake : (p : Phase) (n : ℕ) → rounds (awake p) n ≡ rounds p n
rounds-awake looping n = refl
rounds-awake testing n = refl
rounds-awake falling_asleep n = refl
rounds-awake asleep n = refl
rounds-awake calling n = refl
rounds-awake ended n = refl
rounds-awake failed n = refl

module _ {start period : ℕ} where
  in_round :
      {b : Metronome} {p : Phase}
      → Beating start period b
      → b.phase ≡ p
      → p ≢ ended
      → p ≢ failed
      → start + rounds p (length b.calls) * period ≤ b.time_point
  in_round {b} v e h k =
      subst (λ q. start + rounds q (length b.calls) * period ≤ b.time_point) e
        (v.in_time (λ x. h (sym e ∙ x)) (λ x. k (sym e ∙ x)))

  Works-Beating :
      {b c : Metronome} → Beating start period b → Works period b c → Beating start period c
  Works-Beating {b} v (begins_round p s e) = subst (Beating start period) (sym e) (record {
    started = v.started;
    on_beat = v.on_beat;
    in_time = λ h k.
        next_round start (length b.calls) b.time_point period (in_round v p (λ h. cc) (λ h. cc));
  })
  Works-Beating {b} v (leaves_loop p s e) =
      subst (Beating start period) (sym e)
        (record { started = v.started; on_beat = v.on_beat; in_time = λ h k. absurd (h refl) })
  Works-Beating {b} v (finds_stopped p s e) =
      subst (Beating start period) (sym e)
        (record { started = v.started; on_beat = v.on_beat; in_time = λ h k. absurd (h refl) })
  Works-Beating {b} v (finds_due p s d e) = subst (Beating start period) (sym e) (record {
    started = v.started;
    on_beat =
        (omega (arith, in_round v p (λ h. cc) (λ h. cc)), ap (λ t. b.now - t) v.started, v.on_beat);
    in_time = λ h k. in_round v p (λ h. cc) (λ h. cc);
  })
  Works-Beating {b} v (finds_early p s d e) = subst (Beating start period) (sym e) (record {
    started = v.started;
    on_beat = v.on_beat;
    in_time = λ h k. in_round v p (λ h. cc) (λ h. cc);
  })
  Works-Beating {b} v (sleeps p e) = subst (Beating start period) (sym e) (record {
    started = v.started;
    on_beat = v.on_beat;
    in_time = λ h k. in_round v p (λ h. cc) (λ h. cc);
  })
  Works-Beating {b} v (times_out p d e) = subst (Beating start period) (sym e) (record {
    started = v.started;
    on_beat = v.on_beat;
    in_time = λ h k. in_round v p (λ h. cc) (λ h. cc);
  })
  Works-Beating {b} v (returns_from p e) = subst (Beating start period) (sym e) (record {
    started = v.started;
    on_beat = v.on_beat;
    in_time = λ h k. in_round v p (λ h. cc) (λ h. cc);
  })
  Works-Beating {b} v (fails p e) =
      subst (Beating start period) (sym e)
        (record { started = v.started; on_beat = v.on_beat; in_time = λ h k. absurd (k refl) })

  Others-Beating : {b c : Metronome} → Beating start period b → Others b c → Beating start period c
  Others-Beating {b} v (stops f s e) =
      subst (Beating start period) (sym e)
        (record { started = v.started; on_beat = v.on_beat; in_time = v.in_time })
  Others-Beating {b} v (notifies n e) = subst (Beating start period) (sym e) (record {
    started = v.started;
    on_beat = v.on_beat;
    in_time = λ h k.
        rw (rounds-awake b.phase (length b.calls))
          (v.in_time (λ x. h (ap awake x)) (λ x. k (ap awake x)));
  })
  Others-Beating {b} v (ticks e) =
      subst (Beating start period) (sym e)
        (record { started = v.started; on_beat = v.on_beat; in_time = v.in_time })
  Others-Beating {b} v (wakes_spuriously p e) = subst (Beating start period) (sym e) (record {
    started = v.started;
    on_beat = v.on_beat;
    in_time = λ h k. in_round v p (λ h. cc) (λ h. cc);
  })

make_metronome-Beating : (now period : ℕ) → Beating now period (make_metronome now)
make_metronome-Beating now period = record {
  started = refl;
  on_beat = tt;
  in_time = λ h k. omega arith;
}

Reach-Beating :
    {start period : ℕ} {b c : Metronome}
    → Beating start period b
    → Reach period b c
    → Beating start period c
Reach-Beating v here = v
Reach-Beating v (next r (works m)) = Works-Beating (Reach-Beating v r) m
Reach-Beating v (next r (others m)) = Others-Beating (Reach-Beating v r) m

-- Whatever stop(), time and spurious wake-ups do: the n-th call of the function does not begin before
-- n periods have passed since the Metronome was made, and is given the time that has passed since
-- then when it begins.
pub calls-OnBeat :
    (now period : ℕ) (b : Metronome)
    → Reach period (make_metronome now) b
    → OnBeat now period b.calls
calls-OnBeat now period b r = (Reach-Beating (make_metronome-Beating now period) r).on_beat
