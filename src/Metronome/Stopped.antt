-- ===== src/Metronome/Stopped.antt =====
-- What stop() of a Metronome ensures, and when check() is undefined (core/src/metronome.cpp).
use superflow.Base.{
  ℕ, ◌≤◌, ◌≡◌, ◌≢◌, refl, sym, ap, subst, Bool, true, false, arith, undefined, throws, Exception,
}
use superflow.Metronome.{
  Phase, looping, testing, falling_asleep, asleep, calling, ended, failed, holds_mutex, Metronome,
  make_metronome, awake, count_late, Works, begins_round, leaves_loop, finds_stopped, finds_due,
  finds_early, sleeps, times_out, returns_from, fails, Others, stops, notifies, ticks,
  wakes_spuriously, works, others, Reach, here, next, Worker, at_work, has_ended, has_thrown, taken,
  check,
}

record Stopping (b : Metronome) : Type 0 where
  unset : b.phase ≡ falling_asleep → b.has_stopped ≡ false
  to_wake : b.phase ≡ asleep → b.has_stopped ≡ true → b.notifying ≡ true
  none_late : b.has_stopped ≡ false → b.late_calls ≡ 0
  last_call : b.phase ≡ calling → b.late_calls ≡ 0
  one_late : b.late_calls ≤ 1

awake-calling : (p : Phase) → awake p ≡ calling → p ≡ calling
awake-calling looping h = cc
awake-calling testing h = cc
awake-calling falling_asleep h = cc
awake-calling asleep h = cc
awake-calling calling h = refl
awake-calling ended h = cc
awake-calling failed h = cc

awake-falling : (p : Phase) → awake p ≡ falling_asleep → p ≡ falling_asleep
awake-falling looping h = cc
awake-falling testing h = cc
awake-falling falling_asleep h = refl
awake-falling asleep h = cc
awake-falling calling h = cc
awake-falling ended h = cc
awake-falling failed h = cc

awake-asleep : (p : Phase) → awake p ≢ asleep
awake-asleep looping h = cc
awake-asleep testing h = cc
awake-asleep falling_asleep h = cc
awake-asleep asleep h = cc
awake-asleep calling h = cc
awake-asleep ended h = cc
awake-asleep failed h = cc

counted : (stopped : Bool) (n : ℕ) → n ≡ 0 → count_late stopped n ≤ 1
counted true n h = omega arith
counted false n h = omega arith

uncounted : (stopped : Bool) (n : ℕ) → n ≡ 0 → stopped ≡ false → count_late stopped n ≡ 0
uncounted true n h k = cc
uncounted false n h k = h

module _ {period : ℕ} where
  Works-Stopping : {b c : Metronome} → Stopping b → Works period b c → Stopping c
  Works-Stopping {b} v (begins_round p s e) = subst Stopping (sym e) (record {
    unset = λ h. cc;
    to_wake = λ h. cc;
    none_late = v.none_late;
    last_call = λ h. cc;
    one_late = v.one_late;
  })
  Works-Stopping {b} v (leaves_loop p s e) = subst Stopping (sym e) (record {
    unset = λ h. cc;
    to_wake = λ h. cc;
    none_late = v.none_late;
    last_call = λ h. cc;
    one_late = v.one_late;
  })
  Works-Stopping {b} v (finds_stopped p s e) = subst Stopping (sym e) (record {
    unset = λ h. cc;
    to_wake = λ h. cc;
    none_late = v.none_late;
    last_call = λ h. cc;
    one_late = v.one_late;
  })
  Works-Stopping {b} v (finds_due p s d e) = subst Stopping (sym e) (record {
    unset = λ h. cc;
    to_wake = λ h. cc;
    none_late = v.none_late;
    last_call = λ h. v.none_late s;
    one_late = v.one_late;
  })
  Works-Stopping {b} v (finds_early p s d e) = subst Stopping (sym e) (record {
    unset = λ h. s;
    to_wake = λ h. cc;
    none_late = v.none_late;
    last_call = λ h. cc;
    one_late = v.one_late;
  })
  Works-Stopping {b} v (sleeps p e) = subst Stopping (sym e) (record {
    unset = λ h. cc;
    to_wake = λ h k. cc (v.unset p);
    none_late = v.none_late;
    last_call = λ h. cc;
    one_late = v.one_late;
  })
  Works-Stopping {b} v (times_out p d e) = subst Stopping (sym e) (record {
    unset = λ h. cc;
    to_wake = λ h. cc;
    none_late = v.none_late;
    last_call = λ h. cc;
    one_late = v.one_late;
  })
  Works-Stopping {b} v (returns_from p e) = subst Stopping (sym e) (record {
    unset = λ h. cc;
    to_wake = λ h. cc;
    none_late = uncounted b.has_stopped b.late_calls (v.last_call p);
    last_call = λ h. cc;
    one_late = counted b.has_stopped b.late_calls (v.last_call p);
  })
  Works-Stopping {b} v (fails p e) = subst Stopping (sym e) (record {
    unset = λ h. cc;
    to_wake = λ h. cc;
    none_late = v.none_late;
    last_call = λ h. cc;
    one_late = v.one_late;
  })

Others-Stopping : {b c : Metronome} → Stopping b → Others b c → Stopping c
Others-Stopping {b} v (stops f s e) = subst Stopping (sym e) (record {
  unset = λ h. cc (ap holds_mutex h);
  to_wake = λ h k. refl;
  none_late = λ h. cc;
  last_call = λ h. v.none_late s;
  one_late = v.one_late;
})
Others-Stopping {b} v (notifies n e) = subst Stopping (sym e) (record {
  unset = λ h. v.unset (awake-falling b.phase h);
  to_wake = λ h. absurd (awake-asleep b.phase h);
  none_late = v.none_late;
  last_call = λ h. v.last_call (awake-calling b.phase h);
  one_late = v.one_late;
})
Others-Stopping {b} v (ticks e) = subst Stopping (sym e) (record {
  unset = v.unset;
  to_wake = v.to_wake;
  none_late = v.none_late;
  last_call = v.last_call;
  one_late = v.one_late;
})
Others-Stopping {b} v (wakes_spuriously p e) = subst Stopping (sym e) (record {
  unset = λ h. cc;
  to_wake = λ h. cc;
  none_late = v.none_late;
  last_call = λ h. cc;
  one_late = v.one_late;
})

make_metronome-Stopping : (now : ℕ) → Stopping (make_metronome now)
make_metronome-Stopping now = record {
  unset = λ h. cc;
  to_wake = λ h. cc;
  none_late = λ h. refl;
  last_call = λ h. cc;
  one_late = omega arith;
}

Reach-Stopping : {period : ℕ} {b c : Metronome} → Stopping b → Reach period b c → Stopping c
Reach-Stopping v here = v
Reach-Stopping v (next r (works m)) = Works-Stopping (Reach-Stopping v r) m
Reach-Stopping v (next r (others m)) = Others-Stopping (Reach-Stopping v r) m

-- Whatever stop(), time and spurious wake-ups do: at most one call of the function returns after
-- stop(), and a worker that sleeps after stop() is about to be notified.
pub stop-ends :
    (now period : ℕ) (b : Metronome)
    → Reach period (make_metronome now) b
    → (b.late_calls ≤ 1) × (b.phase ≡ asleep → b.has_stopped ≡ true → b.notifying ≡ true)
stop-ends now period b r =
    let v = Reach-Stopping (make_metronome-Stopping now) r in (v.one_late, v.to_wake)

-- After a check() that throws, the next check() is undefined.
pub check_again :
    (w : Worker) (e : Exception) → (check w).0 ≡ throws e → (check (check w).1).0 ≡ undefined
unfolding check
check_again at_work e h = cc
check_again has_ended e h = cc
check_again has_thrown e h = refl
check_again taken e h = refl
