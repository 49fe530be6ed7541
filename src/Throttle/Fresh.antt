-- ===== src/Throttle/Fresh.antt =====
-- What a Throttle sends (core/include/superflow/utils/throttle.h).
use superflow.Base.{
  ℕ, ◌<◌, ◌≡◌, ◌≢◌, refl, sym, ap, subst, Empty, true, false, List, [], ◌∷◌, arith, Bool-cases, inl,
  inr,
}
use superflow.Throttle.{
  Phase, looping, testing, falling_asleep, asleep, sending, delaying, ended, failed, holds_mutex,
  Throttle, make_throttle, awake, Runs, locks, leaves_loop, finds_stopped, finds_data,
  finds_nothing, sleeps, sends, fails, times_out, breaks_off, Others, stores, notifies, stops,
  notifies_all, ticks, wakes_spuriously, runs, others, Reach, here, next,
}

-- The newest that was pushed is the newest that was sent.
abbrev pub UpToDate {ℓ} : {T : Type ℓ} → List T → List (ℕ × T) → Type ℓ
UpToDate [] [] = Unit
UpToDate [] (s ∷ sent) = Empty
UpToDate (x ∷ pushed) [] = Empty
UpToDate (x ∷ pushed) ((t, y) ∷ sent) = x ≡ y

-- What holds of the data
pub record Keeps {ℓ} {T : Type ℓ} (b : Throttle T) : Type ℓ where
  pub pending : b.new_data ≡ true → (rest : List T) × (b.pushed ≡ b.item ∷ rest)
  pub fresh : b.new_data ≡ false → UpToDate b.pushed b.sent
  pub taken : b.phase ≡ sending → b.new_data ≡ true
  pub unset : b.phase ≡ falling_asleep → b.new_data ≡ false
  pub to_wake : b.phase ≡ asleep → b.new_data ≡ true → 0 < b.notifying

pub awake-sending : (p : Phase) → awake p ≡ sending → p ≡ sending
awake-sending looping h = cc
awake-sending testing h = cc
awake-sending falling_asleep h = cc
awake-sending asleep h = cc
awake-sending sending h = refl
awake-sending delaying h = cc
awake-sending ended h = cc
awake-sending failed h = cc

awake-falling : (p : Phase) → awake p ≡ falling_asleep → p ≡ falling_asleep
awake-falling looping h = cc
awake-falling testing h = cc
awake-falling falling_asleep h = refl
awake-falling asleep h = cc
awake-falling sending h = cc
awake-falling delaying h = cc
awake-falling ended h = cc
awake-falling failed h = cc

awake-asleep : (p : Phase) → awake p ≢ asleep
awake-asleep looping h = cc
awake-asleep testing h = cc
awake-asleep falling_asleep h = cc
awake-asleep asleep h = cc
awake-asleep sending h = cc
awake-asleep delaying h = cc
awake-asleep ended h = cc
awake-asleep failed h = cc

-- The worker goes on, with the data as they are.
moves-Keeps {ℓ} :
    {T : Type ℓ} {b : Throttle T} (p : Phase)
    → p ≢ sending
    → p ≢ asleep
    → p ≢ falling_asleep
    → Keeps b
    → Keeps (record b { phase = p })
moves-Keeps p n m k v = record {
  pending = v.pending;
  fresh = v.fresh;
  taken = λ h. absurd (n h);
  unset = λ h. absurd (k h);
  to_wake = λ h. absurd (m h);
}

module _ {ℓ} {T : Type ℓ} {delay : ℕ} where
  Runs-Keeps : {b c : Throttle T} → Keeps b → Runs delay b c → Keeps c
  Runs-Keeps v (locks p s e) =
      subst Keeps (sym e) (moves-Keeps testing (λ h. cc) (λ h. cc) (λ h. cc) v)
  Runs-Keeps v (leaves_loop p s e) =
      subst Keeps (sym e) (moves-Keeps ended (λ h. cc) (λ h. cc) (λ h. cc) v)
  Runs-Keeps v (finds_stopped p s e) =
      subst Keeps (sym e) (moves-Keeps ended (λ h. cc) (λ h. cc) (λ h. cc) v)
  Runs-Keeps v (finds_data p s n e) = subst Keeps (sym e) (record {
    pending = v.pending;
    fresh = v.fresh;
    taken = λ h. n;
    unset = λ h. cc;
    to_wake = λ h. cc;
  })
  Runs-Keeps v (finds_nothing p s n e) = subst Keeps (sym e) (record {
    pending = v.pending;
    fresh = v.fresh;
    taken = λ h. cc;
    unset = λ h. n;
    to_wake = λ h. cc;
  })
  Runs-Keeps v (sleeps p e) = subst Keeps (sym e) (record {
    pending = v.pending;
    fresh = v.fresh;
    taken = λ h. cc;
    unset = λ h. cc;
    to_wake = λ h n. cc (v.unset p);
  })
  Runs-Keeps v (sends p e) =
      let (rest, r) = v.pending (v.taken p) in
      subst Keeps (sym e) (record {
        pending = λ h. cc;
        fresh = λ h. rw r refl;
        taken = λ h. cc;
        unset = λ h. cc;
        to_wake = λ h. cc;
      })
  Runs-Keeps v (fails p e) = subst Keeps (sym e) (record {
    pending = v.pending;
    fresh = v.fresh;
    taken = λ h. cc;
    unset = λ h. cc;
    to_wake = λ h. cc;
  })
  Runs-Keeps v (times_out p u e) =
      subst Keeps (sym e) (moves-Keeps looping (λ h. cc) (λ h. cc) (λ h. cc) v)
  Runs-Keeps v (breaks_off p s e) =
      subst Keeps (sym e) (moves-Keeps looping (λ h. cc) (λ h. cc) (λ h. cc) v)

Others-Keeps {ℓ} : {T : Type ℓ} {b c : Throttle T} → Keeps b → Others b c → Keeps c
Others-Keeps {b} v (stores x free e) = subst Keeps (sym e) (record {
  pending = λ h. (b.pushed, refl);
  fresh = λ h. cc;
  taken = λ h. refl;
  unset = λ h. cc (ap holds_mutex h);
  to_wake = λ h n. omega arith;
})
Others-Keeps {b} v (notifies n k e) = subst Keeps (sym e) (record {
  pending = v.pending;
  fresh = v.fresh;
  taken = λ h. v.taken (awake-sending b.phase h);
  unset = λ h. v.unset (awake-falling b.phase h);
  to_wake = λ h. absurd (awake-asleep b.phase h);
})
Others-Keeps v (stops e) = subst Keeps (sym e) (record {
  pending = v.pending;
  fresh = v.fresh;
  taken = v.taken;
  unset = v.unset;
  to_wake = v.to_wake;
})
Others-Keeps {b} v (notifies_all s e) = subst Keeps (sym e) (record {
  pending = v.pending;
  fresh = v.fresh;
  taken = λ h. v.taken (awake-sending b.phase h);
  unset = λ h. v.unset (awake-falling b.phase h);
  to_wake = λ h. absurd (awake-asleep b.phase h);
})
Others-Keeps v (ticks e) = subst Keeps (sym e) (record {
  pending = v.pending;
  fresh = v.fresh;
  taken = v.taken;
  unset = v.unset;
  to_wake = v.to_wake;
})
Others-Keeps v (wakes_spuriously p e) =
    subst Keeps (sym e) (moves-Keeps testing (λ h. cc) (λ h. cc) (λ h. cc) v)

pub make_throttle-Keeps {ℓ} : {T : Type ℓ} (item : T) → Keeps (make_throttle item)
make_throttle-Keeps item = record {
  pending = λ h. cc;
  fresh = λ h. tt;
  taken = λ h. cc;
  unset = λ h. cc;
  to_wake = λ h. cc;
}

module _ {ℓ} {T : Type ℓ} (delay : ℕ) where
  pub Reach-Keeps : {b c : Throttle T} → Keeps b → Reach delay b c → Keeps c
  Reach-Keeps v here = v
  Reach-Keeps v (next r (runs m)) = Runs-Keeps (Reach-Keeps v r) m
  Reach-Keeps v (next r (others m)) = Others-Keeps (Reach-Keeps v r) m

  -- Whatever push(), the destructor, time and spurious wake-ups do: when the worker sleeps and no
  -- call of push() is to notify it any more, the newest item that was pushed is the newest that was
  -- sent, and nothing was sent if nothing was pushed.
  pub sleeps-UpToDate :
      (item : T) (b : Throttle T)
      → Reach delay (make_throttle item) b
      → b.phase ≡ asleep
      → b.notifying ≡ 0
      → UpToDate b.pushed b.sent
  sleeps-UpToDate item b r p n =
      let v = Reach-Keeps (make_throttle-Keeps item) r in
      elim (Bool-cases b.new_data) [
        | inl waiting ↦ absurd (omega (arith, v.to_wake p waiting))
        | inr sent ↦ v.fresh sent
      ]
