-- ===== src/Throttle/Pace.antt =====
-- How often a Throttle sends, and in which order (core/include/superflow/utils/throttle.h).
use superflow.Base.{
  ℕ, suc, ◌+◌, ◌≤◌, ◌≡◌, ◌≢◌, refl, sym, ap, subst, true, false, List, [], ◌∷◌, tail, arith,
  Bool-cases, inl, inr,
}
use superflow.Throttle.{
  Phase, looping, testing, falling_asleep, asleep, sending, delaying, ended, failed, Throttle,
  make_throttle, awake, Runs, locks, leaves_loop, finds_stopped, finds_data, finds_nothing, sleeps,
  sends, fails, times_out, breaks_off, Others, stores, notifies, stops, notifies_all, ticks,
  wakes_spuriously, runs, others, Reach, here, next,
}
use superflow.Throttle.Fresh.{Keeps, Reach-Keeps, make_throttle-Keeps, awake-sending}

-- By this time, the last time of sending lies at least the delay back.
abbrev pub Rested {ℓ} : {T : Type ℓ} → ℕ → List (ℕ × T) → ℕ → Type 0
Rested delay [] now = Unit
Rested delay ((t, x) ∷ sent) now = t + delay ≤ now

-- Between any two times of sending lies the delay.
abbrev pub Spaced {ℓ} : {T : Type ℓ} → ℕ → List (ℕ × T) → Type 0
Spaced delay [] = Unit
Spaced delay ((t, x) ∷ sent) = Rested delay sent t × Spaced delay sent

-- What was sent is some of what was pushed, in the same order.
pub data Picked {ℓ} {T : Type ℓ} : List (ℕ × T) → List T → Type ℓ where
  nothing : Picked [] []
  skipped :
      {sent : List (ℕ × T)} {pushed : List T} (x : T)
      → Picked sent pushed
      → Picked sent (x ∷ pushed)
  taken :
      {sent : List (ℕ × T)} {pushed : List T} (t : ℕ) (x : T)
      → Picked sent pushed
      → Picked ((t, x) ∷ sent) (x ∷ pushed)

Rested-later {ℓ} :
    {T : Type ℓ} (delay : ℕ) (sent : List (ℕ × T)) (m n : ℕ)
    → m ≤ n
    → Rested delay sent m
    → Rested delay sent n
Rested-later delay [] m n h r = tt
Rested-later delay ((t, x) ∷ sent) m n h r = omega arith

record Paced {ℓ} {T : Type ℓ} (delay : ℕ) (b : Throttle T) : Type ℓ where
  spaced : Spaced delay b.sent
  rested : b.stopped ≡ false → b.phase ≢ delaying → Rested delay b.sent b.now
  about_to_send : b.phase ≡ sending → Rested delay b.sent b.now
  rests : b.phase ≡ delaying → Rested delay b.sent b.until
  picked : b.new_data ≡ false → Picked b.sent b.pushed
  picked_before : b.new_data ≡ true → Picked b.sent (tail b.pushed)

awake-delaying : (p : Phase) → awake p ≡ delaying → p ≡ delaying
awake-delaying looping h = cc
awake-delaying testing h = cc
awake-delaying falling_asleep h = cc
awake-delaying asleep h = cc
awake-delaying sending h = cc
awake-delaying delaying h = refl
awake-delaying ended h = cc
awake-delaying failed h = cc

delaying-awake : (p : Phase) → p ≡ delaying → awake p ≡ delaying
delaying-awake p h = ap awake h

skip-tail {ℓ} :
    {T : Type ℓ} (sent : List (ℕ × T)) (pushed : List T)
    → Picked sent (tail pushed)
    → Picked sent pushed
skip-tail sent [] h = h
skip-tail sent (x ∷ pushed) h = skipped x h

module _ {ℓ} {T : Type ℓ} {delay : ℕ} where
  all_picked : (b : Throttle T) → Paced delay b → Picked b.sent b.pushed
  all_picked b v = elim (Bool-cases b.new_data) [
    | inl full ↦ skip-tail b.sent b.pushed (v.picked_before full)
    | inr none_new ↦ v.picked none_new
  ]

  Runs-Paced : {b c : Throttle T} → Keeps b → Paced delay b → Runs delay b c → Paced delay c
  Runs-Paced {b} k v (locks p s e) = subst (Paced delay) (sym e) (record {
    spaced = v.spaced;
    rested = λ u n. v.rested u (λ h. cc);
    about_to_send = λ h. cc;
    rests = λ h. cc;
    picked = v.picked;
    picked_before = v.picked_before;
  })
  Runs-Paced {b} k v (leaves_loop p s e) = subst (Paced delay) (sym e) (record {
    spaced = v.spaced;
    rested = λ u n. v.rested u (λ h. cc);
    about_to_send = λ h. cc;
    rests = λ h. cc;
    picked = v.picked;
    picked_before = v.picked_before;
  })
  Runs-Paced {b} k v (finds_stopped p s e) = subst (Paced delay) (sym e) (record {
    spaced = v.spaced;
    rested = λ u n. v.rested u (λ h. cc);
    about_to_send = λ h. cc;
    rests = λ h. cc;
    picked = v.picked;
    picked_before = v.picked_before;
  })
  Runs-Paced {b} k v (finds_data p s n e) = subst (Paced delay) (sym e) (record {
    spaced = v.spaced;
    rested = λ u n. v.rested u (λ h. cc);
    about_to_send = λ h. v.rested s (λ h. cc);
    rests = λ h. cc;
    picked = v.picked;
    picked_before = v.picked_before;
  })
  Runs-Paced {b} k v (finds_nothing p s n e) = subst (Paced delay) (sym e) (record {
    spaced = v.spaced;
    rested = λ u m. v.rested u (λ h. cc);
    about_to_send = λ h. cc;
    rests = λ h. cc;
    picked = v.picked;
    picked_before = v.picked_before;
  })
  Runs-Paced {b} k v (sleeps p e) = subst (Paced delay) (sym e) (record {
    spaced = v.spaced;
    rested = λ u n. v.rested u (λ h. cc);
    about_to_send = λ h. cc;
    rests = λ h. cc;
    picked = v.picked;
    picked_before = v.picked_before;
  })
  Runs-Paced {b} k v (sends p e) =
      let full = k.taken p in
      let (rest, r) = k.pending full in
      let before : Picked b.sent rest =
        subst (λ l. Picked b.sent (tail l)) r (v.picked_before full) in
      subst (Paced delay) (sym e) (record {
        spaced = (v.about_to_send p, v.spaced);
        rested = λ s n. absurd (n refl);
        about_to_send = λ h. cc;
        rests = λ h. omega arith;
        picked = λ h. subst (Picked ((b.now, b.item) ∷ b.sent)) (sym r) (taken b.now b.item before);
        picked_before = λ h. cc;
      })
  Runs-Paced {b} k v (fails p e) = subst (Paced delay) (sym e) (record {
    spaced = v.spaced;
    rested = λ s. cc;
    about_to_send = λ h. cc;
    rests = λ h. cc;
    picked = v.picked;
    picked_before = v.picked_before;
  })
  Runs-Paced {b} k v (times_out p u e) = subst (Paced delay) (sym e) (record {
    spaced = v.spaced;
    rested = λ s n. Rested-later delay b.sent b.until b.now u (v.rests p);
    about_to_send = λ h. cc;
    rests = λ h. cc;
    picked = v.picked;
    picked_before = v.picked_before;
  })
  Runs-Paced {b} k v (breaks_off p s e) = subst (Paced delay) (sym e) (record {
    spaced = v.spaced;
    rested = λ n. cc;
    about_to_send = λ h. cc;
    rests = λ h. cc;
    picked = v.picked;
    picked_before = v.picked_before;
  })

  Others-Paced : {b c : Throttle T} → Paced delay b → Others b c → Paced delay c
  Others-Paced {b} v (stores x free e) = subst (Paced delay) (sym e) (record {
    spaced = v.spaced;
    rested = v.rested;
    about_to_send = v.about_to_send;
    rests = v.rests;
    picked = λ h. cc;
    picked_before = λ h. all_picked b v;
  })
  Others-Paced {b} v (notifies n k e) = subst (Paced delay) (sym e) (record {
    spaced = v.spaced;
    rested = λ s p. v.rested s (λ h. p (delaying-awake b.phase h));
    about_to_send = λ h. v.about_to_send (awake-sending b.phase h);
    rests = λ h. v.rests (awake-delaying b.phase h);
    picked = v.picked;
    picked_before = v.picked_before;
  })
  Others-Paced {b} v (stops e) = subst (Paced delay) (sym e) (record {
    spaced = v.spaced;
    rested = λ s. cc;
    about_to_send = v.about_to_send;
    rests = v.rests;
    picked = v.picked;
    picked_before = v.picked_before;
  })
  Others-Paced {b} v (notifies_all s e) = subst (Paced delay) (sym e) (record {
    spaced = v.spaced;
    rested = λ s p. v.rested s (λ h. p (delaying-awake b.phase h));
    about_to_send = λ h. v.about_to_send (awake-sending b.phase h);
    rests = λ h. v.rests (awake-delaying b.phase h);
    picked = v.picked;
    picked_before = v.picked_before;
  })
  Others-Paced {b} v (ticks e) = subst (Paced delay) (sym e) (record {
    spaced = v.spaced;
    rested = λ s p. Rested-later delay b.sent b.now (suc b.now) (omega arith) (v.rested s p);
    about_to_send =
        λ h. Rested-later delay b.sent b.now (suc b.now) (omega arith) (v.about_to_send h);
    rests = v.rests;
    picked = v.picked;
    picked_before = v.picked_before;
  })
  Others-Paced {b} v (wakes_spuriously p e) = subst (Paced delay) (sym e) (record {
    spaced = v.spaced;
    rested = λ u n. v.rested u (λ h. cc);
    about_to_send = λ h. cc;
    rests = λ h. cc;
    picked = v.picked;
    picked_before = v.picked_before;
  })

module _ {ℓ} {T : Type ℓ} (delay : ℕ) where
  make_throttle-Paced : (item : T) → Paced delay (make_throttle item)
  make_throttle-Paced item = record {
    spaced = tt;
    rested = λ s p. tt;
    about_to_send = λ h. tt;
    rests = λ h. tt;
    picked = λ h. nothing;
    picked_before = λ h. cc;
  }

  Reach-Paced : {b c : Throttle T} → Keeps b → Paced delay b → Reach delay b c → Paced delay c
  Reach-Paced k v here = v
  Reach-Paced k v (next r (runs m)) = Runs-Paced (Reach-Keeps delay k r) (Reach-Paced k v r) m
  Reach-Paced k v (next r (others m)) = Others-Paced (Reach-Paced k v r) m

  -- Whatever push(), the destructor, time and spurious wake-ups do: between any two items that are
  -- sent lies at least the delay, and what is sent is some of what was pushed, each item at most as
  -- often as it was pushed and in the same order.
  pub sent-Spaced :
      (item : T) (b : Throttle T)
      → Reach delay (make_throttle item) b
      → Spaced delay b.sent × Picked b.sent b.pushed
  sent-Spaced item b r =
      let v = Reach-Paced (make_throttle-Keeps item) (make_throttle-Paced item) r in
      (v.spaced, all_picked b v)
