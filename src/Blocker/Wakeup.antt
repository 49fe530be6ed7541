-- ===== src/Blocker/Wakeup.antt =====
-- When a thread in Blocker::block() wakes up (core/include/superflow/utils/blocker.h).
use superflow.Base.{◌≤◌, ◌⊎◌, inl, inr, Empty, true, false, ◌≡◌, ◌≢◌, refl, sym, subst, arith}
use superflow.Blocker.{
  Phase, outside, testing, falling_asleep, asleep, answered, Blocker, awake, Blocks,
  returns_at_once, begins, finds_released, finds_unreleased, sleeps, stores, notifies, rearms,
  wakes_spuriously, Step, blocks, others, Reach, here, next,
}

-- From any state in which a thread calls block() before a release(), the two may interleave so that
-- the release() is over, the flag is set, and the thread sleeps and has no step of its own.
pub release_is_missed :
    (b : Blocker)
    → b.phase ≡ outside
    → b.is_released ≡ false
    → b.notifying ≡ 0
    → (e : Blocker) × Reach Step b e
      × (e.phase ≡ asleep)
      × (e.is_released ≡ true)
      × (e.notifying ≡ 0)
      × ((f : Blocker) → ¬ (Blocks e f))
release_is_missed b p r n = (
  record { is_released = true; phase = asleep; notifying = 0 },
  next {c = record { is_released = true; phase = falling_asleep; notifying = 0 }}
      (next {c = record { is_released = true; phase = falling_asleep; notifying = 1 }}
        (next {c = record { is_released = false; phase = falling_asleep; notifying = 0 }}
          (next {c = record { is_released = false; phase = testing; notifying = 0 }}
            (next here (blocks (begins p r (ground arith))))
            (blocks (finds_unreleased refl refl refl)))
          (others (stores refl)))
        (others (notifies 0 refl refl)))
      (blocks (sleeps refl refl)),
  refl,
  refl,
  refl,
  stuck,
)
  where
    stuck :
        (f : Blocker) → ¬ (Blocks (record { is_released = true; phase = asleep; notifying = 0 }) f)
    stuck f (returns_at_once q x y) = cc
    stuck f (begins q x y) = cc
    stuck f (finds_released q x y) = cc
    stuck f (finds_unreleased q x y) = cc
    stuck f (sleeps q x) = cc

awake-falling : (p : Phase) → awake p ≡ falling_asleep → p ≡ falling_asleep
awake-falling outside h = cc
awake-falling testing h = cc
awake-falling falling_asleep h = refl
awake-falling asleep h = cc
awake-falling (answered r) h = cc

awake-asleep : (p : Phase) → awake p ≢ asleep
awake-asleep outside h = cc
awake-asleep testing h = cc
awake-asleep falling_asleep h = cc
awake-asleep asleep h = cc
awake-asleep (answered r) h = cc

is_falling : (p : Phase) → (p ≡ falling_asleep) ⊎ (p ≢ falling_asleep)
is_falling outside = inr (λ h. cc)
is_falling testing = inr (λ h. cc)
is_falling falling_asleep = inl refl
is_falling asleep = inr (λ h. cc)
is_falling (answered r) = inr (λ h. cc)

-- In this step a release() sets the flag between the thread's test of it and its sleep.
abbrev pub InWindow : {b c : Blocker} → Step b c → Type 0
InWindow {b} (others (stores e)) = b.phase ≡ falling_asleep
InWindow _ = Empty

-- Such a step is among these.
abbrev pub HasWindow : {b c : Blocker} → Reach Step b c → Type 0
HasWindow here = Empty
HasWindow (next r m) = HasWindow r ⊎ InWindow m

-- What holds as long as there was no such step
record NotMissed (b : Blocker) : Type 0 where
  unset : b.phase ≡ falling_asleep → b.is_released ≡ false
  to_wake : b.phase ≡ asleep → b.is_released ≡ true → 1 ≤ b.notifying

-- A step is in the window, or keeps this.
Step-NotMissed : {b c : Blocker} → NotMissed b → (m : Step b c) → InWindow m ⊎ NotMissed c
Step-NotMissed v (blocks (returns_at_once p r e)) =
    inr (subst NotMissed (sym e) (record { unset = λ h. cc; to_wake = λ h. cc }))
Step-NotMissed v (blocks (begins p r e)) =
    inr (subst NotMissed (sym e) (record { unset = λ h. cc; to_wake = λ h. cc }))
Step-NotMissed v (blocks (finds_released p r e)) =
    inr (subst NotMissed (sym e) (record { unset = λ h. cc; to_wake = λ h. cc }))
Step-NotMissed v (blocks (finds_unreleased p r e)) =
    inr (subst NotMissed (sym e) (record { unset = λ h. r; to_wake = λ h. cc }))
Step-NotMissed v (blocks (sleeps p e)) =
    inr (subst NotMissed (sym e) (record { unset = λ h. cc; to_wake = λ h q. cc (v.unset p) }))
Step-NotMissed {b} v (others (stores e)) = elim (is_falling b.phase) [
  | inl falling ↦ inl falling
  | inr other ↦ inr (
      subst NotMissed (sym e)
        (record { unset = λ h. absurd (other h); to_wake = λ h q. omega arith }))
]
Step-NotMissed {b} v (others (notifies n k e)) = inr (
    subst NotMissed (sym e) (record {
      unset = λ h. v.unset (awake-falling b.phase h);
      to_wake = λ h q. absurd (awake-asleep b.phase h);
    }))
Step-NotMissed v (others (rearms e)) =
    inr (subst NotMissed (sym e) (record { unset = λ h. refl; to_wake = λ h q. cc }))
Step-NotMissed v (others (wakes_spuriously p e)) =
    inr (subst NotMissed (sym e) (record { unset = λ h. cc; to_wake = λ h. cc }))

Reach-NotMissed : {b c : Blocker} → NotMissed b → (r : Reach Step b c) → HasWindow r ⊎ NotMissed c
Reach-NotMissed v here = inr v
Reach-NotMissed v (next r m) = elim (Reach-NotMissed v r) [
  | inl missed ↦ inl (inl missed)
  | inr kept ↦ elim (Step-NotMissed kept m) [
    | inl missed ↦ inl (inr missed)
    | inr kept' ↦ inr kept'
  ]
]

-- Whatever block(), any number of calls of release() and rearm(), and spurious wakeups do: if the
-- thread sleeps while the flag is set and no call of release() is to notify any more, then some
-- release() has set the flag between the thread's test of it and its sleep.
pub asleep-HasWindow :
    (b c : Blocker)
    → b.phase ≡ outside
    → (r : Reach Step b c) → c.phase ≡ asleep
    → c.is_released ≡ true
    → c.notifying ≡ 0
    → HasWindow r
asleep-HasWindow b c p r a f n =
    elim (Reach-NotMissed (record { unset = λ h. cc; to_wake = λ h. cc }) r) [
      | inl missed ↦ missed
      | inr kept ↦ absurd (omega (arith, kept.to_wake a f))
    ]
