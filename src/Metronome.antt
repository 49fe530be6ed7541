-- ===== src/Metronome.antt =====
-- A Metronome (core/src/metronome.cpp): its worker thread among calls of stop() by others, in steps
-- between which another thread may run, and what get() and check() do.
pub mod Beats
pub mod Stopped
use superflow.Base.{
  ℕ, suc, ◌+◌, ◌-◌, ◌≤◌, ◌<◌, ◌≡◌, Bool, true, false, List, [], ◌∷◌, Outcome, returns, throws,
  waits, undefined, runtime_error, unknown, ◌>>=◌,
}

-- Where the worker is. At `testing` and `falling_asleep` it has the mutex. `failed`: the function has
-- thrown, which ends the thread.
pub data Phase : Type 0 where
  looping : Phase
  testing : Phase
  falling_asleep : Phase
  asleep : Phase
  calling : Phase
  ended : Phase
  failed : Phase

abbrev pub holds_mutex : Phase → Bool
holds_mutex testing = true
holds_mutex falling_asleep = true
holds_mutex _ = false

-- `notifying`: stop() has set the flag and is to notify. `calls`: when each call of the function
-- began, and what it was given, the last first; the clock is read once the wait is over, and the call
-- begins with that. `late_calls`: how many calls have returned since stop().
pub record Metronome : Type 0 where
  pub has_stopped : Bool
  pub phase : Phase
  pub now : ℕ
  pub first_time_point : ℕ
  pub time_point : ℕ
  pub notifying : Bool
  pub calls : List (ℕ × ℕ)
  pub late_calls : ℕ

abbrev pub make_metronome : ℕ → Metronome
make_metronome now = record {
  has_stopped = false;
  phase = looping;
  now = now;
  first_time_point = now;
  time_point = now;
  notifying = false;
  calls = [];
  late_calls = 0;
}

abbrev pub awake : Phase → Phase
awake asleep = testing
awake p = p

abbrev pub count_late : Bool → ℕ → ℕ
count_late true n = suc n
count_late false n = n

-- The worker's steps
pub data Works (period : ℕ) (b c : Metronome) : Type 0 where
  begins_round :
      b.phase ≡ looping
      → b.has_stopped ≡ false
      → c ≡ record b { phase = testing; time_point = b.time_point + period }
      → Works period b c
  leaves_loop :
      b.phase ≡ looping → b.has_stopped ≡ true → c ≡ record b { phase = ended } → Works period b c
  finds_stopped :
      b.phase ≡ testing → b.has_stopped ≡ true → c ≡ record b { phase = ended } → Works period b c
  finds_due :
      b.phase ≡ testing
      → b.has_stopped ≡ false
      → b.time_point ≤ b.now
      → c ≡ record b { phase = calling; calls = (b.now, b.now - b.first_time_point) ∷ b.calls }
      → Works period b c
  finds_early :
      b.phase ≡ testing
      → b.has_stopped ≡ false
      → b.now < b.time_point
      → c ≡ record b { phase = falling_asleep }
      → Works period b c
  sleeps : b.phase ≡ falling_asleep → c ≡ record b { phase = asleep } → Works period b c
  times_out :
      b.phase ≡ asleep → b.time_point ≤ b.now → c ≡ record b { phase = testing } → Works period b c
  returns_from :
      b.phase ≡ calling
      → c ≡ record b { phase = looping; late_calls = count_late b.has_stopped b.late_calls }
      → Works period b c
  fails : b.phase ≡ calling → c ≡ record b { phase = failed } → Works period b c

-- stop() in its two steps, the first with the mutex; time; a spurious wake-up
pub data Others (b c : Metronome) : Type 0 where
  stops :
      holds_mutex b.phase ≡ false
      → b.has_stopped ≡ false
      → c ≡ record b { has_stopped = true; notifying = true }
      → Others b c
  notifies :
      b.notifying ≡ true → c ≡ record b { phase = awake b.phase; notifying = false } → Others b c
  ticks : c ≡ record b { now = suc b.now } → Others b c
  wakes_spuriously : b.phase ≡ asleep → c ≡ record b { phase = testing } → Others b c

pub data Step (period : ℕ) (b c : Metronome) : Type 0 where
  works : Works period b c → Step period b c
  others : Others b c → Step period b c

pub data Reach (period : ℕ) (b : Metronome) : Metronome → Type 0 where
  here : Reach period b b
  next : {c d : Metronome} → Reach period b c → Step period c d → Reach period b d

-- The future of the worker; `taken`: its result has been taken, and it has no state any more.
pub data Worker : Type 0 where
  at_work : Worker
  has_ended : Worker
  has_thrown : Worker
  taken : Worker

unfoldable pub get : Worker → Outcome Worker × Worker
get at_work = (waits, at_work)
get has_ended = (returns taken, taken)
get has_thrown = (throws unknown, taken)
get taken = (throws runtime_error, taken)

-- `wait_for` is undefined on a future without a state.
unfoldable pub check : Worker → Outcome Worker × Worker
unfolding get
check at_work = (returns at_work, at_work)
check has_ended = get has_ended
check has_thrown = get has_thrown
check taken = (undefined, taken)
