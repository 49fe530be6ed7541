-- ===== src/Throttle.antt =====
-- A Throttle (core/include/superflow/utils/throttle.h): its worker thread among calls of push() and
-- the destructor by others, in steps between which another thread may run. The test at the start of
-- push() has no step: a call that finds stopped_ set and throws the worker's exception changes
-- nothing, and one that goes on may store its item at any later time.
pub mod Fresh
pub mod Pace
pub mod Stopping
use superflow.Base.{ℕ, suc, ◌+◌, ◌≤◌, ◌<◌, ◌≡◌, Bool, true, false, List, [], ◌∷◌}

-- Where the worker is. From `testing` to `falling_asleep`, and while it is `sending`, it has the
-- mutex. `delaying`: in wait_for. `failed`: the callback has thrown, which ends the thread.
pub data Phase : Type 0 where
  looping : Phase
  testing : Phase
  falling_asleep : Phase
  asleep : Phase
  sending : Phase
  delaying : Phase
  ended : Phase
  failed : Phase

abbrev pub holds_mutex : Phase → Bool
holds_mutex testing = true
holds_mutex falling_asleep = true
holds_mutex sending = true
holds_mutex _ = false

-- `item`: data_, which is not read again once it is moved to the callback, before the next push.
-- `until`: when the delay is over. `notifying`: how many calls of push() are to notify. `pushed` and
-- `sent`, the last first: what was pushed, and what the callback has returned from, and when.
pub record Throttle {ℓ} (T : Type ℓ) : Type ℓ where
  pub stopped : Bool
  pub new_data : Bool
  pub item : T
  pub phase : Phase
  pub now : ℕ
  pub until : ℕ
  pub notifying : ℕ
  pub pushed : List T
  pub sent : List (ℕ × T)

-- A Throttle before the first push, with the contents of a default-constructed `data_`
abbrev pub make_throttle {ℓ} : {T : Type ℓ} → T → Throttle T
make_throttle item = record {
  stopped = false;
  new_data = false;
  item = item;
  phase = looping;
  now = 0;
  until = 0;
  notifying = 0;
  pushed = [];
  sent = [];
}

-- A notification; for the worker in wait_for it changes nothing that a later step could not.
abbrev pub awake : Phase → Phase
awake asleep = testing
awake p = p

module _ {ℓ} {T : Type ℓ} where
  -- The steps of run()
  pub data Runs (delay : ℕ) (b c : Throttle T) : Type ℓ where
    locks :
        b.phase ≡ looping → b.stopped ≡ false → c ≡ record b { phase = testing } → Runs delay b c
    leaves_loop :
        b.phase ≡ looping → b.stopped ≡ true → c ≡ record b { phase = ended } → Runs delay b c
    finds_stopped :
        b.phase ≡ testing → b.stopped ≡ true → c ≡ record b { phase = ended } → Runs delay b c
    finds_data :
        b.phase ≡ testing
        → b.stopped ≡ false
        → b.new_data ≡ true
        → c ≡ record b { phase = sending }
        → Runs delay b c
    finds_nothing :
        b.phase ≡ testing
        → b.stopped ≡ false
        → b.new_data ≡ false
        → c ≡ record b { phase = falling_asleep }
        → Runs delay b c
    sleeps : b.phase ≡ falling_asleep → c ≡ record b { phase = asleep } → Runs delay b c
    sends :
        b.phase ≡ sending
        → c ≡ record b {
          new_data = false;
          phase = delaying;
          until = b.now + delay;
          sent = (b.now, b.item) ∷ b.sent;
        }
        → Runs delay b c
    fails : b.phase ≡ sending → c ≡ record b { stopped = true; phase = failed } → Runs delay b c
    times_out :
        b.phase ≡ delaying → b.until ≤ b.now → c ≡ record b { phase = looping } → Runs delay b c
    breaks_off :
        b.phase ≡ delaying → b.stopped ≡ true → c ≡ record b { phase = looping } → Runs delay b c

  -- push() in its two steps, the first with the mutex; the destructor, without it; time; a spurious
  -- wake-up
  pub data Others (b c : Throttle T) : Type ℓ where
    stores :
        (x : T)
        → holds_mutex b.phase ≡ false
        → c ≡ record b {
          item = x;
          new_data = true;
          notifying = suc b.notifying;
          pushed = x ∷ b.pushed;
        }
        → Others b c
    notifies :
        (n : ℕ)
        → b.notifying ≡ suc n
        → c ≡ record b { phase = awake b.phase; notifying = n }
        → Others b c
    stops : c ≡ record b { stopped = true } → Others b c
    notifies_all : b.stopped ≡ true → c ≡ record b { phase = awake b.phase } → Others b c
    ticks : c ≡ record b { now = suc b.now } → Others b c
    wakes_spuriously : b.phase ≡ asleep → c ≡ record b { phase = testing } → Others b c

  pub data Step (delay : ℕ) (b c : Throttle T) : Type ℓ where
    runs : Runs delay b c → Step delay b c
    others : Others b c → Step delay b c

  pub data Reach (delay : ℕ) (b : Throttle T) : Throttle T → Type ℓ where
    here : Reach delay b b
    next : {c d : Throttle T} → Reach delay b c → Step delay c d → Reach delay b d
