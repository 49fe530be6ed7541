-- ===== src/Tests/Nets.antt =====
-- Two producers and one consumer (producer_port.h, buffered_consumer_port.h).
use superflow.Base.{
  ℕ, ◌≡◌, refl, inr, false, [], ◌∷◌, ◌==◌, arith, some, if◌then◌else◌, invalid_argument,
}
use superflow.Policy.{single, multi}
use superflow.Port.{producer, consumer, multi_consumer, Net, contains}
use superflow.Port.Disconnect.{disconnect, everything}
use superflow.Port.Connect.{connect, done, accepts_data, shares, is_consumer}
use superflow.Port.Admission.{refusal}
use superflow.Port.Wired.{IsWired, Severed, disconnect-Severed, disconnect-IsWired}
use superflow.Port.Joined.{joined}
use superflow.Port.Rollback.{RollsBack}
use superflow.Port.Connected.{connect-joined, connect-RollsBack}

-- Ports 0 and 1 are producers for the consumer 2; all others are free consumers.
abbrev pub two_producers : Net
two_producers x =
    if x == 0
    then record { kind = producer; types = 0 ∷ []; links = 2 ∷ []; slots = [] }
    else if x == 1
    then record { kind = producer; types = 0 ∷ []; links = 2 ∷ []; slots = [] }
    else if x == 2
    then record { kind = consumer multi; types = 0 ∷ []; links = 0 ∷ 1 ∷ []; slots = [] }
    else record { kind = consumer multi; types = 0 ∷ []; links = []; slots = [] }

pub two_producers-IsWired : IsWired two_producers
unfolding contains
two_producers-IsWired = record {
  symmetric = λ x y. ground arith;
  short = λ x b. ground arith;
  typed = λ x y m h. ground arith;
}

disconnect-Severed_example :
    (t : Net) × (disconnect 5 everything 0 two_producers ≡ some t) × Severed two_producers 0 t
disconnect-Severed_example =
    disconnect-Severed 5 0 two_producers two_producers-IsWired (omega arith)

disconnect-IsWired_example :
    (t : Net) × (disconnect 5 everything 0 two_producers ≡ some t)
    × IsWired t
    × ((x : ℕ) → (contains x (t 0).links ≡ false) × (contains 0 (t x).links ≡ false))
disconnect-IsWired_example =
    disconnect-IsWired 5 0 two_producers two_producers-IsWired (omega arith)

-- The single consumer 2 is taken by the producer 0. Ports 3 and 4 are consumers of many streams, of
-- another and of the same type; all others are free producers.
abbrev pub one_taken : Net
one_taken x =
    if x == 0
    then record { kind = producer; types = 0 ∷ []; links = 2 ∷ []; slots = [] }
    else if x == 2
    then record { kind = consumer single; types = 0 ∷ []; links = 0 ∷ []; slots = [] }
    else if x == 3
    then record { kind = multi_consumer; types = 1 ∷ []; links = []; slots = [] }
    else if x == 4
    then record { kind = multi_consumer; types = 0 ∷ []; links = []; slots = [] }
    else record { kind = producer; types = 0 ∷ []; links = []; slots = [] }

pub one_taken-IsWired : IsWired one_taken
unfolding contains
one_taken-IsWired = record {
  symmetric = λ x y. ground arith;
  short = λ x b. ground arith;
  typed = λ x y m h. ground arith;
}

connect-joined_example :
    (t : Net) × (connect 3 1 4 one_taken ≡ done t)
    × IsWired t
    × ((x y : ℕ) → contains y (t x).links ≡ joined one_taken 1 4 x y)
unfolding contains refusal accepts_data shares is_consumer
connect-joined_example =
    connect-joined 3 1 4 one_taken one_taken-IsWired (omega arith) (omega arith) refl refl refl refl
      refl

connect-RollsBack_example : RollsBack (connect 3 3 1 one_taken) invalid_argument one_taken
unfolding contains refusal accepts_data shares is_consumer
connect-RollsBack_example =
    connect-RollsBack 3 3 1 one_taken invalid_argument one_taken-IsWired (omega arith) (omega arith)
      refl refl refl (inr (refl, refl, refl))
