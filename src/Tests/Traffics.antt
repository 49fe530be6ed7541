-- ===== src/Tests/Traffics.antt =====
-- Data, signals, wake-ups and streams at concrete inputs.
use superflow.Base.{
  ℕ, ◌+◌, ◌≡◌, refl, true, false, List, [], ◌∷◌, ◌++◌, map, none, some, arith, if◌then◌else◌,
  runtime_error, not, is_empty,
}
use superflow.Map.{lookup, nat_key}
use superflow.Port.{contains}
use superflow.Consumer.{count_transaction}
use superflow.Traffic.{
  returned, threw, Method, Traffic, receive, Consumers, send, request_all, request_void,
}
use superflow.Traffic.Deliver.{no_repeats, port_of, each_callback, send-all, send-interrupted}
use superflow.Traffic.Answers.{each_answer, request_all-answers}
use superflow.Registry.{has}
use superflow.Signals.{Handlers, register_handler, register_all, unregister_all}
use superflow.Signals.Registered.{
  IsValid, registered, set_of, register-IsValid, registered-register,
}
use superflow.Signals.Lifetime.{unregister_all-register_all}
use superflow.Blocker.{
  Blocker, Reach, Step, outside, asleep, Blocks, begins, finds_unreleased, sleeps, stores, notifies,
  blocks, others, here, next,
}
use superflow.Blocker.Wakeup.{release_is_missed, asleep-HasWindow, HasWindow}
use superflow.DataStream.{Stream, visit}
use superflow.DataStream.Visit.{Yields, item, cut, visit_lem}

-- The callbacks note the port and the data. Port 9 throws.
abbrev note : ℕ → ℕ → Method (List ℕ) (Unit {0})
note port d u =
    if contains port (9 ∷ []) then threw runtime_error u else returned tt (u ++ port ∷ d ∷ [])

abbrev plus_base : ℕ → ℕ → ℕ
plus_base base d = base + d

abbrev before_send : Traffic (List ℕ)
before_send = record { counts = λ x. x; world = [] }

abbrev two_consumers : Consumers
two_consumers = (1, none) ∷ (2, some 100) ∷ []

three_ports : no_repeats (5 ∷ map port_of two_consumers) ≡ true
unfolding contains
three_ports = refl

two_ports : no_repeats (5 ∷ 1 ∷ []) ≡ true
unfolding contains
two_ports = refl

both_note : each_callback plus_base note two_consumers 7 [] ≡ returned tt (1 ∷ 7 ∷ 2 ∷ 107 ∷ [])
unfolding each_callback contains
both_note = refl

one_notes : each_callback plus_base note ((1, none) ∷ []) 7 [] ≡ returned tt (1 ∷ 7 ∷ [])
unfolding each_callback contains
one_notes = refl

nine_throws : note 9 7 (1 ∷ 7 ∷ []) ≡ threw runtime_error (1 ∷ 7 ∷ [])
unfolding contains
nine_throws = refl

-- A responder notes its number and adds it.
abbrev answer_sum : ℕ → ℕ → Method (List ℕ) ℕ
answer_sum port d u = returned (port + d) (u ++ port ∷ [])

both_answer :
    each_answer answer_sum plus_base (1 ∷ 2 ∷ []) 7 [] ≡ returned (8 ∷ 9 ∷ []) (1 ∷ 2 ∷ [])
unfolding each_answer
both_answer = refl

send-all_example :
    (after_send : Traffic (List ℕ)) × (send plus_base (receive note) 5 two_consumers 7 before_send
      ≡ returned tt after_send)
    × (after_send.world ≡ 1 ∷ 7 ∷ 2 ∷ 107 ∷ [])
    × ((x : ℕ)
        → after_send.counts x
          ≡ (if contains x (5 ∷ map port_of two_consumers) then count_transaction x else x))
send-all_example =
    send-all plus_base note 5 two_consumers 7 before_send (1 ∷ 7 ∷ 2 ∷ 107 ∷ []) three_ports
      both_note

send-interrupted_example :
    (after_send : Traffic (List ℕ)) × (send plus_base
        (receive note)
        5
        ((1, none) ∷ (9, none) ∷ (2, none) ∷ [])
        7
        before_send
      ≡ threw runtime_error after_send)
    × (after_send.world ≡ 1 ∷ 7 ∷ [])
    × ((x : ℕ) → after_send.counts x ≡ (if contains x (5 ∷ 1 ∷ []) then count_transaction x else x))
send-interrupted_example =
    send-interrupted plus_base note 5 9 none ((1, none) ∷ []) ((2, none) ∷ []) 7 before_send
      (1 ∷ 7 ∷ []) (1 ∷ 7 ∷ []) runtime_error two_ports one_notes nine_throws

request_all-answers_example :
    (after_request after_void : Traffic (List ℕ)) × (request_all answer_sum plus_base 5
        (1 ∷ 2 ∷ [])
        7
        before_send
      ≡ returned (8 ∷ 9 ∷ []) after_request)
    × (request_void answer_sum plus_base 5 (1 ∷ 2 ∷ []) 7 before_send ≡ returned tt after_void)
    × (after_request.world ≡ 1 ∷ 2 ∷ [])
    × (after_void.world ≡ 1 ∷ 2 ∷ [])
    × ((x : ℕ)
        → (after_request.counts x
            ≡ (if contains x (5 ∷ 1 ∷ 2 ∷ []) then count_transaction x else x))
          × (after_void.counts x ≡ after_request.counts x))
request_all-answers_example =
    request_all-answers answer_sum plus_base 5 (1 ∷ 2 ∷ []) 7 before_send (1 ∷ 2 ∷ []) (8 ∷ 9 ∷ [])
      three_ports both_answer

-- Handler 7 is registered for signal 2.
abbrev no_handlers : Handlers
no_handlers = record { handlers = []; installed = λ s. false }

no_handlers-IsValid : IsValid no_handlers
unfolding lookup has
no_handlers-IsValid = record { sorted = tt; sets = λ s set l. cc; in_step = λ s. refl }

abbrev seven : Handlers
seven = register_handler 2 7 no_handlers

seven-IsValid : IsValid seven
seven-IsValid = register-IsValid 2 7 no_handlers no_handlers-IsValid

eight_unknown : (s : ℕ) → registered 8 s seven ≡ false
unfolding registered set_of lookup has
eight_unknown s = ground (arith, registered-register 2 7 no_handlers no_handlers-IsValid 8 s)

unregister_all-register_all_example :
    ((x s : ℕ)
      → registered x s (unregister_all (2 ∷ 15 ∷ 2 ∷ []) 8 (register_all (2 ∷ 15 ∷ 2 ∷ []) 8 seven))
        ≡ registered x s seven)
    × ((s : ℕ)
        → (unregister_all (2 ∷ 15 ∷ 2 ∷ []) 8 (register_all (2 ∷ 15 ∷ 2 ∷ []) 8 seven)).installed s
          ≡ seven.installed s)
unregister_all-register_all_example =
    unregister_all-register_all (2 ∷ 15 ∷ 2 ∷ []) 8 seven seven-IsValid eight_unknown

abbrev fresh : Blocker
fresh = record { is_released = false; phase = outside; notifying = 0 }

release_is_missed_example :
    (e : Blocker) × Reach Step fresh e
    × (e.phase ≡ asleep)
    × (e.is_released ≡ true)
    × (e.notifying ≡ 0)
    × ((f : Blocker) → ¬ (Blocks e f))
release_is_missed_example = release_is_missed fresh refl refl refl

-- Two calls of release() overlap, before the thread sleeps.
abbrev missed : Blocker
missed = record { is_released = true; phase = asleep; notifying = 0 }

released_twice : Reach Step fresh missed
released_twice =
    let fell_asleep =
      next (next here (blocks (begins refl refl refl)))
        (blocks (finds_unreleased refl refl refl)) in
    let set_twice = next (next fell_asleep (others (stores refl))) (others (stores refl)) in
    let told_twice =
      next (next set_twice (others (notifies 1 refl refl))) (others (notifies 0 refl refl)) in
    next told_twice (blocks (sleeps refl refl))

asleep-HasWindow_example : HasWindow released_twice
asleep-HasWindow_example = asleep-HasWindow fresh missed refl released_twice refl refl refl

-- A stream that is alive while it has values
abbrev of_list : Stream (List ℕ) ℕ
of_list = record {
  get_next = λ xs. elim xs [ [] ↦ (none, []) | x ∷ rest ↦ (some x, rest) ];
  alive = λ xs. not (is_empty xs);
}

one_and_two : Yields of_list (1 ∷ 2 ∷ []) (1 ∷ []) []
one_and_two = item 1 [] refl refl (cut 2 refl refl)

visit_lem_example : visit of_list 2 (1 ∷ 2 ∷ []) ≡ some (some 1 ∷ [], [])
visit_lem_example = visit_lem of_list 2 (1 ∷ 2 ∷ []) [] (1 ∷ []) (omega arith) refl one_and_two
