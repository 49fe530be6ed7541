-- ===== src/Traffic/Answers.antt =====
-- What the requests of RequesterPort, MultiRequesterPort and InterfacePort (core/include/superflow)
-- give, and what they count.
use superflow.Base.{
  ℕ, ◌≡◌, refl, ap, ◌∙◌, Bool, true, List, [], ◌∷◌, ◌++◌, Option, none, some, Exception,
  runtime_error, if◌then◌else◌, ◌==◌, arith, inl, inr, Bool-cases,
}
use superflow.Port.{contains}
use superflow.Consumer.{count_transaction}
use superflow.Traffic.{
  Call, returned, threw, Method, after, after-returned, ◌>>=◌, pure, Traffic, with_world, bump,
  count, call, respond, respond_as, request, ask_all, request_all, tell_all, request_void, host_get,
  client_get,
}
use superflow.Traffic.Deliver.{tally, no_repeats, tally_once, same_world}

-- The answers are not used.
forget {ℓ κ} :
    {S : Type ℓ} {R : Type κ} (r : R) (c : Call S (List R))
    → after {B = Unit {0}} c (λ _. pure tt) ≡ after (after c (λ rs. pure (r ∷ rs))) (λ _. pure tt)
forget r (returned rs t) = refl
forget r (threw e t) = refl

forget_each {ℓ κ} :
    {S : Type ℓ} {R : Type κ} (tell : Method S (Unit {0})) (ask : Method S (List R)) (c : Call S R)
    → ((t : S) → tell t ≡ after (ask t) (λ _. pure tt))
    → after c (λ _. tell) ≡ after (after c (λ r. ask >>= λ rs. pure (r ∷ rs))) (λ _. pure tt)
forget_each tell ask (returned r t) ih = ih t ∙ forget r (ask t)
forget_each tell ask (threw e t) ih = refl

-- It makes no difference whether a port counts before the others or behind them.
last_counted :
    (self : ℕ) (slaves : List ℕ) (counts : ℕ → ℕ) (x : ℕ)
    → no_repeats (self ∷ slaves) ≡ true
    → bump self (tally slaves counts) x ≡ tally (self ∷ slaves) counts x
unfolding bump contains
last_counted self slaves counts x n = elim (Bool-cases (x == self)) [
  | inl e ↦
      let same : x ≡ self = ground arith in
      ground (
        arith,
        tally_once slaves counts x,
        tally_once (self ∷ slaves) counts x,
        ap (λ y. contains y slaves) same,
      )
  | inr d ↦ ground (arith, tally_once slaves counts x, tally_once (self ∷ slaves) counts x)
]

module _ {U A R : Type 0} (callback : ℕ → A → Method U R) (convert : ℕ → R → R) where
  -- What a requester that was connected by a variant gets
  abbrev pub answer : Option ℕ → R → R
  answer none r = r
  answer (some variant) r = convert variant r

  respond-returned :
      (port : ℕ) (args : A) (counts : ℕ → ℕ) (u v : U) (r : R)
      → callback port args u ≡ returned r v
      → respond callback convert port args (record { counts = counts; world = u })
        ≡ returned r (record { counts = bump port counts; world = v })
  unfolding respond call count
  respond-returned port args counts u v r h = rw h refl

  respond-threw :
      (port : ℕ) (args : A) (counts : ℕ → ℕ) (u v : U) (e : Exception)
      → callback port args u ≡ threw e v
      → respond callback convert port args (record { counts = counts; world = u })
        ≡ threw e (record { counts = counts; world = v })
  unfolding respond call count
  respond-threw port args counts u v e h = rw h refl

  respond_as-returned :
      (variant : Option ℕ) (port : ℕ) (args : A) (counts : ℕ → ℕ) (u v : U) (r : R)
      → callback port args u ≡ returned r v
      → respond_as callback convert variant port args (record { counts = counts; world = u })
        ≡ returned (answer variant r) (record { counts = bump port counts; world = v })
  unfolding respond_as
  respond_as-returned none port args counts u v r h = respond-returned port args counts u v r h
  respond_as-returned (some variant) port args counts u v r h =
      rw (respond-returned port args counts u v r h) refl

  respond_as-threw :
      (variant : Option ℕ) (port : ℕ) (args : A) (counts : ℕ → ℕ) (u v : U) (e : Exception)
      → callback port args u ≡ threw e v
      → respond_as callback convert variant port args (record { counts = counts; world = u })
        ≡ threw e (record { counts = counts; world = v })
  unfolding respond_as
  respond_as-threw none port args counts u v e h = respond-threw port args counts u v e h
  respond_as-threw (some variant) port args counts u v e h =
      rw (respond-threw port args counts u v e h) refl

  -- A request with no connection throws and changes nothing. Otherwise it does what the responder's
  -- callback does, with the result converted if it was connected by a variant; the requester counts
  -- the request in any case, the responder only if the callback returns.
  pub request_outcome :
      (self port : ℕ) (variant : Option ℕ) (args : A) (s : Traffic U)
      → (request callback convert self none args s ≡ threw runtime_error s)
        × ((r : R) (v : U)
            → callback port args s.world ≡ returned r v
            → request callback convert self (some (port, variant)) args s
              ≡ returned
                  (answer variant r)
                  (record { counts = bump port (bump self s.counts); world = v }))
        × ((e : Exception) (v : U)
            → callback port args s.world ≡ threw e v
            → request callback convert self (some (port, variant)) args s
              ≡ threw e (record { counts = bump self s.counts; world = v }))
  unfolding request count
  request_outcome self port variant args s = (
    refl,
    λ r v h. respond_as-returned variant port args (bump self s.counts) s.world v r h,
    λ e v h. respond_as-threw variant port args (bump self s.counts) s.world v e h,
  )

  -- The callbacks of the responders, one after the other
  unfoldable pub each_answer : List ℕ → A → Method U (List R)
  each_answer [] args = pure []
  each_answer (slave ∷ slaves) args = do
    response ← callback slave args
    responses ← each_answer slaves args
    pure (response ∷ responses)

  ask_all-returned :
      (slaves : List ℕ) (args : A) (counts : ℕ → ℕ) (u v : U) (rs : List R)
      → each_answer slaves args u ≡ returned rs v
      → ask_all callback convert slaves args (record { counts = counts; world = u })
        ≡ returned rs (record { counts = tally slaves counts; world = v })
  unfolding each_answer ask_all tally
  ask_all-returned [] args counts u v rs h =
      ap (with_world (record { counts = counts; world = u })) h
  ask_all-returned (slave ∷ slaves) args counts u v rs h =
      let (r, w, e, k) = after-returned (callback slave args u) _ h in
      let (rest, z, e2, k2) = after-returned (each_answer slaves args w) _ k in
      rw (respond-returned slave args counts u w r e) (
        rw (ask_all-returned slaves args (bump slave counts) w z rest e2)
          (ap (with_world (record { counts = tally slaves (bump slave counts); world = u })) k2))

  ask_all-interrupted :
      (before : List ℕ) (slave : ℕ) (slaves : List ℕ) (args : A) (counts : ℕ → ℕ) (u v w : U)
      (rs : List R) (e : Exception)
      → each_answer before args u ≡ returned rs v
      → callback slave args v ≡ threw e w
      → ask_all callback convert
          (before ++ slave ∷ slaves)
          args
          (record { counts = counts; world = u })
        ≡ threw e (record { counts = tally before counts; world = w })
  unfolding each_answer ask_all tally
  ask_all-interrupted [] slave slaves args counts u v w rs e h t =
      let same : u ≡ v = same_world h in rw (respond-threw slave args counts u w e (rw same t)) refl
  ask_all-interrupted (first ∷ before) slave slaves args counts u v w rs e h t =
      let (r, x, e1, k) = after-returned (callback first args u) _ h in
      let (rest, z, e2, k2) = after-returned (each_answer before args x) _ k in
      let same : z ≡ v = same_world k2 in
      rw (respond-returned first args counts u x r e1) (
        rw
          (ask_all-interrupted before slave slaves args (bump first counts) x z w rest e e2
            (rw same t))
          refl)

  tell_all-ask_all :
      (slaves : List ℕ) (args : A) (s : Traffic U)
      → tell_all callback convert slaves args s
        ≡ after (ask_all callback convert slaves args s) (λ _. pure tt)
  unfolding tell_all ask_all
  tell_all-ask_all [] args s = refl
  tell_all-ask_all (slave ∷ slaves) args s =
      forget_each (tell_all callback convert slaves args) (ask_all callback convert slaves args)
        (respond callback convert slave args s) (tell_all-ask_all slaves args)

  -- A MultiRequesterPort whose responders are all different ports, and not itself, and whose
  -- callbacks all return gets their answers in the order of the responders, and it and each of them
  -- count one transaction. The variant without results runs the same callbacks and counts the same.
  pub request_all-answers :
      (self : ℕ) (slaves : List ℕ) (args : A) (s : Traffic U) (v : U) (rs : List R)
      → no_repeats (self ∷ slaves) ≡ true
      → each_answer slaves args s.world ≡ returned rs v
      → (after_request after_void : Traffic U) × (request_all callback convert self slaves args s
          ≡ returned rs after_request)
        × (request_void callback convert self slaves args s ≡ returned tt after_void)
        × (after_request.world ≡ v)
        × (after_void.world ≡ v)
        × ((x : ℕ)
            → (after_request.counts x ≡ (
                if contains x (self ∷ slaves) then count_transaction (s.counts x) else s.counts x))
              × (after_void.counts x ≡ after_request.counts x))
  unfolding request_all request_void count tally
  request_all-answers self slaves args s v rs n h = (
    record { counts = tally (self ∷ slaves) s.counts; world = v },
    record { counts = bump self (tally slaves s.counts); world = v },
    ask_all-returned slaves args (bump self s.counts) s.world v rs h,
    rw (tell_all-ask_all slaves args s, ask_all-returned slaves args s.counts s.world v rs h) refl,
    refl,
    refl,
    λ x. (tally_once (self ∷ slaves) s.counts x n, last_counted self slaves s.counts x n),
  )

  -- If a responder's callback throws, both variants throw the same, the responders before it have
  -- counted and the rest have not been asked. The variant with results has counted the request, and
  -- the one without has not.
  pub request-interrupted :
      (self : ℕ) (before : List ℕ) (slave : ℕ) (slaves : List ℕ) (args : A) (s : Traffic U)
      (v w : U) (rs : List R) (e : Exception)
      → each_answer before args s.world ≡ returned rs v
      → callback slave args v ≡ threw e w
      → (request_all callback convert self (before ++ slave ∷ slaves) args s
          ≡ threw e (record { counts = tally before (bump self s.counts); world = w }))
        × (request_void callback convert self (before ++ slave ∷ slaves) args s
            ≡ threw e (record { counts = tally before s.counts; world = w }))
  unfolding request_all request_void count
  request-interrupted self before slave slaves args s v w rs e h t = (
    ask_all-interrupted before slave slaves args (bump self s.counts) s.world v w rs e h t,
    rw
        (
          tell_all-ask_all (before ++ slave ∷ slaves) args s,
          ask_all-interrupted before slave slaves args s.counts s.world v w rs e h t,
        )
        refl,
  )

module _ {U I : Type 0} (handle : ℕ → I) (connected : ℕ → Bool) where
  -- `get` of a client: it counts whether or not it has a host, and the host counts whether or not it
  -- has a connection. It returns the host's interface exactly if both are connected.
  pub client_get_outcome :
      (self host : ℕ) (s : Traffic U)
      → (client_get handle connected self none s
          ≡ threw runtime_error (record s { counts = bump self s.counts }))
        × (client_get handle connected self (some host) s ≡ (
            if connected host
            then returned (handle host) (record s { counts = bump host (bump self s.counts) })
            else threw runtime_error (record s { counts = bump host (bump self s.counts) })))
  unfolding client_get host_get count
  client_get_outcome self host s =
      (refl, elim (Bool-cases (connected host)) [ inl e ↦ rw e refl | inr e ↦ rw e refl ])
