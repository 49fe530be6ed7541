-- ===== src/Traffic/Deliver.antt =====
-- What ProducerPort::send (core/include/superflow/producer_port.h) does to its consumers.
use superflow.Base.{
  ℕ, ◌≡◌, refl, sym, ap, ◌∙◌, Bool, true, false, List, [], ◌∷◌, ◌++◌, map, append-nil, ◌==◌,
  if◌then◌else◌, Option, none, some, Exception, arith, Bool-cases, ◌&&◌, not, inl, inr,
}
use superflow.Port.{contains}
use superflow.Consumer.{count_transaction}
use superflow.Traffic.{
  Call, returned, threw, Method, after-returned, ◌>>◌, pure, Traffic, bump, count, call, receive,
  Consumers, receive_as, deliver, send,
}

-- Each of the ports counts a transaction.
unfoldable pub tally : List ℕ → (ℕ → ℕ) → ℕ → ℕ
unfolding bump
tally [] counts = counts
tally (port ∷ ports) counts = tally ports (bump port counts)

-- No port twice
abbrev pub no_repeats : List ℕ → Bool
no_repeats [] = true
no_repeats (x ∷ xs) = not (contains x xs) && no_repeats xs

tally_absent :
    (ports : List ℕ) (counts : ℕ → ℕ) (x : ℕ)
    → contains x ports ≡ false
    → tally ports counts x ≡ counts x
unfolding tally bump contains
tally_absent [] counts x h = refl
tally_absent (p ∷ ports) counts x h = ground (arith, tally_absent ports (bump p counts) x)

pub tally_once :
    (ports : List ℕ) (counts : ℕ → ℕ) (x : ℕ)
    → no_repeats ports ≡ true
    → tally ports counts x ≡ (if contains x ports then count_transaction (counts x) else counts x)
unfolding tally bump contains
tally_once [] counts x h = refl
tally_once (p ∷ ports) counts x h = elim (Bool-cases (x == p)) [
  | inl e ↦
      let same : x ≡ p = ground arith in
      ground (arith, tally_absent ports (bump p counts) x, ap (λ y. contains y ports) same)
  | inr n ↦ ground (arith, tally_once ports (bump p counts) x)
]

pub same_world {ℓ κ} :
    {U : Type ℓ} {A : Type κ} {a b : A} {u v : U}
    → ◌≡◌ {A = Call U A} (returned a u) (returned b v)
    → u ≡ v
same_world e = cc

abbrev pub port_of : ℕ × Option ℕ → ℕ
port_of c = c.0

module _ {U T : Type 0} (convert : ℕ → T → T) (callback : ℕ → T → Method U (Unit {0})) where
  -- What a consumer that was connected by a base type gets
  abbrev pub view : Option ℕ → T → T
  view none t = t
  view (some base) t = convert base t

  -- The callbacks of the consumers, one after the other, each on its own view of the data
  unfoldable pub each_callback : Consumers → T → Method U (Unit {0})
  each_callback [] t = pure tt
  each_callback ((port, base) ∷ consumers) t =
      callback port (view base t) >> each_callback consumers t

  receive-view :
      (base : Option ℕ) (port : ℕ) (t : T) (s : Traffic U)
      → receive_as convert (receive callback) base port t s ≡ receive callback port (view base t) s
  unfolding receive_as
  receive-view none port t s = refl
  receive-view (some base) port t s = refl

  -- A callback that returns, and one that throws
  receive-returned :
      (port : ℕ) (d : T) (counts : ℕ → ℕ) (u v : U)
      → callback port d u ≡ returned tt v
      → receive callback port d (record { counts = counts; world = u })
        ≡ returned tt (record { counts = bump port counts; world = v })
  unfolding receive call count
  receive-returned port d counts u v h = rw h refl

  receive-threw :
      (port : ℕ) (d : T) (counts : ℕ → ℕ) (u v : U) (e : Exception)
      → callback port d u ≡ threw e v
      → receive callback port d (record { counts = counts; world = u })
        ≡ threw e (record { counts = counts; world = v })
  unfolding receive call count
  receive-threw port d counts u v e h = rw h refl

  deliver-append :
      (before rest : Consumers) (t : T) (counts : ℕ → ℕ) (u v : U)
      → each_callback before t u ≡ returned tt v
      → deliver convert
          (receive callback)
          (before ++ rest)
          t
          (record { counts = counts; world = u })
        ≡ deliver convert
            (receive callback)
            rest
            t
            (record { counts = tally (map port_of before) counts; world = v })
  unfolding each_callback deliver tally
  deliver-append [] rest t counts u v h =
      ap (λ w. deliver convert (receive callback) rest t (record { counts = counts; world = w }))
        (same_world h)
  deliver-append ((port, base) ∷ before) rest t counts u v h =
      let (a, w, e, k) = after-returned (callback port (view base t) u) _ h in
      rw
        (
          receive-view base port t (record { counts = counts; world = u }),
          receive-returned port (view base t) counts u w e,
        )
        (deliver-append before rest t (bump port counts) w v k)

  -- When `send` is called on consumers that are all different ports and not the producer, and their
  -- callbacks return, it returns: each callback has run once, in the order of the consumers, on the
  -- data or on what the consumer's shim makes of it, and exactly the producer and the consumers have
  -- counted one transaction each.
  pub send-all :
      (self : ℕ) (consumers : Consumers) (t : T) (s : Traffic U) (v : U)
      → no_repeats (self ∷ map port_of consumers) ≡ true
      → each_callback consumers t s.world ≡ returned tt v
      → (after_send : Traffic U) × (send convert (receive callback) self consumers t s
          ≡ returned tt after_send)
        × (after_send.world ≡ v)
        × ((x : ℕ)
            → after_send.counts x ≡ (
                if contains x (self ∷ map port_of consumers)
                then count_transaction (s.counts x)
                else s.counts x))
  unfolding send count tally deliver
  send-all self consumers t s v n h = (
    record { counts = tally (self ∷ map port_of consumers) s.counts; world = v },
    ap
          (λ cs.
            deliver convert (receive callback) cs t
              (record { counts = bump self s.counts; world = s.world }))
          (sym (append-nil consumers))
        ∙ deliver-append consumers [] t (bump self s.counts) s.world v h,
    refl,
    λ x. tally_once (self ∷ map port_of consumers) s.counts x n,
  )

  -- When a consumer's callback throws, `send` throws the same: the callbacks before it have run, it
  -- has not counted, and the consumers behind it have got nothing. Exactly the producer and the
  -- consumers before it have counted.
  pub send-interrupted :
      (self port : ℕ) (base : Option ℕ) (before rest : Consumers) (t : T) (s : Traffic U) (v w : U)
      (e : Exception)
      → no_repeats (self ∷ map port_of before) ≡ true
      → each_callback before t s.world ≡ returned tt v
      → callback port (view base t) v ≡ threw e w
      → (after_send : Traffic U) × (send convert
            (receive callback)
            self
            (before ++ (port, base) ∷ rest)
            t
            s
          ≡ threw e after_send)
        × (after_send.world ≡ w)
        × ((x : ℕ)
            → after_send.counts x ≡ (
                if contains x (self ∷ map port_of before)
                then count_transaction (s.counts x)
                else s.counts x))
  unfolding send count tally deliver
  send-interrupted self port base before rest t s v w e n h k = (
    record { counts = tally (self ∷ map port_of before) s.counts; world = w },
    deliver-append before ((port, base) ∷ rest) t (bump self s.counts) s.world v h
        ∙ rw
            (
              receive-view base port t
                  (record { counts = tally (map port_of before) (bump self s.counts); world = v }),
              receive-threw port (view base t) (tally (map port_of before) (bump self s.counts)) v w
                  e k,
            )
            refl,
    refl,
    λ x. tally_once (self ∷ map port_of before) s.counts x n,
  )
