-- ===== src/Traffic.antt =====
-- The data that passes over the links: ProducerPort::send, CallbackConsumerPort::receive,
-- RequesterPort::request, ResponderPort::respond, MultiRequesterPort::request and
-- InterfacePort's `get` (core/include/superflow).
pub mod Deliver
pub mod Answers
use superflow.Base.{
  ℕ, ◌≡◌, refl, Bool, true, false, List, [], ◌∷◌, ◌==◌, if◌then◌else◌, Option, none, some,
  Exception, runtime_error,
}
use superflow.Port.{contains}
use superflow.Consumer.{count_transaction}

-- A method that returns or throws, with the state that it leaves
pub data Call {ℓ κ} (S : Type ℓ) (A : Type κ) : Type (ℓ ⊔ κ) where
  returned : A → S → Call S A
  threw : Exception → S → Call S A

abbrev pub Method {ℓ κ} : Type ℓ → Type κ → Type (ℓ ⊔ κ)
Method S A = S → Call S A

abbrev pub after {ℓ κ μ} :
    {S : Type ℓ} {A : Type κ} {B : Type μ} → Call S A → (A → Method S B) → Call S B
after (returned a s) f = f a s
after (threw e s) f = threw e s

-- The parts of a call that returns
pub after-returned {ℓ κ μ} :
    {S : Type ℓ} {A : Type κ} {B : Type μ} (c : Call S A) (f : A → Method S B) {b : B} {t : S}
    → after c f ≡ returned b t
    → (a : A) × (s : S) × (c ≡ returned a s) × (f a s ≡ returned b t)
after-returned (returned a s) f h = (a, s, refl, h)
after-returned (threw e s) f h = cc

infixl 5 ◌>>=◌ ◌>>◌
abbrev pub ◌>>=◌ {ℓ κ μ} :
    {S : Type ℓ} {A : Type κ} {B : Type μ} → Method S A → (A → Method S B) → Method S B
◌>>=◌ m f s = after (m s) f

abbrev pub ◌>>◌ {ℓ μ} : {S : Type ℓ} {B : Type μ} → Method S (Unit {0}) → Method S B → Method S B
m >> k = m >>= λ _. k

abbrev pub pure {ℓ κ} : {S : Type ℓ} {A : Type κ} → A → Method S A
pure a s = returned a s

abbrev pub throw {ℓ κ} : {S : Type ℓ} {A : Type κ} → Exception → Method S A
throw e s = threw e s

-- `counts`: num_transactions_ of each port; `world`: what the user's callbacks act on.
pub record Traffic (U : Type 0) : Type 0 where
  pub counts : ℕ → ℕ
  pub world : U

-- `++num_transactions_`
unfoldable pub bump : ℕ → (ℕ → ℕ) → ℕ → ℕ
unfolding count_transaction
bump port counts x = if x == port then count_transaction (counts x) else counts x

abbrev pub with_world : {U A : Type 0} → Traffic U → Call U A → Call (Traffic U) A
with_world s (returned a u) = returned a (record s { world = u })
with_world s (threw e u) = threw e (record s { world = u })

module _ {U : Type 0} where
  unfoldable pub count : ℕ → Method (Traffic U) (Unit {0})
  unfolding bump
  count port s = returned tt (record s { counts = bump port s.counts })

  -- A call of a user's callback
  unfoldable pub call : {A : Type 0} → Method U A → Method (Traffic U) A
  call callback s = with_world s (callback s.world)

-- `T`: the data; `callback`: the std::function of each CallbackConsumerPort
module _ {U T : Type 0} (callback : ℕ → T → Method U (Unit {0})) where
  -- CallbackConsumerPort::receive
  unfoldable pub receive : ℕ → T → Method (Traffic U) (Unit {0})
  unfolding call count
  receive port t = call (callback port t) >> count port

-- `consumers_` of a ProducerPort: each consumer with the type that it was connected by: `none` for T
-- itself, or a type of the variants, to which a ConsumerShim converts.
abbrev pub Consumers : Type 0
Consumers = List (ℕ × Option ℕ)

-- The first of the variants that the consumer takes
unfoldable pub variant_ptr : List ℕ → List ℕ → Option (Option ℕ)
unfolding contains
variant_ptr [] taken = none
variant_ptr (v ∷ variants) taken =
    if contains v taken then some (some v) else variant_ptr variants taken

-- `types`: those of the producer, T first, then the variants. `taken`: those that the consumer takes.
-- getConsumerPtr<T> || getConsumerPtr<Variants> || ...
unfoldable pub consumer_ptr : List ℕ → List ℕ → Option (Option ℕ)
unfolding contains variant_ptr
consumer_ptr [] taken = none
consumer_ptr (t ∷ variants) taken =
    if contains t taken then some none else variant_ptr variants taken

module _ {U T : Type 0} (convert : ℕ → T → T) (take : ℕ → T → Method (Traffic U) (Unit {0})) where
  -- `receive` of an entry of `consumers_`, with ConsumerShim::receive
  unfoldable pub receive_as : Option ℕ → ℕ → T → Method (Traffic U) (Unit {0})
  receive_as none port t = take port t
  receive_as (some base) port t = take port (convert base t)

  -- The loop of `send`
  unfoldable pub deliver : Consumers → T → Method (Traffic U) (Unit {0})
  unfolding receive_as
  deliver [] t = pure tt
  deliver ((port, base) ∷ consumers) t = receive_as base port t >> deliver consumers t

  -- ProducerPort::send
  unfoldable pub send : ℕ → Consumers → T → Method (Traffic U) (Unit {0})
  unfolding deliver count
  send self consumers t = count self >> deliver consumers t

-- `R`: what the responders return; `callback`: the std::function of each ResponderPort.
-- ResponderVariant and ResponderShim convert a result to another type.
module _ {U A R : Type 0} (callback : ℕ → A → Method U R) (convert : ℕ → R → R) where
  -- ResponderPort::respond. With no result, R is Unit.
  unfoldable pub respond : ℕ → A → Method (Traffic U) R
  unfolding call count
  respond port args = do value ← call (callback port args); count port; pure value

  -- `responder_->respond`, through a ResponderShim if it was connected by a variant
  unfoldable pub respond_as : Option ℕ → ℕ → A → Method (Traffic U) R
  unfolding respond
  respond_as none port args = respond port args
  respond_as (some variant) port args = do value ← respond port args; pure (convert variant value)

  -- RequesterPort::request, where the second argument is `responder_`
  unfoldable pub request : ℕ → Option (ℕ × Option ℕ) → A → Method (Traffic U) R
  unfolding respond_as count
  request self none args = throw runtime_error
  request self (some (port, variant)) args = count self >> respond_as variant port args

  unfoldable pub ask_all : List ℕ → A → Method (Traffic U) (List R)
  unfolding respond
  ask_all [] args = pure []
  ask_all (slave ∷ slaves) args = do
    response ← respond slave args
    responses ← ask_all slaves args
    pure (response ∷ responses)

  -- MultiRequesterPort::request with results; `slaves` is what `slaves_.getAll()` gives.
  unfoldable pub request_all : ℕ → List ℕ → A → Method (Traffic U) (List R)
  unfolding ask_all count
  request_all self slaves args = count self >> ask_all slaves args

  unfoldable pub tell_all : List ℕ → A → Method (Traffic U) (Unit {0})
  unfolding respond
  tell_all [] args = pure tt
  tell_all (slave ∷ slaves) args = do response ← respond slave args; tell_all slaves args

  -- MultiRequesterPort::request without results
  unfoldable pub request_void : ℕ → List ℕ → A → Method (Traffic U) (Unit {0})
  unfolding tell_all count
  request_void self slaves args = tell_all slaves args >> count self

-- `handle`: the interface of each InterfacePort::Host; `connected`: isConnected()
module _ {U I : Type 0} (handle : ℕ → I) (connected : ℕ → Bool) where
  -- InterfacePort::Host::get
  unfoldable pub host_get : ℕ → Method (Traffic U) I
  unfolding count
  host_get self = do
    count self
    (if connected self then pure (handle self) else throw runtime_error)

  -- InterfacePort::Client::get, where the second argument is `host_`
  unfoldable pub client_get : ℕ → Option ℕ → Method (Traffic U) I
  unfolding host_get count
  client_get self host = do
    count self
    elim host [ none ↦ throw runtime_error | some h ↦ host_get h ]
