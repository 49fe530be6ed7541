-- ===== src/Base/Monad.antt =====
-- What a call of a method may do, with the new state among the values that it returns.
use mathlib.Core.Path.{◌≡◌, refl}

-- The C++ exceptions, by class; the message texts are left out.
pub data Exception : Type 0 where
  terminated : Exception  -- flow::TerminatedException
  invalid_argument : Exception
  range_error : Exception
  runtime_error : Exception
  unknown : Exception  -- any other exception, from code that the library calls

-- `throws`: an exception leaves the method, and the object is as before the call.
-- `waits`: the call blocks in a condition variable, and the object is as before the call.
-- `undefined`: undefined behaviour, such as `front()` of an empty std::queue.
pub data Outcome {ℓ} (A : Type ℓ) : Type ℓ where
  returns : A → Outcome A
  throws : Exception → Outcome A
  waits : Outcome A
  undefined : Outcome A

infixl 5 ◌>>=◌ ◌>>◌
abbrev pub ◌>>=◌ {ℓ κ} : {A : Type ℓ} {B : Type κ} → Outcome A → (A → Outcome B) → Outcome B
returns a >>= f = f a
throws e >>= f = throws e
waits >>= f = waits
undefined >>= f = undefined

abbrev pub ◌>>◌ {ℓ} : {B : Type ℓ} → Outcome (Unit {0}) → Outcome B → Outcome B
m >> k = m >>= λ _. k

-- (a copy of ⊥ at every level)
pub data Empty {ℓ} : Type ℓ where

-- The call returns a value with `P`, throws or waits; it is never undefined.
abbrev pub Ensures {ℓ κ} : {A : Type ℓ} → (A → Type κ) → Outcome A → Type κ
Ensures P (returns a) = P a
Ensures P (throws e) = Unit
Ensures P waits = Unit
Ensures P undefined = Empty

-- The parts of a call that returns
pub >>=-returns {ℓ κ} :
    {A : Type ℓ} {B : Type κ} (m : Outcome A) (f : A → Outcome B) {b : B}
    → (m >>= f) ≡ returns b
    → (a : A) × (m ≡ returns a) × (f a ≡ returns b)
>>=-returns (returns a) f h = (a, refl, h)
>>=-returns (throws e) f h = cc
>>=-returns waits f h = cc
>>=-returns undefined f h = cc
