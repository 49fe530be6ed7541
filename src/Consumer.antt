-- ===== src/Consumer.antt =====
-- The reading side of the consumer ports (buffered_consumer_port.h, multi_consumer_port.h,
-- queue_getter.h and multi_queue_getter.h of core/include/superflow).
pub mod Buffered
pub mod Multi
pub mod BufferedReads
pub mod MultiReads
pub mod Disconnected
use superflow.Base.{
  ℕ, ◌+◌, ◌%◌, Outcome, returns, throws, waits, undefined, Exception, terminated, invalid_argument,
  range_error, runtime_error, unknown,
}

-- `catch (const TerminatedException&) { return a; }`
unfoldable pub on_terminated {ℓ} : {A : Type ℓ} → A → Outcome A → Outcome A
on_terminated a (returns b) = returns b
on_terminated a (throws terminated) = returns a
on_terminated a (throws invalid_argument) = throws invalid_argument
on_terminated a (throws range_error) = throws range_error
on_terminated a (throws runtime_error) = throws runtime_error
on_terminated a (throws unknown) = throws unknown
on_terminated a waits = waits
on_terminated a undefined = undefined

-- `++num_transactions_` on a size_t of 64 bits
unfoldable pub count_transaction : ℕ → ℕ
count_transaction n = (n + 1) % 18446744073709551616
