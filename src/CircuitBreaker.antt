-- ===== src/CircuitBreaker.antt =====
-- The circuit breaker of a user's provider (services/domain/service.py): the state on this month's
-- request row. `if not job.provider: return` covers a missing and an empty name.
pub mod Laws
use nektron_moments.Base.{
  String, Bool, false, Option, none, some, if◌then◌else◌, truthy, text_prefix,
}
use nektron_moments.Clock.{DateTime, month_of}
use nektron_moments.Records.{UnitType, UsageKey, Usage, Circuit, is_open, ProcessingJob}
use nektron_moments.Ledger.{Ledger, get, touch}

-- This month's request row of the job's provider.
unfoldable pub circuit_key : DateTime → ProcessingJob → Option UsageKey
circuit_key now job = elim job.provider [
  | none ↦ none
  | some provider ↦
      if truthy provider
      then some (record {
        user_id = job.user_id;
        provider = provider;
        usage_month = month_of now;
        unit_type = UnitType.request;
      })
      else none
]

unfoldable pub opened : DateTime → String → Usage → Usage
opened now code u = record u {
  circuit_state = Circuit.opened;
  circuit_opened_at = some now;
  circuit_failure_code = some (text_prefix 64 code);
  updated_at = now;
}

-- `_open_provider_circuit`
unfoldable pub open_provider_circuit : DateTime → String → Ledger → ProcessingJob → Ledger
unfolding circuit_key opened
open_provider_circuit now code l job = elim (circuit_key now job) [
  | none ↦ l
  | some k ↦ touch k (opened now code) l
]

row_is_open : Option Usage → Bool
row_is_open none = false
row_is_open (some u) = is_open u.circuit_state

-- `_provider_circuit_is_open`
unfoldable pub provider_circuit_is_open : DateTime → Ledger → ProcessingJob → Bool
unfolding circuit_key row_is_open
provider_circuit_is_open now l job = elim (circuit_key now job) [
  | none ↦ false
  | some k ↦ row_is_open (get k l)
]

closed_again : DateTime → Usage → Usage
closed_again now u = record u {
  circuit_state = Circuit.closed;
  circuit_opened_at = none;
  circuit_failure_code = none;
  updated_at = now;
}

-- `_close_provider_circuit`
unfoldable pub close_provider_circuit : DateTime → Ledger → ProcessingJob → Ledger
unfolding circuit_key closed_again
close_provider_circuit now l job = elim (circuit_key now job) [
  | none ↦ l
  | some k ↦ touch k (closed_again now) l
]
