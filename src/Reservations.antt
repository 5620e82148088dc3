-- ===== src/Reservations.antt =====
-- What a job holds of its user's monthly quotas, and how it is settled
-- (`Phase1DomainService` in services/domain/service.py): the reservations in the job's request, and
-- the rows of the usage table that they are part of. Each operation takes the table and the job and
-- returns both.
pub mod Held
pub mod Releases
pub mod Released
pub mod Committed
use nektron_moments.Base.{
  ℕ, ◌+◌, ◌-◌, min, String, Bool, true, false, not, ◌&&◌, ◌||◌, Option, none, some, ltb,
  if◌then◌else◌, or_else, or_text,
}
use nektron_moments.Numbers.{Decimal, finite, pos, Field, absent, malformed, present}
use nektron_moments.Clock.{DateTime, Month}
use nektron_moments.Records.{
  UnitType, UsageKey, Usage, Reservation, ReservationState, is_reserved, Consumption,
  ConsumptionState, is_consumed, TokenUsage, Rates, CostBasis, Request, ProcessingJob,
}
use nektron_moments.Settings.{Settings, description_provider, one_unit}
use nektron_moments.Ledger.{Ledger, touch}
use nektron_moments.Cost.{Calculation, raises, unavailable, charge}

-- The row of a reservation whose month, provider and unit type can all be read.
unfoldable pub key_of : ℕ → Reservation → Option UsageKey
key_of user r = elim r.usage_month [
  | none ↦ none
  | some month ↦ elim r.provider [
    | none ↦ none
    | some provider ↦ elim r.unit_type [
      | none ↦ none
      | some unit ↦
          some
            (record { user_id = user; provider = provider; usage_month = month; unit_type = unit })
    ]
  ]
]

-- `released = min(reserved_units, units)`, given back or, if `consumed`, charged.
unfoldable pub settle_units : Bool → ℕ → DateTime → Usage → Usage
settle_units consumed units now u =
    let released = min u.reserved_units units in
    record u {
      reserved_units = u.reserved_units - released;
      processed_units = u.processed_units + (if consumed then released else 0);
      updated_at = now;
    }

drop_usage_reservation : ProcessingJob → ProcessingJob
drop_usage_reservation job = record job {
  request = record job.request { usage_reservation = none };
}

settle_reserved : Bool → DateTime → Ledger → ProcessingJob → Reservation → Ledger × ProcessingJob
unfolding key_of settle_units drop_usage_reservation
settle_reserved consumed now l job r = elim (key_of job.user_id r) [
  | none ↦ (l, drop_usage_reservation job)
  | some k ↦
      (touch k (settle_units consumed (or_else r.units one_unit) now) l, drop_usage_reservation job)
]

-- `_settle_provider_reservation`
unfoldable pub settle_provider_reservation :
    Bool → DateTime → Ledger → ProcessingJob → Ledger × ProcessingJob
unfolding settle_reserved
settle_provider_reservation consumed now l job = elim job.request.usage_reservation [
  | none ↦ (l, job)
  | some r ↦ if is_reserved r.state then settle_reserved consumed now l job r else (l, job)
]

-- One round of the loop in `_release_description_provider_request`: the table, the reservation, and
-- whether it changed.
release_one : DateTime → ℕ → UnitType → Ledger → Reservation → Ledger × Reservation × Bool
unfolding settle_units
release_one now user default_unit l r = elim (is_reserved r.state) [
  | false ↦ (l, r, false)
  | true ↦ elim r.usage_month [
    | none ↦ (l, r, false)
    | some month ↦
        let k : UsageKey = record {
          user_id = user;
          provider = or_text r.provider description_provider;
          usage_month = month;
          unit_type = or_else r.unit_type default_unit;
        } in
        (
          touch k (settle_units false (or_else r.units one_unit) now) l,
          record r { state = ReservationState.released; released_at = some now },
          true,
        )
  ]
]

unfoldable pub release_field :
    DateTime → ℕ → UnitType → Ledger → Option Reservation → Ledger × Option Reservation × Bool
unfolding release_one
release_field now user unit l none = (l, none, false)
release_field now user unit l (some r) =
    let (l', r', changed) = release_one now user unit l r in (l', some r', changed)

-- `_release_description_provider_request`
unfoldable pub release_description_request :
    DateTime → Ledger → ProcessingJob → Ledger × ProcessingJob
unfolding release_field
release_description_request now l job =
    let (l₁, usage, changed) =
      release_field now job.user_id UnitType.request l job.request.usage_reservation in
    let (l₂, cost, changed') =
      release_field now job.user_id UnitType.usd l₁ job.request.cost_reservation in
    if changed || changed'
    then (
      l₂,
      record job {
        request = record job.request { usage_reservation = usage; cost_reservation = cost };
        updated_at = now;
      },
    )
    else (l₂, job)

holds : Option Reservation → Bool
holds none = false
holds (some r) = is_reserved r.state

-- `_description_provider_call_started`
unfoldable pub provider_call_started : ProcessingJob → Bool
unfolding holds
provider_call_started job =
    holds job.request.cost_reservation && not (holds job.request.usage_reservation)
