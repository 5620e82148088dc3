-- ===== src/Quota.antt =====
-- Reserving quota for a provider call (services/domain/service.py): `reserve_provider_call` once its
-- claim has been checked, and `_reserve_description_usage`.
pub mod Limits
pub mod Description
pub mod Geocode
use nektron_moments.Base.{
  ℕ, ◌+◌, ◌*◌, String, Bool, true, false, ◌&&◌, ◌||◌, Option, none, some, ltb, ◌==◌, str_eq,
  is_some, if◌then◌else◌, or_else,
}
use nektron_moments.Clock.{DateTime, Month, month_of}
use nektron_moments.Records.{
  UnitType, same_unit, UsageKey, Usage, is_open, Reservation, ReservationState, is_reserved,
  Request, ProcessingJob,
}
use nektron_moments.Settings.{one_unit}
use nektron_moments.Ledger.{Ledger, get, put, get_or_create}
use nektron_moments.Reservations.{settle_provider_reservation, release_description_request}

-- The comparisons of a reservation's keys with the call that is asked for.
unfoldable pub matches : String → Month → UnitType → ℕ → Option Reservation → Bool
matches provider month unit units none = false
matches provider month unit units (some r) =
    is_reserved r.state
    && (elim r.provider [ none ↦ false | some p ↦ str_eq p provider ]
        && (elim r.usage_month [ none ↦ false | some m ↦ m == month ]
            && (elim r.unit_type [ none ↦ false | some t ↦ same_unit t unit ]
                && elim r.units [ none ↦ false | some n ↦ n == units ])))

-- A reservation as it is written.
unfoldable pub new_reservation : String → Month → UnitType → ℕ → Reservation
new_reservation provider month unit units = record {
  provider = some provider;
  usage_month = some month;
  unit_type = some unit;
  units = some units;
  state = ReservationState.reserved;
  released_at = none;
  settled_at = none;
  charged = none;
}

abbrev pub circuit_open_reason : String
circuit_open_reason = "CircuitOpen"

-- `quotaBlockReason` set or removed. Storing a request that differs moves `updated_at`, by the
-- `onupdate` of the column, which reads its own clock, taken to be `now` here.
unfoldable pub block : DateTime → ProcessingJob → ProcessingJob
block now job = record job {
  request = record job.request { quota_block_reason = some circuit_open_reason };
  updated_at =
      if elim job.request.quota_block_reason [
        | none ↦ false
        | some reason ↦ str_eq reason circuit_open_reason
      ]
      then job.updated_at
      else now;
}

unfoldable pub unblock : DateTime → ProcessingJob → ProcessingJob
unblock now job = record job {
  request = record job.request { quota_block_reason = none };
  updated_at = if is_some job.request.quota_block_reason then now else job.updated_at;
}

unfoldable pub row_key : ℕ → String → Month → UnitType → UsageKey
row_key user provider month unit = record {
  user_id = user;
  provider = provider;
  usage_month = month;
  unit_type = unit;
}

-- The row with its limit set anew; every branch that reaches it writes `updated_at` too.
unfoldable pub limited : ℕ → DateTime → Usage → Usage
limited limit now u = record u { hard_limit_units = limit; updated_at = now }

unfoldable pub add_reserved : ℕ → Usage → Usage
add_reserved units u = record u { reserved_units = u.reserved_units + units }

-- `used + units > limit`, or a limit of zero
unfoldable pub exhausted : ℕ → ℕ → Usage → Bool
exhausted limit units u = (limit == 0) || ltb limit (u.processed_units + u.reserved_units + units)

-- `reserve_provider_call` where no current reservation is held.
unfoldable pub reserve_request :
    String → ℕ → DateTime → Ledger → ProcessingJob → Bool × Ledger × ProcessingJob
unfolding row_key limited add_reserved exhausted block new_reservation
reserve_request provider monthly_limit now l job =
    let month = month_of now in
    let k = row_key job.user_id provider month UnitType.request in
    let limit = monthly_limit * one_unit in
    let (row, l₁) = get_or_create k limit now l in
    let u = limited limit now row in
    if is_open u.circuit_state
    then (false, put k u l₁, block now job)
    else if exhausted limit one_unit u
    then (false, put k u l₁, job)
    else (
      true,
      put k (add_reserved one_unit u) l₁,
      record job {
        request = record job.request {
          quota_block_reason = none;
          usage_reservation = some (new_reservation provider month UnitType.request one_unit);
        };
        updated_at = now;
      },
    )

-- A reservation of this call that is still held is used again, unless the circuit is open.
unfoldable pub reuse_request :
    DateTime → Option Usage → Ledger → ProcessingJob → Bool × Ledger × ProcessingJob
unfolding block unblock
reuse_request now none l job = (false, l, unblock now job)
reuse_request now (some u) l job =
    if is_open u.circuit_state then (false, l, block now job) else (true, l, unblock now job)

-- `reserve_provider_call`, after the claim and the provider have been checked.
unfoldable pub reserve_geocode_usage :
    String → ℕ → DateTime → Ledger → ProcessingJob → Bool × Ledger × ProcessingJob
unfolding row_key
reserve_geocode_usage provider monthly_limit now l job =
    if matches provider (month_of now) UnitType.request one_unit job.request.usage_reservation
    then reuse_request now (get (row_key job.user_id provider (month_of now) UnitType.request) l) l
        job
    else (let (l₁, job₁) = settle_provider_reservation false now l job in
        reserve_request provider monthly_limit now l₁ job₁)

-- The arguments of `_reserve_description_usage` that are its quotas.
pub record Terms : Type 0 where
  pub provider : String
  pub request_limit : ℕ
  pub usd_limit : ℕ
  pub reserved_usd : ℕ

-- Both rows with their limits set, and what they are afterwards.
reserve_rows :
    Terms
    → DateTime
    → UsageKey
    → UsageKey
    → Usage
    → Usage
    → Ledger
    → ProcessingJob
    → Bool × Ledger × ProcessingJob
unfolding add_reserved exhausted block new_reservation
reserve_rows t now rk ck request cost l job =
    if is_open request.circuit_state
    then (false, put ck cost (put rk request l), block now job)
    else if exhausted (t.request_limit * one_unit) one_unit request
        || exhausted t.usd_limit t.reserved_usd cost
    then (false, put ck cost (put rk request l), job)
    else (
      true,
      put ck (add_reserved t.reserved_usd cost) (put rk (add_reserved one_unit request) l),
      record job {
        request = record job.request {
          quota_block_reason = none;
          usage_reservation =
              some (new_reservation t.provider rk.usage_month UnitType.request one_unit);
          cost_reservation =
              some (new_reservation t.provider ck.usage_month UnitType.usd t.reserved_usd);
        };
        updated_at = now;
      },
    )

-- `_reserve_description_usage` where no current pair of reservations is held.
unfoldable pub reserve_pair :
    Terms → ℕ → DateTime → Ledger → ProcessingJob → Bool × Ledger × ProcessingJob
unfolding reserve_rows row_key limited
reserve_pair t user now l job =
    let month = month_of now in
    let rk = row_key user t.provider month UnitType.request in
    let ck = row_key user t.provider month UnitType.usd in
    let limit = t.request_limit * one_unit in
    let (request, l₁) = get_or_create rk limit now l in
    let (cost, l₂) = get_or_create ck t.usd_limit now l₁ in
    reserve_rows t now rk ck (limited limit now request) (limited t.usd_limit now cost) l₂ job

-- The rows of a pair of reservations that is still held, if both are there.
unfoldable pub held_pair : Option Usage → Option Usage → Option Usage
held_pair (some request) (some cost) = some request
held_pair _ _ = none

-- `if request_matches or cost_matches:` and what follows.
reserve_again : Bool → Terms → ℕ → DateTime → Ledger → ProcessingJob → Bool × Ledger × ProcessingJob
unfolding reserve_pair
reserve_again false t user now l job = reserve_pair t user now l job
reserve_again true t user now l job =
    let (l₁, job₁) = release_description_request now l job in reserve_pair t user now l₁ job₁

-- `_reserve_description_usage`
unfoldable pub reserve_description_usage :
    Terms → ℕ → DateTime → Ledger → ProcessingJob → Bool × Ledger × ProcessingJob
unfolding reserve_again
reserve_description_usage t user now l job =
    let month = month_of now in
    let request_matches =
      matches t.provider month UnitType.request one_unit job.request.usage_reservation in
    let cost_matches =
      matches t.provider month UnitType.usd t.reserved_usd job.request.cost_reservation in
    let held =
      held_pair (get (row_key user t.provider month UnitType.request) l)
        (get (row_key user t.provider month UnitType.usd) l) in
    elim (request_matches && cost_matches) [
      | true ↦ elim held [
        | some u ↦ reuse_request now (some u) l job
        | none ↦ reserve_again true t user now l job
      ]
      | false ↦ reserve_again (request_matches || cost_matches) t user now l job
    ]
