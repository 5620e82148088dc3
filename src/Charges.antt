-- ===== src/Charges.antt =====
-- `_settle_description_cost_reservation` of services/domain/service.py: the reserved dollars are
-- released and the job is charged what its tokens cost, or the whole reservation.
pub mod Settlement
use nektron_moments.Base.{
  ℕ, ◌-◌, ◌+◌, min, String, Bool, true, false, Option, none, some, ltb, if◌then◌else◌, or_else,
  or_text,
}
use nektron_moments.Numbers.{Decimal, finite, pos, Field, absent, malformed, present}
use nektron_moments.Clock.{DateTime, Month}
use nektron_moments.Records.{
  UnitType, UsageKey, Usage, Reservation, ReservationState, is_reserved, Consumption,
  ConsumptionState, is_consumed, TokenUsage, Rates, CostBasis, Request, ProcessingJob,
}
use nektron_moments.Settings.{Settings, description_provider, one_unit}
use nektron_moments.Ledger.{Ledger, touch}
use nektron_moments.Cost.{
  RawUsage, Calculation, raises, unavailable, charge, scene_description_cost,
}

-- `Decimal(str(request.get(key, default)))`
unfoldable pub rate_field : Field Decimal → ℕ → Option Decimal
rate_field absent d = some (finite (pos d))
rate_field malformed d = none
rate_field (present r) d = some r

-- The three rates of a job, or none if one cannot be parsed.
unfoldable pub rates_of : Settings → Request → Option Rates
unfolding rate_field
rates_of cfg q = elim (rate_field q.scene.input_rate cfg.input_rate) [
  | none ↦ none
  | some i ↦ elim (rate_field q.scene.cached_input_rate cfg.cached_input_rate) [
    | none ↦ none
    | some c ↦ elim (rate_field q.scene.output_rate cfg.output_rate) [
      | none ↦ none
      | some o ↦ some (record { input = i; cached_input = c; output = o })
    ]
  ]
]

-- `charged`, `basis` and `safe_usage`, from what was reserved.
unfoldable pub charge_basis : Bool → ℕ → Calculation → ℕ × CostBasis × Option TokenUsage
charge_basis false reserved calc = (0, CostBasis.released_no_provider_call, none)
charge_basis true reserved (charge c u) =
    if ltb reserved c
    then (reserved, CostBasis.conservative_reservation, some u)
    else (c, CostBasis.actual_usage, some u)
charge_basis true reserved unavailable = (reserved, CostBasis.conservative_reservation, none)
charge_basis true reserved raises = (reserved, CostBasis.conservative_reservation, none)

-- Takes a consumed request back from what its row has processed.
reverse_units : ℕ → DateTime → Usage → Usage
reverse_units units now u = record u {
  processed_units = u.processed_units - min u.processed_units units;
  updated_at = now;
}

-- The month and the units of a consumption: of this month and nothing where they cannot be read.
consumed_share : Month → Consumption → Month × ℕ
consumed_share month c = elim c.usage_month [
  | none ↦ (month, 0)
  | some m ↦ (m, or_else c.units one_unit)
]

reverse_consumed :
    DateTime → ℕ → String → Month → Ledger → Consumption → Ledger × Option Consumption
unfolding reverse_units consumed_share
reverse_consumed now user provider month l c =
    let (m, units) = consumed_share month c in
    let k : UsageKey = record {
      user_id = user;
      provider = or_text c.provider provider;
      usage_month = m;
      unit_type = UnitType.request;
    } in
    (
      touch k (reverse_units units now) l,
      some (record c { state = ConsumptionState.reversed; reversed_at = some now }),
    )

-- The part under `if not provider_called:`.
reverse_consumption :
    Bool → DateTime → ℕ → String → Month → Ledger → Option Consumption → Ledger × Option Consumption
unfolding reverse_consumed
reverse_consumption true now user provider month l c = (l, c)
reverse_consumption false now user provider month l none = (l, none)
reverse_consumption false now user provider month l (some c) =
    if is_consumed c.state then reverse_consumed now user provider month l c else (l, some c)

-- Moves reserved dollars to what has been charged.
unfoldable pub charge_units : ℕ → ℕ → DateTime → Usage → Usage
charge_units reserved charged now u = record u {
  reserved_units = u.reserved_units - min u.reserved_units reserved;
  processed_units = u.processed_units + charged;
  updated_at = now;
}

-- From the first parsed field on: the reservation is reserved, for `month` and at `rates`.
unfoldable pub settle_cost :
    Bool
    → Calculation
    → DateTime
    → Ledger
    → ProcessingJob
    → Reservation
    → Month
    → Rates
    → Ledger × ProcessingJob
unfolding charge_basis reverse_consumption charge_units
settle_cost called calc now l job r month rates =
    let provider = or_text r.provider description_provider in
    let reserved = or_else r.units 0 in
    let (charged, basis, safe_usage) = charge_basis called reserved calc in
    let (l₁, consumption) =
      reverse_consumption called now job.user_id provider month l job.request.consumption in
    let k : UsageKey = record {
      user_id = job.user_id;
      provider = provider;
      usage_month = month;
      unit_type = UnitType.usd;
    } in
    let state = if called then ReservationState.consumed else ReservationState.released in
    let settled : Reservation = record r {
      state = state;
      settled_at = some now;
      charged = some charged;
    } in
    let tokens : Option TokenUsage = elim safe_usage [
      | none ↦ job.request.token_usage
      | some u ↦ some u
    ] in
    (
      touch k (charge_units reserved charged now) l₁,
      record job {
        request = record job.request {
          consumption = consumption;
          cost_reservation = some settled;
          cost = some (record { amount = charged; basis = basis; rates = rates });
          token_usage = tokens;
        };
        updated_at = now;
      },
    )

-- The reservation, its month and the rates, where the function does not return at once.
cost_terms : Settings → ProcessingJob → Option (Reservation × Month × Rates)
unfolding rates_of
cost_terms cfg job = elim job.request.cost_reservation [
  | none ↦ none
  | some r ↦ elim (is_reserved r.state) [
    | false ↦ none
    | true ↦ elim r.usage_month [
      | none ↦ none
      | some month ↦ elim (rates_of cfg job.request) [
        | none ↦ none
        | some rates ↦ some (r, month, rates)
      ]
    ]
  ]
]

-- The `calculation` of a call whose provider reported `usage`; it `raises` only where it is reached.
unfoldable pub cost_calculation : Settings → Option RawUsage → ProcessingJob → Calculation
unfolding cost_terms
cost_calculation cfg usage job = elim (cost_terms cfg job) [
  | none ↦ unavailable
  | some (r, month, rates) ↦
      scene_description_cost usage rates.input rates.cached_input rates.output
]

-- `_settle_description_cost_reservation`, given its `calculation`: `unavailable` for a call without
-- usage. A `calculation` that raises ends the caller's transaction before this is reached.
unfoldable pub settle_description_cost :
    Settings → Bool → Calculation → DateTime → Ledger → ProcessingJob → Ledger × ProcessingJob
unfolding cost_terms settle_cost
settle_description_cost cfg called calc now l job = elim (cost_terms cfg job) [
  | none ↦ (l, job)
  | some (r, month, rates) ↦ settle_cost called calc now l job r month rates
]
