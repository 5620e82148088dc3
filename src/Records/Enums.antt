-- ===== src/Records/Enums.antt =====
-- The enumerations, with the tests that the code writes as string comparisons.
use nektron_moments.Base.{Bool, true, false}

pub data JobType : Type 0 where
  geocode description : JobType

abbrev pub is_geocode : JobType → Bool
is_geocode JobType.geocode = true
is_geocode JobType.description = false

abbrev pub is_description : JobType → Bool
is_description JobType.description = true
is_description JobType.geocode = false

pub data Status : Type 0 where
  preparing queued running succeeded failed deferred_quota cancelled : Status

abbrev pub is_preparing : Status → Bool
is_preparing Status.preparing = true
is_preparing _ = false

abbrev pub is_queued : Status → Bool
is_queued Status.queued = true
is_queued _ = false

abbrev pub is_running : Status → Bool
is_running Status.running = true
is_running _ = false

abbrev pub is_succeeded : Status → Bool
is_succeeded Status.succeeded = true
is_succeeded _ = false

abbrev pub is_failed : Status → Bool
is_failed Status.failed = true
is_failed _ = false

abbrev pub is_deferred : Status → Bool
is_deferred Status.deferred_quota = true
is_deferred _ = false

abbrev pub is_cancelled : Status → Bool
is_cancelled Status.cancelled = true
is_cancelled _ = false

-- `ProviderFailureClass`
pub data FailureClass : Type 0 where
  transient authentication quota invalid_media internal : FailureClass

-- `failure_class in {AUTHENTICATION, QUOTA}`
abbrev pub opens_circuit : FailureClass → Bool
opens_circuit FailureClass.authentication = true
opens_circuit FailureClass.quota = true
opens_circuit _ = false

abbrev pub is_quota : FailureClass → Bool
is_quota FailureClass.quota = true
is_quota _ = false

pub data UnitType : Type 0 where
  request usd : UnitType

abbrev pub same_unit : UnitType → UnitType → Bool
same_unit UnitType.request UnitType.request = true
same_unit UnitType.usd UnitType.usd = true
same_unit _ _ = false

pub data Circuit : Type 0 where
  closed opened : Circuit

abbrev pub is_open : Circuit → Bool
is_open Circuit.opened = true
is_open Circuit.closed = false

pub data ReservationState : Type 0 where
  reserved consumed released : ReservationState

abbrev pub is_reserved : ReservationState → Bool
is_reserved ReservationState.reserved = true
is_reserved _ = false

pub data ConsumptionState : Type 0 where
  consumed reversed : ConsumptionState

abbrev pub is_consumed : ConsumptionState → Bool
is_consumed ConsumptionState.consumed = true
is_consumed ConsumptionState.reversed = false

-- `providerCost.basis`
pub data CostBasis : Type 0 where
  released_no_provider_call conservative_reservation actual_usage : CostBasis
