-- ===== src/Records/RequestJson.antt =====
-- `ProcessingJob.RequestJson`: one field for each key that the pipeline reads or writes. `none` and
-- `absent` stand for a missing key; a `none` in a reservation also stands for a value that its
-- reader refuses, where the two are handled alike.
use nektron_moments.Base.{ℕ, String, Option, none}
use nektron_moments.Numbers.{ℤ, Decimal, Field, absent}
use nektron_moments.Clock.{DateTime, Month}
use nektron_moments.Records.Enums.{UnitType, ReservationState, ConsumptionState, CostBasis}

-- `providerUsageReservation` and `providerCostReservation`; units are millionths.
pub record Reservation : Type 0 where
  pub provider : Option String
  pub usage_month : Option Month
  pub unit_type : Option UnitType
  pub units : Option ℕ
  pub state : ReservationState
  pub released_at : Option DateTime
  pub settled_at : Option DateTime
  pub charged : Option ℕ

-- `providerRequestConsumption`
pub record Consumption : Type 0 where
  pub provider : Option String
  pub usage_month : Option Month
  pub units : Option ℕ
  pub state : ConsumptionState
  pub consumed_at : DateTime
  pub reversed_at : Option DateTime

-- The sanitized billing counters of a provider response.
pub record TokenUsage : Type 0 where
  pub input_tokens : Option ℕ
  pub output_tokens : Option ℕ
  pub total_tokens : Option ℕ
  pub cached_input_tokens : Option ℕ
  pub reasoning_output_tokens : Option ℕ

-- `ratesPerMillion`; a finite rate is in millionths of a dollar for a million tokens.
pub record Rates : Type 0 where
  pub input : Decimal
  pub cached_input : Decimal
  pub output : Decimal

-- `providerCost`
pub record ProviderCost : Type 0 where
  pub amount : ℕ
  pub basis : CostBasis
  pub rates : Rates

-- The keys that `_clear_description_staging_request` removes.
pub record Staging : Type 0 where
  pub bucket : Option String
  pub object_key : Option String
  pub preview_sha256 : Option String
  pub preview_checksum_sha256 : Option String
  pub preview_byte_size : Option ℤ
  pub preview_mime_type : Option String
  pub upload_session_id : Option ℕ
  pub occurrence_id : Option ℕ

abbrev pub no_staging : Staging
no_staging = record {
  bucket = none;
  object_key = none;
  preview_sha256 = none;
  preview_checksum_sha256 = none;
  preview_byte_size = none;
  preview_mime_type = none;
  upload_session_id = none;
  occurrence_id = none;
}

-- The keys that `_description_request` writes.
pub record Scene : Type 0 where
  pub asset_revision : Option String
  pub model : Option String
  pub prompt_version : Option String
  pub detail : Option String
  pub service_tier : Option String
  pub max_words : Option ℤ
  pub monthly_call_limit : Option ℤ
  pub monthly_usd_limit : Field Decimal
  pub reserved_usd : Field Decimal
  pub input_rate : Field Decimal
  pub cached_input_rate : Field Decimal
  pub output_rate : Field Decimal

abbrev pub no_scene : Scene
no_scene = record {
  asset_revision = none;
  model = none;
  prompt_version = none;
  detail = none;
  service_tier = none;
  max_words = none;
  monthly_call_limit = none;
  monthly_usd_limit = absent;
  reserved_usd = absent;
  input_rate = absent;
  cached_input_rate = absent;
  output_rate = absent;
}

pub record Request : Type 0 where
  -- `latitude`, `longitude`, `coordinateRevision` of a geocode job
  pub latitude : Field Decimal
  pub longitude : Field Decimal
  pub coordinate_revision : Option String
  pub reuse_location : Option ℕ
  pub scene : Scene
  pub staging : Staging
  pub usage_reservation : Option Reservation
  pub cost_reservation : Option Reservation
  pub quota_block_reason : Option String
  pub consumption : Option Consumption
  pub cost : Option ProviderCost
  pub token_usage : Option TokenUsage

-- `request_json` of `None` reads as the empty object.
abbrev pub empty_request : Request
empty_request = record {
  latitude = absent;
  longitude = absent;
  coordinate_revision = none;
  reuse_location = none;
  scene = no_scene;
  staging = no_staging;
  usage_reservation = none;
  cost_reservation = none;
  quota_block_reason = none;
  consumption = none;
  cost = none;
  token_usage = none;
}
