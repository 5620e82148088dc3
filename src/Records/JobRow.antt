-- ===== src/Records/JobRow.antt =====
-- `ProcessingJob`, the change feed, and the claims and failures that the worker passes around.
use nektron_moments.Base.{ℕ, String, Option, Bool}
use nektron_moments.Numbers.{ℤ}
use nektron_moments.Clock.{DateTime}
use nektron_moments.Records.Enums.{JobType, Status, FailureClass}
use nektron_moments.Records.RequestJson.{Request}

pub record ProcessingJob : Type 0 where
  pub id : ℕ
  pub public_id : ℕ
  pub user_id : ℕ
  pub media_asset_id : ℕ
  pub media_source_id : Option ℕ
  pub job_type : JobType
  pub status : Status
  pub provider : Option String
  pub attempt_count : ℕ
  pub max_attempts : ℕ
  pub next_attempt_at : Option DateTime
  pub lease_token_hash : Option String
  pub lease_expires_at : Option DateTime
  pub failure_class : Option FailureClass
  pub failure_code : Option String
  pub failure_message : Option String
  pub request : Request
  pub started_at : Option DateTime
  pub completed_at : Option DateTime
  pub created_at : DateTime
  pub updated_at : DateTime

-- What a change is about, and its kind
pub data EntityType : Type 0 where
  processing_job media_location media_description media_asset media_occurrence : EntityType

pub data ChangeType : Type 0 where
  upsert delete : ChangeType

-- `MediaChange`
pub record MediaChange : Type 0 where
  pub user_id : ℕ
  pub device_id : Option ℕ
  pub source_id : Option ℕ
  pub asset_id : Option ℕ
  pub occurrence_id : Option ℕ
  pub change_type : ChangeType
  pub entity_type : EntityType
  pub entity_id : ℕ
  pub entity_public_id : ℕ
  pub created_at : DateTime

-- `GeocodeJobFailure` and `DescriptionJobFailure`, which have the same fields
pub record JobFailure : Type 0 where
  pub failure_class : FailureClass
  pub code : String
  pub user_message : String
  pub retryable : Bool

-- `GeocodeJob`
pub record GeocodeJob : Type 0 where
  pub job_id : ℕ
  pub user_id : ℕ
  pub media_asset_id : ℕ
  pub latitude : ℤ
  pub longitude : ℤ
  pub coordinate_revision : String
  pub lease_owner : String
  pub attempt_count : ℕ
  pub max_attempts : ℕ
