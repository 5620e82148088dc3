-- ===== src/Records/Media.antt =====
-- The columns of the media rows that the pipeline reads or writes, and what a geocoder returns
-- (services/data/models.py, services/enrichment/models.py). Raw provider JSON is opaque text.
use nektron_moments.Base.{ℕ, String, Option, Bool, true, false}
use nektron_moments.Numbers.{ℤ}
use nektron_moments.Clock.{DateTime}

pub data Lifecycle : Type 0 where
  active trashed : Lifecycle

abbrev pub is_active : Lifecycle → Bool
is_active Lifecycle.active = true
is_active Lifecycle.trashed = false

pub data StorageState : Type 0 where
  local_only upload_pending uploading remote_available trashed purged : StorageState

abbrev pub is_local_only : StorageState → Bool
is_local_only StorageState.local_only = true
is_local_only _ = false

pub data MediaType : Type 0 where
  photo video : MediaType

abbrev pub is_photo : MediaType → Bool
is_photo MediaType.photo = true
is_photo MediaType.video = false

-- `MediaAsset`; `has_object_details` says that one of the version, tag and checksum columns of its
-- remote objects is set.
pub record MediaAsset : Type 0 where
  pub id : ℕ
  pub public_id : ℕ
  pub user_id : ℕ
  pub media_type : MediaType
  pub content_sha256 : String
  pub lifecycle_state : Lifecycle
  pub storage_state : StorageState
  pub s3_bucket : Option String
  pub original_s3_object_key : Option String
  pub preview_s3_object_key : Option String
  pub has_object_details : Bool
  pub time_zone : Option String
  pub capture_local : Option DateTime
  pub capture_utc : Option DateTime
  pub utc_offset_minutes : Option ℤ
  pub last_processed_at : Option DateTime
  pub trashed_at : Option DateTime
  pub purge_after : Option DateTime
  pub updated_at : DateTime

-- `MediaOccurrence`; the flags are `deletion_state == "Active"` and
-- `availability_state == "Available"`.
pub record MediaOccurrence : Type 0 where
  pub id : ℕ
  pub public_id : ℕ
  pub user_id : ℕ
  pub source_id : ℕ
  pub media_asset_id : Option ℕ
  pub is_kept : Bool
  pub is_available : Bool
  pub last_seen_at : DateTime
  pub deleted_at : Option DateTime
  pub updated_at : DateTime

-- The address columns of `MediaLocation` that a geocode result replaces.
pub record Address : Type 0 where
  pub display_name : Option String
  pub street_address : Option String
  pub original_street_number : Option String
  pub neighborhood : Option String
  pub city : Option String
  pub county : Option String
  pub state : Option String
  pub postal_code : Option String
  pub country : Option String
  pub country_code : Option String
  pub provider_place_id : Option String
  pub normalization_rule_version : Option String

-- `MediaLocation`; coordinates are millionths of a degree.
pub record MediaLocation : Type 0 where
  pub id : ℕ
  pub public_id : ℕ
  pub user_id : ℕ
  pub media_asset_id : ℕ
  pub latitude : Option ℤ
  pub longitude : Option ℤ
  pub address : Address
  pub confidence : Option ℕ
  pub provider : Option String
  pub provider_updated_at : Option DateTime
  pub raw_provider_json : Option String
  pub updated_at : DateTime

-- `GeocodeResolution`: its address, and what is not a column of the address.
pub record Resolution : Type 0 where
  pub address : Address
  pub provider : String
  pub time_zone_id : Option String

-- `ReverseGeocodeResult`
pub record GeocodeResult : Type 0 where
  pub provider : String
  pub resolution : Option Resolution
  pub raw_provider_json : String
  pub provider_updated_at : Option DateTime

pub data UploadStatus : Type 0 where
  preparing uploading completing completed cancelled expired : UploadStatus

abbrev pub is_completed : UploadStatus → Bool
is_completed UploadStatus.completed = true
is_completed _ = false

-- `status in ("Preparing", "Uploading", "Completing", "Completed")`
abbrev pub is_live : UploadStatus → Bool
is_live UploadStatus.cancelled = false
is_live UploadStatus.expired = false
is_live _ = true

-- `UploadSession`; the flags are `object_purpose == "TemporaryProcessing"` and
-- `upload_kind == "SinglePart"`, and that there is neither an `s3_upload_id` nor a part size;
-- `processing_job` is `parts_json["processingJobId"]`, and `occurrence` its `"occurrenceId"`.
pub record UploadSession : Type 0 where
  pub public_id : ℕ
  pub user_id : ℕ
  pub media_asset_id : ℕ
  pub status : UploadStatus
  pub is_temporary : Bool
  pub is_single_part : Bool
  pub is_whole_object : Bool
  pub processing_job : Option ℕ
  pub occurrence : Option ℕ
  pub s3_bucket : String
  pub s3_object_key : String
  pub checksum_sha256 : String
  pub s3_checksum_value : Option String
  pub expected_byte_size : ℕ
  pub uploaded_byte_size : ℕ
  pub expires_at : DateTime
  pub active_lease_marker : Option ℕ
  pub completed_at : Option DateTime
  pub failure_code : Option String
  pub updated_at : DateTime

-- `MediaDescription`
pub record MediaDescription : Type 0 where
  pub id : ℕ
  pub public_id : ℕ
  pub user_id : ℕ
  pub media_asset_id : ℕ
  pub description : Option String
  pub provider : String
  pub model : String
  pub prompt_version : String
  pub is_succeeded : Bool
  pub is_current : Bool
  pub requested_at : DateTime
  pub completed_at : DateTime
  pub created_at : DateTime
  pub updated_at : DateTime
