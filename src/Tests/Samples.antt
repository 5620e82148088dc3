-- ===== src/Tests/Samples.antt =====
-- A leased geocode job and a leased description job, each in a database of its own whose books are
-- sound, with the claims that their workers hold.
use nektron_moments.Base.{
  ℕ, ◌+◌, String, ◌≡◌, refl, true, false, none, some, [], ◌∷◌, sum_of, arith, inl, inr, Bool-cases,
  false,
}
use nektron_moments.Numbers.{pos, negsuc, finite, present}
use nektron_moments.Platform.{Platform}
use nektron_moments.Clock.{DateTime, Month}
use nektron_moments.Settings.{Settings}
use nektron_moments.Records.{
  JobType, Status, FailureClass, UnitType, Circuit, ReservationState, Lifecycle, StorageState,
  MediaType, UploadStatus, UsageKey, Usage, Reservation, Request, empty_request, Scene, no_scene,
  Staging, no_staging, ProcessingJob, JobFailure, GeocodeJob, MediaAsset, MediaLocation,
  GeocodeResult, UploadSession,
}
use nektron_moments.Ledger.{Ledger, same_key, get}
use nektron_moments.Ledger.Laws.{same_key→eq}
use nektron_moments.Cost.{integer, other, RawUsage}
use nektron_moments.Store.{Database}
use nektron_moments.Reservations.{key_of}
use nektron_moments.Reservations.Held.{reserved_at, job_held}
use nektron_moments.Soundness.{IsSound, IsWholeJob}
use nektron_moments.Geocode.Result.{no_address}
use nektron_moments.Description.Payload.{DescriptionJob}
use nektron_moments.Description.Calls.{SceneResult, NewRow}

-- 2026-01-15
abbrev pub noon : DateTime
noon = 1768478400000000

abbrev pub january : Month
january = 24312

abbrev pub platform : Platform
platform = record {
  sha256_hex = λ s. s;
  six_decimals = λ x. "0";
  local_to_utc = λ zone t. none;
  lower = λ s. s;
  strip = λ s. s;
  casefold = λ s. s;
  street_number = λ s. none;
}

abbrev pub settings : Settings
settings = record {
  model = "m";
  detail = "high";
  service_tier = "flex";
  max_words = 20;
  monthly_call_limit = 100000;
  monthly_usd_limit = 230000000;
  reserved_usd = 10000;
  input_rate = 2000000;
  cached_input_rate = 200000;
  output_rate = 12000000;
}

abbrev pub row_of : ℕ → ℕ → Usage
row_of processed reserved = record {
  processed_units = processed;
  reserved_units = reserved;
  hard_limit_units = 5000000;
  circuit_state = Circuit.closed;
  circuit_opened_at = none;
  circuit_failure_code = none;
  created_at = noon;
  updated_at = noon;
}

abbrev pub reservation_of : String → UnitType → ℕ → Reservation
reservation_of provider unit n = record {
  provider = some provider;
  usage_month = some january;
  unit_type = some unit;
  units = some n;
  state = ReservationState.reserved;
  released_at = none;
  settled_at = none;
  charged = none;
}

abbrev pub key : String → UnitType → UsageKey
key provider unit = record {
  user_id = 7;
  provider = provider;
  usage_month = january;
  unit_type = unit;
}

abbrev pub job_of : JobType → String → Request → ProcessingJob
job_of type provider request = record {
  id = 1;
  public_id = 11;
  user_id = 7;
  media_asset_id = 3;
  media_source_id = none;
  job_type = type;
  status = Status.running;
  provider = some provider;
  attempt_count = 1;
  max_attempts = 3;
  next_attempt_at = none;
  lease_token_hash = some "message";
  lease_expires_at = some (noon + 1000000);
  failure_class = none;
  failure_code = none;
  failure_message = none;
  request = request;
  started_at = some noon;
  completed_at = none;
  created_at = noon;
  updated_at = noon;
}

abbrev pub geocoding : ProcessingJob
geocoding = job_of JobType.geocode "Amazon" (record empty_request {
  latitude = present (finite (pos 47000000));
  longitude = present (finite (negsuc 121999999));
  coordinate_revision = some "0,0";
  usage_reservation = some (reservation_of "Amazon" UnitType.request 1000000);
})

abbrev pub asset : MediaAsset
asset = record {
  id = 3;
  public_id = 13;
  user_id = 7;
  media_type = MediaType.photo;
  content_sha256 = "a";
  lifecycle_state = Lifecycle.active;
  storage_state = StorageState.local_only;
  s3_bucket = none;
  original_s3_object_key = none;
  preview_s3_object_key = none;
  has_object_details = false;
  time_zone = none;
  capture_local = none;
  capture_utc = none;
  utc_offset_minutes = none;
  last_processed_at = none;
  trashed_at = none;
  purge_after = none;
  updated_at = noon;
}

abbrev location : MediaLocation
location = record {
  id = 5;
  public_id = 15;
  user_id = 7;
  media_asset_id = 3;
  latitude = some (pos 47000000);
  longitude = some (negsuc 121999999);
  address = no_address;
  confidence = none;
  provider = none;
  provider_updated_at = none;
  raw_provider_json = none;
  updated_at = noon;
}

abbrev pub upload : UploadSession
upload = record {
  public_id = 21;
  user_id = 7;
  media_asset_id = 3;
  status = UploadStatus.completed;
  is_temporary = true;
  is_single_part = true;
  is_whole_object = true;
  processing_job = some 11;
  occurrence = some 31;
  s3_bucket = "b";
  s3_object_key = "o";
  checksum_sha256 = "c";
  s3_checksum_value = none;
  expected_byte_size = 9;
  uploaded_byte_size = 9;
  expires_at = noon;
  active_lease_marker = none;
  completed_at = some noon;
  failure_code = none;
  updated_at = noon;
}

abbrev pub database_of : ProcessingJob → Ledger → Database
database_of job usage = record {
  jobs = job ∷ [];
  usage = usage;
  assets = asset ∷ [];
  locations = location ∷ [];
  occurrences = [];
  uploads = upload ∷ [];
  descriptions = [];
  changes = [];
}

abbrev pub geocode_rows : Ledger
geocode_rows = (key "Amazon" UnitType.request, row_of 2000000 1000000) ∷ []

abbrev pub geocode_database : Database
geocode_database = database_of geocoding geocode_rows

abbrev pub geocode_claim : GeocodeJob
geocode_claim = record {
  job_id = 11;
  user_id = 7;
  media_asset_id = 3;
  latitude = pos 47000000;
  longitude = negsuc 121999999;
  coordinate_revision = "0,0";
  lease_owner = "message";
  attempt_count = 1;
  max_attempts = 3;
}

abbrev pub geocode_result : GeocodeResult
geocode_result = record {
  provider = "Amazon";
  resolution = none;
  raw_provider_json = "{}";
  provider_updated_at = none;
}

abbrev pub denied : JobFailure
denied = record {
  failure_class = FailureClass.authentication;
  code = "Denied";
  user_message = "denied";
  retryable = true;
}

-- The scene of a description job.
abbrev scene : Scene
scene = record no_scene {
  asset_revision = some "a";
  model = some "m";
  prompt_version = some "v";
  detail = some "high";
  service_tier = some "flex";
  max_words = some (pos 20);
  monthly_call_limit = some (pos 100000);
}

abbrev staging : Staging
staging = record no_staging {
  bucket = some "b";
  object_key = some "o";
  preview_sha256 = some "c";
  preview_byte_size = some (pos 9);
  preview_mime_type = some "image/jpeg";
  upload_session_id = some 21;
}

abbrev pub describing : ProcessingJob
describing = job_of JobType.description "OpenAI" (record empty_request {
  scene = scene;
  staging = staging;
  usage_reservation = some (reservation_of "OpenAI" UnitType.request 1000000);
  cost_reservation = some (reservation_of "OpenAI" UnitType.usd 10000);
})

abbrev pub description_rows : Ledger
description_rows =
    (key "OpenAI" UnitType.request, row_of 2000000 1000000)
    ∷ (key "OpenAI" UnitType.usd, row_of 3000 10000)
    ∷ []

abbrev pub description_database : Database
description_database = database_of describing description_rows

abbrev pub description_claim : DescriptionJob
description_claim = record {
  job_id = 11;
  user_id = 7;
  media_asset_id = 3;
  asset_revision = "a";
  staging_bucket = "b";
  staging_object_key = "o";
  preview_sha256 = "c";
  preview_byte_size = 9;
  preview_mime_type = "image/jpeg";
  model = "m";
  prompt_version = "v";
  detail = "high";
  service_tier = "flex";
  max_words = 20;
  monthly_call_limit = 100000;
  lease_owner = "message";
  attempt_count = 1;
  max_attempts = 3;
  monthly_usd_limit = 230000000;
  reserved_usd = 10000;
  input_rate = 2000000;
  cached_input_rate = 200000;
  output_rate = 12000000;
}

abbrev pub tokens : RawUsage
tokens = record {
  input_tokens = integer (pos 1500);
  output_tokens = integer (pos 40);
  total_tokens = integer (pos 1540);
  input_details = some (integer (pos 500));
  cached_input_tokens = other;
  output_details = none;
  reasoning_output_tokens = other;
}

abbrev pub scene_result : SceneResult
scene_result = record {
  description = "A dog on a beach";
  provider = "OpenAI";
  model = "m";
  prompt_version = "v";
  usage = some tokens;
}

abbrev pub new_row : NewRow
new_row = record { id = 8; public_id = 18 }

pub geocode_balanced :
    (k : UsageKey) → sum_of (job_held k) (geocoding ∷ []) ≡ reserved_at k geocode_rows
unfolding get key_of
geocode_balanced k = elim (Bool-cases (same_key k (key "Amazon" UnitType.request))) [
  | inl hit ↦ ground (arith, hit)
  | inr miss ↦ ground (arith, miss)
]

pub geocode_database-IsSound : IsSound geocode_database
geocode_database-IsSound = record {
  distinct = (tt, tt);
  whole = (record { usage_whole = λ held. refl; cost_whole = tt; cost_usd = tt }, tt);
  balanced = geocode_balanced;
}

pub describing-IsWholeJob : IsWholeJob describing
describing-IsWholeJob = record {
  usage_whole = λ held. refl;
  cost_whole = λ held. refl;
  cost_usd = λ held. refl;
}

keys_differ :
    (k : UsageKey)
    → same_key k (key "OpenAI" UnitType.request) ≡ true
    → same_key k (key "OpenAI" UnitType.usd) ≡ false
unfolding same_key
keys_differ k hit = rw (same_key→eq k (key "OpenAI" UnitType.request) hit) refl

pub description_balanced : (k : UsageKey) → job_held k describing ≡ reserved_at k description_rows
unfolding get key_of
description_balanced k = elim (Bool-cases (same_key k (key "OpenAI" UnitType.request))) [
  | inl hit ↦ ground (arith, hit, keys_differ k hit)
  | inr miss ↦ ground (arith, miss)
]

pub description_database-IsSound : IsSound description_database
description_database-IsSound = record {
  distinct = (tt, tt);
  whole = (describing-IsWholeJob, tt);
  balanced = λ k. omega (arith, description_balanced k);
}
