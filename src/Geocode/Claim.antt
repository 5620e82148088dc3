-- ===== src/Geocode/Claim.antt =====
-- `claim_geocode_job` and `_claimed_geocode_job`.
use nektron_moments.Base.{
  ℕ, ◌+◌, ◌-◌, String, Bool, true, false, not, ◌&&◌, ◌||◌, Option, none, some, ltb, ◌==◌, str_eq,
  if◌then◌else◌, truthy, text_length,
}
use Prim.Native.String.{◌++◌}
use nektron_moments.Numbers.{
  ℤ, pos, negsuc, leb_ℤ, Decimal, finite, Field, absent, malformed, present,
}
use nektron_moments.Platform.{Platform}
use nektron_moments.Clock.{DateTime, seconds}
use nektron_moments.Records.{
  is_geocode, Status, FailureClass, ProcessingJob, GeocodeJob, MediaAsset, is_active, MediaLocation,
}
use nektron_moments.Reservations.{settle_provider_reservation}
use nektron_moments.Store.{
  Database, invalid_operation, Outcome, done, raised, save, add_job_change, first, job_by_public_id,
  location_by_asset, asset_by_id,
}
use nektron_moments.Leases.{
  same_active_lease, claimable, not_due, attempts_exhausted, start_attempt, exhaust, settle_job,
}

-- `GEOCODE_LEASE_SECONDS`
abbrev pub geocode_lease_seconds : ℕ
geocode_lease_seconds = 300

-- `_coordinate_revision`
unfoldable pub coordinate_revision : Platform → ℤ → ℤ → String
coordinate_revision p latitude longitude =
    p.sha256_hex (p.six_decimals latitude ++ ("," ++ p.six_decimals longitude))

-- `_lease_hash`
unfoldable pub lease_hash : Platform → String → String
lease_hash p owner = p.sha256_hex owner

-- `not message_id or len(message_id) > 1024`
unfoldable pub bad_message_id : String → Bool
bad_message_id id = not (truthy id) || ltb 1024 (text_length id)

-- `_fail_invalid_geocode_job`
unfoldable pub fail_invalid_geocode_job : DateTime → ProcessingJob → ProcessingJob
unfolding settle_job
fail_invalid_geocode_job now job =
    settle_job Status.failed none (some FailureClass.internal) (some "InvalidJobPayload")
      (some "Location enrichment could not read its job payload.") (some now) now job

-- `_cancel_stale_geocode_job`
unfoldable pub cancel_stale_geocode_job : DateTime → ProcessingJob → ProcessingJob
unfolding settle_job
cancel_stale_geocode_job now job =
    settle_job Status.cancelled none (some FailureClass.invalid_media) (some "StaleCoordinates")
      (some "Location enrichment was superseded by newer GPS data.") (some now) now job

-- What reading the payload of a job ends in: an exception that the code does not catch, one that it
-- does, or the three values.
pub data Payload : Type 0 where
  uncaught : Payload
  unreadable : Payload
  coordinates : Decimal → Decimal → String → Payload

read_revision : Decimal → Decimal → Option String → Payload
read_revision latitude longitude none = unreadable
read_revision latitude longitude (some revision) = coordinates latitude longitude revision

read_longitude : Decimal → Field Decimal → Option String → Payload
unfolding read_revision
read_longitude latitude absent revision = unreadable
read_longitude latitude malformed revision = uncaught
read_longitude latitude (present longitude) revision = read_revision latitude longitude revision

-- The `try` block: `Decimal(...)` of an unreadable text raises `InvalidOperation`, which is no
-- `ValueError`.
unfoldable pub read_payload : Field Decimal → Field Decimal → Option String → Payload
unfolding read_longitude
read_payload absent longitude revision = unreadable
read_payload malformed longitude revision = uncaught
read_payload (present latitude) longitude revision = read_longitude latitude longitude revision

within : ℕ → ℤ → Bool
within bound x = leb_ℤ (negsuc (bound - 1)) x && leb_ℤ x (pos bound)

-- The coordinates of a payload that passes the checks.
unfoldable pub checked_payload : Platform → Decimal → Decimal → String → Option (ℤ × ℤ)
unfolding within coordinate_revision
checked_payload p (finite latitude) (finite longitude) revision =
    if within 90000000 latitude
      && (within 180000000 longitude && str_eq revision (coordinate_revision p latitude longitude))
    then some (latitude, longitude)
    else none
checked_payload p _ _ revision = none

-- The location of an active asset whose coordinates have this revision.
at_revision : Platform → String → MediaLocation → Option ℤ → Option ℤ → Option MediaLocation
unfolding coordinate_revision
at_revision p revision row (some latitude) (some longitude) =
    if str_eq (coordinate_revision p latitude longitude) revision then some row else none
at_revision p revision row _ _ = none

active_asset : Option MediaAsset → Bool
active_asset none = false
active_asset (some asset) = is_active asset.lifecycle_state

unfoldable pub current_location :
    Platform → String → ProcessingJob → Database → Option MediaLocation
unfolding at_revision active_asset
current_location p revision job db =
    if active_asset (asset_by_id job.user_id job.media_asset_id db)
    then elim (location_by_asset job.user_id job.media_asset_id db) [
      | none ↦ none
      | some row ↦ at_revision p revision row row.latitude row.longitude
    ]
    else none

-- The stale branch of both functions: the reservation is charged and the job cancelled.
unfoldable pub stale : DateTime → ProcessingJob → Database → Database
unfolding cancel_stale_geocode_job
stale now job db =
    let (l, job') = settle_provider_reservation true now db.usage job in
    save (l, cancel_stale_geocode_job now job') db

geocode_job : ProcessingJob → ℤ → ℤ → String → String → GeocodeJob
geocode_job job latitude longitude revision owner = record {
  job_id = job.public_id;
  user_id = job.user_id;
  media_asset_id = job.media_asset_id;
  latitude = latitude;
  longitude = longitude;
  coordinate_revision = revision;
  lease_owner = owner;
  attempt_count = job.attempt_count;
  max_attempts = job.max_attempts;
}

-- From `requested_lease_hash` on: the lease that the claim leaves, or none.
unfoldable pub take_lease :
    ℕ → String → String → DateTime → ProcessingJob → Database → Option ProcessingJob × Database
unfolding start_attempt exhaust
take_lease lifetime message hash now job db =
    if same_active_lease hash now job
    then (some job, db)
    else if not (claimable now job)
    then (none, db)
    else if not_due now job
    then (none, db)
    else if attempts_exhausted job
    then (let (l, job') = settle_provider_reservation true now db.usage job in
        (none, save (l, exhaust message now job') db))
    else (let job' = start_attempt hash (now + seconds lifetime) now job in
        (some job', save (db.usage, job') db))

-- After the payload has been read.
unfoldable pub claim_at :
    Platform
    → String
    → DateTime
    → ProcessingJob
    → Database
    → ℤ
    → ℤ
    → String
    → Option GeocodeJob × Database
unfolding current_location take_lease geocode_job stale lease_hash
claim_at p message_id now job db latitude longitude revision =
    elim (current_location p revision job db) [
      | none ↦ (none, stale now job db)
      | some row ↦
          let (leased, db') =
            take_lease geocode_lease_seconds "Location enrichment exhausted its retry attempts."
              (lease_hash p message_id) now job db in
          elim leased [
            | none ↦ (none, db')
            | some job' ↦ (some (geocode_job job' latitude longitude revision message_id), db')
          ]
    ]

unfoldable pub finish_claim : Option GeocodeJob × Database → Outcome (Option GeocodeJob)
finish_claim (claim, db) = done claim db

unfoldable pub claim_found :
    Platform → String → DateTime → ProcessingJob → Database → Payload → Outcome (Option GeocodeJob)
unfolding checked_payload claim_at finish_claim fail_invalid_geocode_job
claim_found p message_id now job db uncaught = raised invalid_operation
claim_found p message_id now job db unreadable =
    done none (save (db.usage, fail_invalid_geocode_job now job) db)
claim_found p message_id now job db (coordinates lat lon revision) =
    elim (checked_payload p lat lon revision) [
      | none ↦ done none (save (db.usage, fail_invalid_geocode_job now job) db)
      | some (latitude, longitude) ↦
          finish_claim (claim_at p message_id now job db latitude longitude revision)
    ]

-- `claim_geocode_job`
unfoldable pub claim_geocode_job :
    Platform → ℕ → String → DateTime → Database → Outcome (Option GeocodeJob)
unfolding bad_message_id claim_found read_payload
claim_geocode_job p job_id message_id now db =
    if bad_message_id message_id then done none db else elim (job_by_public_id job_id db) [
      | none ↦ done none db
      | some job ↦
          if is_geocode job.job_type
          then claim_found p message_id now job db (
              read_payload job.request.latitude job.request.longitude
                job.request.coordinate_revision)
          else done none db
    ]

-- The `where` clause of `_claimed_geocode_job`.
unfoldable pub is_claimed_row : GeocodeJob → ProcessingJob → Bool
is_claimed_row claim job =
    (job.public_id == claim.job_id)
    && ((job.user_id == claim.user_id)
        && ((job.media_asset_id == claim.media_asset_id) && is_geocode job.job_type))

unfoldable pub same_revision : Option String → String → Bool
same_revision none revision = false
same_revision (some r) revision = str_eq r revision

-- `_claimed_geocode_job`
unfoldable pub claimed_geocode_job :
    Platform → GeocodeJob → DateTime → Database → Option (ProcessingJob × MediaLocation) × Database
unfolding is_claimed_row same_revision current_location stale lease_hash
claimed_geocode_job p claim now db = elim (first (is_claimed_row claim) db.jobs) [
  | none ↦ (none, db)
  | some job ↦
      if same_active_lease (lease_hash p claim.lease_owner) now job
        && same_revision job.request.coordinate_revision claim.coordinate_revision
      then elim (current_location p claim.coordinate_revision job db) [
        | none ↦ (none, add_job_change now (cancel_stale_geocode_job now job) (stale now job db))
        | some row ↦ (some (job, row), db)
      ]
      else (none, db)
]
