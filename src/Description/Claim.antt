-- ===== src/Description/Claim.antt =====
-- `claim_description_job`: leasing a queued description to one message.
use nektron_moments.Base.{
  List, [], ◌∷◌, ℕ, ◌+◌, String, Bool, true, false, not, ◌&&◌, Option, none, some, ltb, ◌==◌,
  str_eq, if◌then◌else◌, truthy, is_some,
}
use nektron_moments.Platform.{Platform}
use nektron_moments.Clock.{DateTime, seconds}
use nektron_moments.Settings.{Settings}
use nektron_moments.Records.{
  is_description, Status, FailureClass, ProcessingJob, MediaAsset, is_active, is_photo,
  is_local_only, UploadSession, is_completed, MediaDescription,
}
use nektron_moments.Ledger.{Ledger}
use nektron_moments.Reservations.{release_description_request, provider_call_started}
use nektron_moments.Cost.{unavailable}
use nektron_moments.Charges.{settle_description_cost}
use nektron_moments.Store.{Database, save, first, job_by_public_id, asset_by_id}
use nektron_moments.Leases.{
  same_active_lease, expired_running_lease, claimable, not_due, attempts_exhausted, start_attempt,
  exhaust, settle_job,
}
use nektron_moments.Geocode.Claim.{lease_hash, bad_message_id}
use nektron_moments.Description.Payload.{DescriptionJob, read_payload, checked_claim, pin_amounts}

-- `DESCRIPTION_LEASE_SECONDS`
abbrev pub description_lease_seconds : ℕ
description_lease_seconds = 900

-- `_finish_description_job`
unfoldable pub finish_description_job : Status → DateTime → ProcessingJob → ProcessingJob
unfolding settle_job
finish_description_job status now job = settle_job status none none none none (some now) now job

-- `_fail_invalid_description_job`
unfoldable pub fail_invalid_description_job : DateTime → ProcessingJob → ProcessingJob
unfolding settle_job
fail_invalid_description_job now job =
    settle_job Status.failed none (some FailureClass.internal) (some "InvalidJobPayload")
      (some "Scene description could not read its job payload.") (some now) now job

-- `_fail_stale_description_job`
unfoldable pub fail_stale_description_job : DateTime → ProcessingJob → ProcessingJob
unfolding settle_job
fail_stale_description_job now job =
    settle_job Status.cancelled none (some FailureClass.invalid_media) (some "StaleScenePreview")
      (some "Scene description was superseded by newer media data.") (some now) now job

-- What the two early exits end in: both reservations of the changed job are released.
unfoldable pub release_and_save : DateTime → ProcessingJob → Database → Database
release_and_save now job db = save (release_description_request now db.usage job) db

-- `UploadRepository.require`, without its exception
unfoldable pub upload_by_public_id : ℕ → ℕ → Database → Option UploadSession
unfolding first
upload_by_public_id user id db =
    first (λ upload. (upload.user_id == user) && (upload.public_id == id)) db.uploads

-- The later of two descriptions by their identifiers
later : MediaDescription → Option MediaDescription → Option MediaDescription
later d none = some d
later d (some e) = if ltb e.id d.id then some d else some e

current_of : ℕ → ℕ → List MediaDescription → Option MediaDescription
unfolding later
current_of user asset [] = none
current_of user asset (d ∷ ds) =
    let rest = current_of user asset ds in
    if (d.user_id == user) && ((d.media_asset_id == asset) && d.is_current)
    then later d rest
    else rest

-- `AssetRepository.current_description`
unfoldable pub current_description : ℕ → ℕ → Database → Option MediaDescription
unfolding current_of
current_description user asset db = current_of user asset db.descriptions

has_text : Platform → Option String → Bool
has_text p none = false
has_text p (some text) = truthy text && truthy (p.strip text)

-- A current description that has succeeded and says something.
unfoldable pub is_described : Platform → Option MediaDescription → Bool
unfolding has_text
is_described p none = false
is_described p (some d) = d.is_succeeded && (d.is_current && has_text p d.description)

staged_asset : Platform → DescriptionJob → MediaAsset → Bool
staged_asset p claim asset =
    is_active asset.lifecycle_state
    && (is_photo asset.media_type
        && (str_eq (p.lower asset.content_sha256) claim.asset_revision
            && (is_local_only asset.storage_state && not (is_some asset.s3_bucket))))

staged_upload : Platform → DescriptionJob → UploadSession → Bool
staged_upload p claim upload =
    (upload.media_asset_id == claim.media_asset_id)
    && (is_completed upload.status
        && (upload.is_temporary
            && (upload.is_single_part
                && (str_eq upload.s3_bucket claim.staging_bucket
                    && (str_eq upload.s3_object_key claim.staging_object_key
                        && (str_eq (p.lower upload.checksum_sha256) claim.preview_sha256
                            && (upload.expected_byte_size == claim.preview_byte_size)))))))

-- The asset and the upload are what the payload says they are.
unfoldable pub is_staged :
    Platform → DescriptionJob → Option MediaAsset → Option UploadSession → Bool
unfolding staged_asset staged_upload
is_staged p claim (some asset) (some upload) =
    staged_asset p claim asset && staged_upload p claim upload
is_staged p claim _ _ = false

-- The settlements that a claim makes before it looks at the due time: a lease that ran out while a
-- provider call was open is charged in full.
unfoldable pub charge_abandoned :
    Settings → DateTime → Ledger → ProcessingJob → Ledger × ProcessingJob
charge_abandoned cfg now l job =
    if expired_running_lease now job && provider_call_started job
    then settle_description_cost cfg true unavailable now l job
    else (l, job)

unfoldable pub exhaust_description :
    Settings → DateTime → Ledger → ProcessingJob → Ledger × ProcessingJob
exhaust_description cfg now l job =
    let (l', job') =
      if provider_call_started job
      then settle_description_cost cfg true unavailable now l job
      else release_description_request now l job in
    (l', exhaust "Scene description exhausted its retry attempts." now job')

-- From `requested_lease_hash` on.
unfoldable pub take_description_lease :
    Settings → String → DateTime → ProcessingJob → Database → Option ProcessingJob × Database
unfolding charge_abandoned exhaust_description
take_description_lease cfg hash now job db =
    if same_active_lease hash now job
    then (some job, save (db.usage, job) db)
    else (let (l, charged) = charge_abandoned cfg now db.usage job in
        if not (claimable now charged)
        then (none, save (l, charged) db)
        else if not_due now charged
        then (none, save (l, charged) db)
        else if attempts_exhausted charged
        then (none, save (exhaust_description cfg now l charged) db)
        else (let job' = start_attempt hash (now + seconds description_lease_seconds) now charged in
            (some job', save (l, job') db)))

-- After the payload has been checked and its amounts pinned.
unfoldable pub claim_staged :
    Platform
    → Settings
    → String
    → DateTime
    → ProcessingJob
    → ℕ
    → DescriptionJob
    → Database
    → Option DescriptionJob × Database
claim_staged p cfg message now job upload claim db =
    if is_staged p claim (asset_by_id job.user_id job.media_asset_id db)
      (upload_by_public_id job.user_id upload db)
    then (if is_described p (current_description job.user_id job.media_asset_id db)
        then (let (l, released) = release_description_request now db.usage job in
            (none, save (l, finish_description_job Status.succeeded now released) db))
        else (let (leased, db') = take_description_lease cfg (lease_hash p message) now job db in
            elim leased [
              | none ↦ (none, db')
              | some job' ↦ (some (record claim { attempt_count = job'.attempt_count }), db')
            ]))
    else (none, release_and_save now (fail_stale_description_job now job) db)

-- After the job has been found.
unfoldable pub claim_payload :
    Platform
    → Settings
    → String
    → DateTime
    → ProcessingJob
    → Database
    → Option DescriptionJob × Database
unfolding claim_staged
claim_payload p cfg message now job db = elim (read_payload p cfg job.request) [
  | none ↦ (none, release_and_save now (fail_invalid_description_job now job) db)
  | some q ↦ elim (checked_claim p message job q) [
    | none ↦ (none, release_and_save now (fail_invalid_description_job now job) db)
    | some claim ↦ claim_staged p cfg message now (pin_amounts now q.amounts job) q.upload claim db
  ]
]

-- `claim_description_job`
unfoldable pub claim_description_job :
    Platform → Settings → ℕ → String → DateTime → Database → Option DescriptionJob × Database
claim_description_job p cfg job_id message now db =
    if bad_message_id message then (none, db) else elim (job_by_public_id job_id db) [
      | none ↦ (none, db)
      | some job ↦
          if is_description job.job_type then claim_payload p cfg message now job db else (none, db)
    ]
