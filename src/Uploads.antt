-- ===== src/Uploads.antt =====
-- Temporary uploads of scene previews (services/domain/service.py): completing, cancelling and
-- expiring them, with the job that waits for the preview. The object store is outside the database:
-- what `head_object` finds is an argument, and a store that is missing or raises rolls the
-- transaction back.
pub mod Complete
pub mod Books
use nektron_moments.Base.{
  ℕ, String, Bool, true, false, not, ◌&&◌, ◌||◌, Option, none, some, List, [], ◌∷◌, ◌==◌, select,
  take, leb, str_eq, if◌then◌else◌, is_some,
}
use nektron_moments.Numbers.{pos}
use nektron_moments.Platform.{Platform}
use nektron_moments.Clock.{DateTime}
use nektron_moments.Records.{
  is_description, Status, is_preparing, ProcessingJob, MediaAsset, is_local_only, UploadStatus,
  is_completed, UploadSession, Staging,
}
use nektron_moments.Leases.{same_text}
use nektron_moments.Reservations.{release_description_request}
use nektron_moments.Store.{
  Database, Error, not_found, conflict, Outcome, done, raised, save, add_job_change, asset_by_id,
}
use nektron_moments.Description.Claim.{upload_by_public_id}
use nektron_moments.Description.Payload.{is_sha256, normalized_mime, scene_preview_mime_type}
use nektron_moments.Jobs.Sweep.{clear_staging, reset_job}
use nektron_moments.Jobs.Retry.{job_of_user}

-- `_require_temporary_single_part` does not raise.
unfoldable pub is_supported : UploadSession → Bool
is_supported upload = upload.is_temporary && (upload.is_single_part && upload.is_whole_object)

-- `_job_for_upload_session`
unfoldable pub job_for_upload : ℕ → UploadSession → Database → Outcome ProcessingJob
unfolding job_of_user
job_for_upload user upload db = elim upload.processing_job [
  | none ↦ raised (conflict "UploadSessionInvalid")
  | some id ↦ elim (job_of_user user id db) [
    | none ↦ raised (not_found "JobNotFound")
    | some job ↦
        if is_description job.job_type && (job.media_asset_id == upload.media_asset_id)
        then done job db
        else raised (conflict "UploadSessionInvalid")
  ]
]

-- An upload written back; public ids are unique.
unfoldable pub replace_upload : UploadSession → List UploadSession → List UploadSession
replace_upload row [] = []
replace_upload row (x ∷ xs) =
    if x.public_id == row.public_id then row ∷ xs else x ∷ replace_upload row xs

unfoldable pub ended_upload : UploadStatus → String → DateTime → UploadSession → UploadSession
ended_upload status code now upload = record upload {
  status = status;
  active_lease_marker = none;
  failure_code = some code;
  updated_at = now;
}

unfoldable pub write_upload : UploadSession → Database → Database
unfolding replace_upload
write_upload upload db = record db { uploads = replace_upload upload db.uploads }

-- `status in {"Preparing", "Uploading", "Completing"}`
unfoldable pub is_unfinished : UploadStatus → Bool
is_unfinished UploadStatus.preparing = true
is_unfinished UploadStatus.uploading = true
is_unfinished UploadStatus.completing = true
is_unfinished _ = false

-- `active_lease_marker == 1`
unfoldable pub is_leased : UploadSession → Bool
is_leased upload = elim upload.active_lease_marker [ none ↦ false | some n ↦ n == 1 ]

-- The release for a job that still waits, and the upload's end.
unfoldable pub expire_with : DateTime → UploadSession → ProcessingJob → Database → Database
unfolding ended_upload write_upload
expire_with now upload job db =
    let db' =
      if is_preparing job.status
      then save (release_description_request now db.usage job) db
      else db in
    write_upload (ended_upload UploadStatus.expired "UploadLeaseExpired" now upload) db'

-- One round of `_expire_temporary_uploads`, and the same in `get_upload_session`
unfoldable pub expire_upload : ℕ → DateTime → UploadSession → Database → Outcome (Unit {0})
unfolding job_for_upload expire_with
expire_upload user now upload db = elim (job_for_upload user upload db) [
  | raised e ↦ raised e
  | done job db' ↦ done tt (expire_with now upload job db')
]

-- The part of `get_upload_session` that writes.
unfoldable pub refresh_upload : ℕ → ℕ → DateTime → Database → Outcome (Unit {0})
unfolding is_supported is_unfinished is_leased expire_upload
refresh_upload user id now db = elim (upload_by_public_id user id db) [
  | none ↦ raised (not_found "UploadSessionNotFound")
  | some upload ↦
      if is_supported upload
      then (if is_leased upload && (is_unfinished upload.status && leb upload.expires_at now)
          then expire_upload user now upload db
          else done tt db)
      else raised (conflict "UploadSessionNotSupported")
]

-- What a cancellation makes of its job.
unfoldable pub unprepare : DateTime → ProcessingJob → ProcessingJob
unfolding clear_staging
unprepare now job = record (clear_staging job) {
  status = Status.preparing;
  next_attempt_at = none;
  updated_at = now;
}

unfoldable pub cancel_with :
    DateTime → UploadSession → ProcessingJob → Database → Outcome (Unit {0})
unfolding unprepare ended_upload write_upload
cancel_with now upload job db =
    if is_preparing job.status
    then done tt (
        save (release_description_request now db.usage (unprepare now job))
          (write_upload (ended_upload UploadStatus.cancelled "CancelledByClient" now upload) db))
    else raised (conflict "ProcessingJobAlreadyQueued")

unfoldable pub was_cancelled : UploadStatus → Bool
was_cancelled UploadStatus.cancelled = true
was_cancelled _ = false

-- The `action` of `cancel_upload`, on the upload that it found
unfoldable pub cancel_found_upload : ℕ → DateTime → UploadSession → Database → Outcome (Unit {0})
unfolding job_for_upload cancel_with is_supported was_cancelled
cancel_found_upload user now upload db =
    if is_supported upload
    then (if is_completed upload.status
        then raised (conflict "UploadAlreadyCompleted")
        else if was_cancelled upload.status
        then done tt db
        else (elim (job_for_upload user upload db) [
          | raised e ↦ raised e
          | done job db' ↦ cancel_with now upload job db'
        ]))
    else raised (conflict "UploadSessionNotSupported")

-- The `action` of `cancel_upload`
unfoldable pub cancel_upload : ℕ → ℕ → DateTime → Database → Outcome (Unit {0})
unfolding cancel_found_upload
cancel_upload user id now db = elim (upload_by_public_id user id db) [
  | none ↦ raised (not_found "UploadSessionNotFound")
  | some upload ↦ cancel_found_upload user now upload db
]

-- `expired_active_for_user`; the table is in the order of its ids.
unfoldable pub is_expired_of : ℕ → DateTime → UploadSession → Bool
unfolding is_leased
is_expired_of user now upload =
    (upload.user_id == user)
    && (upload.is_temporary && (is_leased upload && leb upload.expires_at now))

-- The loop of `_expire_temporary_uploads`
unfoldable pub expire_uploads : ℕ → DateTime → List UploadSession → Database → Outcome (Unit {0})
unfolding is_supported expire_upload
expire_uploads user now [] db = done tt db
expire_uploads user now (upload ∷ uploads) db =
    if is_supported upload
    then (elim (expire_upload user now upload db) [
      | raised e ↦ raised e
      | done _ db' ↦ expire_uploads user now uploads db'
    ])
    else raised (conflict "UploadSessionNotSupported")

-- `_expire_temporary_uploads`
unfoldable pub expire_temporary_uploads : ℕ → DateTime → Database → Outcome (Unit {0})
unfolding is_expired_of expire_uploads
expire_temporary_uploads user now db =
    expire_uploads user now (take 100 (select (is_expired_of user now) db.uploads)) db
