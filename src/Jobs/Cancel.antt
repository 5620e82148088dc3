-- ===== src/Jobs/Cancel.antt =====
-- `cancel_job`: the user, or the desktop, skips a scene description.
use nektron_moments.Base.{ℕ, String, Option, none, some, if◌then◌else◌, str_eq}
use nektron_moments.Clock.{DateTime}
use nektron_moments.Settings.{Settings}
use nektron_moments.Records.{
  is_description, Status, is_succeeded, is_cancelled, FailureClass, ProcessingJob,
}
use nektron_moments.Cost.{unavailable}
use nektron_moments.Reservations.{provider_call_started}
use nektron_moments.Leases.{settle_job}
use nektron_moments.Store.{
  Database, Outcome, raised, value_error, not_found, conflict, save, add_job_change,
}
use nektron_moments.Description.Results.{settle_both}
use nektron_moments.Jobs.View.{JobRecord}
use nektron_moments.Jobs.Retry.{job_of_user, answered}
use nektron_moments.Jobs.Trash.{cancel_uploads}

-- `messages`, by reason
unfoldable pub message_of : String → Option String
message_of reason =
    if str_eq reason "UnsupportedPhoto"
    then some "Scene description is unavailable for this photo format."
    else if str_eq reason "SourceUnavailable"
    then some "Scene description was skipped because the source photo is unavailable."
    else if str_eq reason "SourceChanged"
    then some "Scene description was superseded because the source photo changed."
    else if str_eq reason "UserSkipped"
    then some "Scene description was skipped on this device."
    else none

-- The settled job with the assignments that cancel it.
unfoldable pub cancelled_job : String → String → DateTime → ProcessingJob → ProcessingJob
unfolding settle_job
cancelled_job reason message now job =
    settle_job Status.cancelled none (some FailureClass.invalid_media) (some reason) (some message)
      (some now) now job

-- From the reading of the clock on: the job and the database.
unfoldable pub cancel_allowed :
    Settings → String → String → DateTime → ProcessingJob → Database → ProcessingJob × Database
unfolding settle_both cancelled_job cancel_uploads
cancel_allowed cfg reason message now job db =
    let called = provider_call_started job in
    let (l, settled) = settle_both cfg called called unavailable now db.usage job in
    let job' = cancelled_job reason message now settled in
    let cancelled = record db {
      uploads = cancel_uploads reason now job.user_id job.media_asset_id db.uploads;
    } in
    (job', add_job_change now job' (save (l, job') cancelled))

-- The `action`, for a reason with its message
unfoldable pub cancel_found :
    Settings
    → String
    → String
    → DateTime
    → ProcessingJob
    → Database
    → Outcome (JobRecord × Unit {0})
unfolding cancel_allowed answered
cancel_found cfg reason message now job db =
    if is_description job.job_type
    then (if is_succeeded job.status
        then raised (conflict "JobCancellationNotAllowed")
        else if is_cancelled job.status
        then answered tt job db
        else (let (job', db') = cancel_allowed cfg reason message now job db in
            answered tt job' db'))
    else raised (conflict "JobCancellationNotAllowed")

-- `cancel_job`
unfoldable pub cancel_job :
    Settings → ℕ → ℕ → String → DateTime → Database → Outcome (JobRecord × Unit {0})
unfolding message_of job_of_user cancel_found
cancel_job cfg user id reason now db = elim (message_of reason) [
  | none ↦ raised value_error
  | some message ↦ elim (job_of_user user id db) [
    | none ↦ raised (not_found "JobNotFound")
    | some job ↦ cancel_found cfg reason message now job db
  ]
]
