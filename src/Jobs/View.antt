-- ===== src/Jobs/View.antt =====
-- What the client sees of a job and of an asset: `_job_record` and `_user_facing_state`.
use nektron_moments.Base.{
  ℕ, String, Bool, false, ◌&&◌, ◌||◌, Option, none, some, List, [], ◌∷◌, ◌==◌, ltb, str_eq,
  if◌then◌else◌,
}
use nektron_moments.Clock.{DateTime}
use nektron_moments.Records.{
  JobType, is_description, Status, is_preparing, is_queued, is_running, is_failed, is_deferred,
  is_cancelled, FailureClass, ProcessingJob, MediaAsset, StorageState,
}
use nektron_moments.Store.{Database, asset_by_id}

-- The states that the client shows
pub data UserState : Type 0 where
  preparing uploading processing ready waiting_for_monthly_quota needs_attention : UserState

unfoldable pub state_of : Status → UserState
state_of Status.preparing = UserState.preparing
state_of Status.queued = UserState.processing
state_of Status.running = UserState.processing
state_of Status.succeeded = UserState.ready
state_of Status.deferred_quota = UserState.waiting_for_monthly_quota
state_of Status.failed = UserState.needs_attention
state_of Status.cancelled = UserState.needs_attention

-- The failure codes of a description that the user, or the desktop, skipped.
unfoldable pub is_skip_code : Option String → Bool
is_skip_code none = false
is_skip_code (some code) =
    str_eq code "UnsupportedPhoto"
    || (str_eq code "SourceChanged"
        || (str_eq code "SourceUnavailable" || str_eq code "UserSkipped"))

-- `retryable_cancel`
unfoldable pub is_skipped : ProcessingJob → Bool
unfolding is_skip_code
is_skipped job =
    is_description job.job_type && (is_cancelled job.status && is_skip_code job.failure_code)

-- `can_retry`
unfoldable pub can_retry : ProcessingJob → Bool
can_retry job =
    is_deferred job.status
    || (is_skipped job || (is_failed job.status && ltb job.attempt_count job.max_attempts))

-- `JobRecord`
pub record JobRecord : Type 0 where
  pub job_id : ℕ
  pub media_asset_id : ℕ
  pub job_type : JobType
  pub status : Status
  pub state : UserState
  pub attempt_count : ℕ
  pub next_attempt_at : Option DateTime
  pub failure_class : Option FailureClass
  pub error_code : Option String
  pub user_message : Option String
  pub can_be_retried : Bool
  pub created_at : DateTime
  pub started_at : Option DateTime
  pub completed_at : Option DateTime
  pub updated_at : DateTime

-- `_job_record`; `none` if the asset is not found.
unfoldable pub job_record : ProcessingJob → Database → Option JobRecord
unfolding state_of can_retry
job_record job db = elim (asset_by_id job.user_id job.media_asset_id db) [
  | none ↦ none
  | some asset ↦ some (record {
    job_id = job.public_id;
    media_asset_id = asset.public_id;
    job_type = job.job_type;
    status = job.status;
    state = state_of job.status;
    attempt_count = job.attempt_count;
    next_attempt_at = job.next_attempt_at;
    failure_class = job.failure_class;
    error_code = job.failure_code;
    user_message = job.failure_message;
    can_be_retried = can_retry job;
    created_at = job.created_at;
    started_at = job.started_at;
    completed_at = job.completed_at;
    updated_at = job.updated_at;
  })
]

-- Some job of the asset has a status that passes the test.
unfoldable pub has_status : ℕ → ℕ → (Status → Bool) → List ProcessingJob → Bool
has_status user asset test [] = false
has_status user asset test (job ∷ jobs) =
    ((job.user_id == user) && ((job.media_asset_id == asset) && test job.status))
    || has_status user asset test jobs

-- What the jobs of the asset show.
unfoldable pub jobs_state : ℕ → ℕ → List ProcessingJob → UserState
unfolding has_status
jobs_state user asset jobs =
    if has_status user asset is_deferred jobs
    then UserState.waiting_for_monthly_quota
    else if has_status user asset is_failed jobs
    then UserState.needs_attention
    else if has_status user asset is_preparing jobs
    then UserState.preparing
    else if has_status user asset (λ s. is_queued s || is_running s) jobs
    then UserState.processing
    else UserState.ready

-- `_user_facing_state`
unfoldable pub user_facing_state : ℕ → MediaAsset → Database → UserState
unfolding jobs_state
user_facing_state user asset db = elim asset.storage_state [
  | StorageState.upload_pending ↦ UserState.preparing
  | StorageState.uploading ↦ UserState.uploading
  | _ ↦ jobs_state user asset.id db.jobs
]
