-- ===== src/Tests/Jobs.antt =====
-- The theorems about jobs outside a worker's claim, applied to sample rows.
use nektron_moments.Base.{
  ℕ, ◌+◌, ◌≤◌, ◌≡◌, refl, true, none, some, [], ◌∷◌, All, length, select, arith,
}
use nektron_moments.Records.{
  Status, FailureClass, ProcessingJob, MediaOccurrence, is_queued, JobType, empty_request,
}
use nektron_moments.Store.{
  Database, done, committed, first, asset_by_id, save, replace_job, add_job_change,
}
use nektron_moments.Soundness.{IsSound}
use nektron_moments.Geocode.Books.{KeepsBooks}
use nektron_moments.Ledger.{get}
use nektron_moments.Leases.{settle_job}
use nektron_moments.Reservations.{settle_provider_reservation, provider_call_started}
use nektron_moments.Charges.{settle_description_cost}
use nektron_moments.Description.Results.{settle_both}
use nektron_moments.Jobs.Redispatch.{is_due, reached, recover, is_dispatched, redispatch_due_jobs}
use nektron_moments.Jobs.Recovering.{redispatch_due_jobs-IsSound}
use nektron_moments.Jobs.Drained.{IsDue, redispatch_due_jobs_leaves_none}
use nektron_moments.Jobs.Scheduling.{recover_dispatches}
use nektron_moments.Jobs.View.{
  JobRecord, UserState, job_record, can_retry, state_of, is_skipped, is_skip_code,
}
use nektron_moments.Jobs.Retry.{retry_job, job_of_user, answered}
use nektron_moments.Jobs.Retrying.{retry_job-IsSound}
use nektron_moments.Jobs.Promised.{is_done, retry_job_as_promised}
use nektron_moments.Jobs.Trash.{Origin, delete_occurrence, active_count_for_asset, refers_to}
use nektron_moments.Jobs.Trashing.{delete_occurrence-IsSound}
use nektron_moments.Jobs.Stopping.{IsStopped, delete_occurrence_stops}
use nektron_moments.Jobs.Cancel.{
  cancel_job, message_of, cancel_found, cancel_allowed, cancelled_job,
}
use nektron_moments.Jobs.Cancelling.{cancel_job-IsSound}
use nektron_moments.Jobs.Skipped.{cancel_job_again}
use nektron_moments.Tests.Samples.{
  noon, settings, geocoding, geocode_rows, geocode_balanced, description_database,
  description_database-IsSound, database_of, job_of, asset,
}

-- After the leases of the samples have run out.
abbrev later : ℕ
later = noon + 2000000

redispatch_due_jobs-IsSound_example :
    KeepsBooks description_database (redispatch_due_jobs settings 10 later description_database)
redispatch_due_jobs-IsSound_example =
    redispatch_due_jobs-IsSound settings 10 later description_database description_database-IsSound

few_due : length (select (is_due later) description_database.jobs) ≤ 10
unfolding select is_due reached
few_due = ground arith

redispatch_due_jobs_leaves_none_example :
    All
      (λ job. ¬ IsDue later job)
      (committed description_database
        (redispatch_due_jobs settings 10 later description_database)).jobs
redispatch_due_jobs_leaves_none_example =
    redispatch_due_jobs_leaves_none settings 10 later description_database
      description_database-IsSound.distinct (ground arith) (ground arith) few_due

recover_dispatches_example :
    is_queued (recover settings later geocode_rows geocoding).1.status ≡ is_dispatched geocoding
recover_dispatches_example = recover_dispatches settings later geocode_rows geocoding

-- A geocode job that has failed once.
abbrev failed_job : ProcessingJob
failed_job = record geocoding {
  status = Status.failed;
  failure_class = some FailureClass.transient;
  failure_code = some "Timeout";
}

abbrev failed_database : Database
failed_database = database_of failed_job geocode_rows

failed_database-IsSound : IsSound failed_database
failed_database-IsSound = record {
  distinct = (tt, tt);
  whole = (record { usage_whole = λ held. refl; cost_whole = tt; cost_usd = tt }, tt);
  balanced = geocode_balanced;
}

retry_job-IsSound_example : KeepsBooks failed_database (retry_job 7 11 later failed_database)
retry_job-IsSound_example = retry_job-IsSound 7 11 later failed_database failed_database-IsSound

abbrev failed_view : JobRecord
failed_view = record {
  job_id = 11;
  media_asset_id = 13;
  job_type = JobType.geocode;
  status = Status.failed;
  state = UserState.needs_attention;
  attempt_count = 1;
  next_attempt_at = none;
  failure_class = some FailureClass.transient;
  error_code = some "Timeout";
  user_message = none;
  can_be_retried = true;
  created_at = noon;
  started_at = some noon;
  completed_at = none;
  updated_at = noon;
}

failed_found : job_of_user 7 11 failed_database ≡ some failed_job
unfolding job_of_user first
failed_found = refl

failed_shown : job_record failed_job failed_database ≡ some failed_view
unfolding job_record asset_by_id first can_retry state_of is_skipped
failed_shown = refl

retry_job_as_promised_example : true ≡ is_done (retry_job 7 11 later failed_database)
retry_job_as_promised_example =
    retry_job_as_promised 7 11 later failed_database failed_job failed_view failed_found
      failed_shown

-- The only occurrence of the sample asset.
abbrev occurrence : MediaOccurrence
occurrence = record {
  id = 31;
  public_id = 32;
  user_id = 7;
  source_id = 41;
  media_asset_id = some 3;
  is_kept = true;
  is_available = true;
  last_seen_at = noon;
  deleted_at = none;
  updated_at = noon;
}

abbrev kept_database : Database
kept_database = record description_database { occurrences = occurrence ∷ [] }

abbrev origin : Origin
origin = record { device_id = 51; source_id = 41 }

kept_database-IsSound : IsSound kept_database
kept_database-IsSound = record {
  distinct = description_database-IsSound.distinct;
  whole = description_database-IsSound.whole;
  balanced = description_database-IsSound.balanced;
}

delete_occurrence-IsSound_example :
    IsSound (delete_occurrence settings 30 noon 7 origin occurrence kept_database)
delete_occurrence-IsSound_example =
    delete_occurrence-IsSound settings 30 noon 7 origin occurrence kept_database
      kept_database-IsSound

last_occurrence : active_count_for_asset 7 3 31 kept_database ≡ 0
unfolding active_count_for_asset refers_to select
last_occurrence = refl

asset_found : asset_by_id 7 3 kept_database ≡ some asset
unfolding asset_by_id first
asset_found = refl

delete_occurrence_stops_example :
    IsStopped 7 3 (delete_occurrence settings 30 noon 7 origin occurrence kept_database)
delete_occurrence_stops_example =
    delete_occurrence_stops settings 30 noon 7 origin occurrence asset kept_database
      kept_database-IsSound.distinct refl last_occurrence asset_found refl

cancel_job-IsSound_example :
    KeepsBooks description_database
      (cancel_job settings 7 11 "UserSkipped" noon description_database)
cancel_job-IsSound_example =
    cancel_job-IsSound settings 7 11 "UserSkipped" noon description_database
      description_database-IsSound

abbrev skipped_view : JobRecord
skipped_view = record {
  job_id = 11;
  media_asset_id = 13;
  job_type = JobType.description;
  status = Status.cancelled;
  state = UserState.needs_attention;
  attempt_count = 1;
  next_attempt_at = none;
  failure_class = some FailureClass.invalid_media;
  error_code = some "UserSkipped";
  user_message = some "Scene description was skipped on this device.";
  can_be_retried = true;
  created_at = noon;
  started_at = some noon;
  completed_at = some noon;
  updated_at = noon;
}

-- A description that waits for its preview.
abbrev waiting : ProcessingJob
waiting = record (job_of JobType.description "OpenAI" empty_request) { status = Status.preparing }

abbrev waiting_database : Database
waiting_database = database_of waiting []

waiting_database-IsSound : IsSound waiting_database
unfolding get
waiting_database-IsSound = record {
  distinct = (tt, tt);
  whole = (record { usage_whole = tt; cost_whole = tt; cost_usd = tt }, tt);
  balanced = λ k. refl;
}

abbrev skipped_database : Database
skipped_database =
    committed waiting_database (cancel_job settings 7 11 "UserSkipped" noon waiting_database)

skipped_first :
    cancel_job settings 7 11 "UserSkipped" noon waiting_database
    ≡ done (skipped_view, tt) skipped_database
unfolding cancel_job message_of job_of_user first cancel_found cancel_allowed answered job_record
    asset_by_id can_retry state_of is_skipped cancelled_job settle_job settle_both
    settle_provider_reservation settle_description_cost provider_call_started save replace_job
    add_job_change is_skip_code
skipped_first = refl

known_reason :
    message_of "SourceChanged"
    ≡ some "Scene description was superseded because the source photo changed."
unfolding message_of
known_reason = refl

cancel_job_again_example :
    cancel_job settings 7 11 "SourceChanged" later skipped_database
    ≡ done (skipped_view, tt) skipped_database
cancel_job_again_example =
    cancel_job_again settings 7 11 "UserSkipped" "SourceChanged" noon later
      "Scene description was superseded because the source photo changed." (skipped_view, tt)
      waiting_database skipped_database waiting_database-IsSound.distinct known_reason skipped_first
