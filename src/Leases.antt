-- ===== src/Leases.antt =====
-- The lease on a running job, as `claim_geocode_job` and `claim_description_job` take it.
use nektron_moments.Base.{
  suc, String, Bool, false, not, ◌&&◌, ◌||◌, Option, none, some, ltb, leb, str_eq,
}
use nektron_moments.Clock.{DateTime}
use nektron_moments.Records.{Status, is_running, is_queued, FailureClass, ProcessingJob}

-- `lease_expires_at_utc is not None and lease_expires_at_utc > now`
unfoldable pub unexpired : DateTime → Option DateTime → Bool
unexpired now none = false
unexpired now (some t) = ltb now t

unfoldable pub same_text : Option String → String → Bool
same_text none s = false
same_text (some t) s = str_eq t s

-- `same_active_lease`
unfoldable pub same_active_lease : String → DateTime → ProcessingJob → Bool
same_active_lease hash now job =
    is_running job.status
    && (same_text job.lease_token_hash hash && unexpired now job.lease_expires_at)

-- `expired_running_lease`
unfoldable pub expired_running_lease : DateTime → ProcessingJob → Bool
expired_running_lease now job = is_running job.status && not (unexpired now job.lease_expires_at)

-- `next_attempt_at_utc is not None and next_attempt_at_utc > now`
unfoldable pub not_due : DateTime → ProcessingJob → Bool
not_due now job = unexpired now job.next_attempt_at

-- `job.status != "Queued" and not expired_running_lease` fails
unfoldable pub claimable : DateTime → ProcessingJob → Bool
claimable now job = is_queued job.status || expired_running_lease now job

unfoldable pub attempts_exhausted : ProcessingJob → Bool
attempts_exhausted job = leb job.max_attempts job.attempt_count

-- `job.started_at_utc or now`
or_now : DateTime → Option DateTime → Option DateTime
or_now now none = some now
or_now now (some t) = some t

-- The assignments that start an attempt under a new lease.
unfoldable pub start_attempt : String → DateTime → DateTime → ProcessingJob → ProcessingJob
unfolding or_now
start_attempt hash expires now job = record job {
  status = Status.running;
  attempt_count = suc job.attempt_count;
  lease_token_hash = some hash;
  lease_expires_at = some expires;
  started_at = or_now now job.started_at;
  completed_at = none;
  failure_class = none;
  failure_code = none;
  failure_message = none;
  updated_at = now;
}

-- The assignments of a claim that finds the attempts exhausted; lease and due time stay.
unfoldable pub exhaust : String → DateTime → ProcessingJob → ProcessingJob
exhaust message now job = record job {
  status = Status.failed;
  failure_class = some FailureClass.internal;
  failure_code = some "AttemptsExhausted";
  failure_message = some message;
  completed_at = some now;
  updated_at = now;
}

-- A job that has ended or waits, with its lease dropped and the failure that it shows.
unfoldable pub settle_job :
    Status
    → Option DateTime
    → Option FailureClass
    → Option String
    → Option String
    → Option DateTime
    → DateTime
    → ProcessingJob
    → ProcessingJob
settle_job status next class code message completed now job = record job {
  status = status;
  next_attempt_at = next;
  lease_token_hash = none;
  lease_expires_at = none;
  failure_class = class;
  failure_code = code;
  failure_message = message;
  completed_at = completed;
  updated_at = now;
}
