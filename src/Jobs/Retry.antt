-- ===== src/Jobs/Retry.antt =====
-- `retry_job`: the user's retry of a failed, deferred or skipped job, and the jobs that the circuit
-- breaker had deferred, which a retry promotes.
use nektron_moments.Base.{
  ℕ, String, Bool, false, not, ◌&&◌, ◌||◌, Option, none, some, List, [], ◌∷◌, ◌++◌, ◌==◌, leb,
  if◌then◌else◌, truthy,
}
use nektron_moments.Clock.{DateTime}
use nektron_moments.Records.{JobType, is_description, Status, is_failed, is_deferred, ProcessingJob}
use nektron_moments.Ledger.{Ledger}
use nektron_moments.Reservations.{release_description_request}
use nektron_moments.CircuitBreaker.{provider_circuit_is_open, close_provider_circuit}
use nektron_moments.Leases.{same_text, attempts_exhausted}
use nektron_moments.Store.{
  Database, Error, Outcome, done, raised, not_found, retry_not_allowed, first, save, add_job_change,
}
use nektron_moments.Jobs.Sweep.{sweep, update_jobs, clear_staging, reset_job}
use nektron_moments.Jobs.Selecting.{chosen}
use nektron_moments.Jobs.View.{JobRecord, job_record, is_skipped}

-- A job for the dispatcher, and its type
abbrev pub Dispatched : Type 0
Dispatched = ℕ × JobType

-- `provider == job.provider`, which is no row's if the job has none.
unfoldable pub same_provider : Option String → Option String → Bool
unfolding same_text
same_provider p none = false
same_provider p (some provider) = same_text p provider

-- The `where` clause of the jobs that wait for the circuit of this job's provider.
unfoldable pub waits_for_circuit : ProcessingJob → ProcessingJob → Bool
unfolding same_provider
waits_for_circuit job j =
    (j.user_id == job.user_id)
    && (same_provider j.provider job.provider
        && (is_deferred j.status
            && (same_text j.failure_code "ProviderCircuitOpen" && not (j.id == job.id))))

-- One round of the loop that promotes. The final `update` runs before the session writes the rows
-- (`autoflush` is off) and sets their next attempt too; a description's is written as null afterwards,
-- but not if it was null, since then the session sees no change.
unfoldable pub promote : DateTime → ProcessingJob → ProcessingJob
unfolding clear_staging reset_job
promote now j =
    let ready = record (reset_job now j) {
      attempt_count = 0;
      request = record j.request { quota_block_reason = none };
    } in
    if is_description j.job_type
    then record (clear_staging ready) {
      status = Status.preparing;
      next_attempt_at = elim j.next_attempt_at [ none ↦ some now | some t ↦ none ];
    }
    else record ready { status = Status.queued; next_attempt_at = some now }

-- `promoted_dispatch`
unfoldable pub promoted : List ProcessingJob → List Dispatched
promoted [] = []
promoted (j ∷ js) =
    if is_description j.job_type then promoted js else (j.public_id, j.job_type) ∷ promoted js

-- The rows that are left after the first hundred become due. The `update` comes first in the
-- database, and changes nothing else of the rows that are promoted.
unfoldable pub make_due : DateTime → ProcessingJob → ProcessingJob
make_due now j = record j { next_attempt_at = some now; updated_at = now }

-- `_promote_circuit_deferred_jobs` of a job that has a provider.
unfoldable pub promote_waiting : DateTime → ProcessingJob → Database → List Dispatched × Database
unfolding sweep update_jobs waits_for_circuit promote promoted make_due
promote_waiting now job db =
    let rows = chosen 100 (λ a b. leb a.id b.id) (waits_for_circuit job) db.jobs in
    let swept = sweep now (λ l j. (l, promote now j)) rows db in
    (
      promoted rows,
      record swept { jobs = update_jobs (waits_for_circuit job) (make_due now) swept.jobs },
    )

-- `job.provider` is truthy.
unfoldable pub has_provider : ProcessingJob → Bool
has_provider job = elim job.provider [ none ↦ false | some provider ↦ truthy provider ]

-- `_promote_circuit_deferred_jobs`
unfoldable pub promote_circuit_deferred_jobs :
    DateTime → ProcessingJob → Database → List Dispatched × Database
unfolding promote_waiting has_provider
promote_circuit_deferred_jobs now job db =
    if has_provider job then promote_waiting now job db else ([], db)

-- The circuit is closed and what waited for it is promoted, if it is open.
unfoldable pub recover_circuit : DateTime → ProcessingJob → Database → List Dispatched × Database
unfolding promote_circuit_deferred_jobs
recover_circuit now job db =
    if provider_circuit_is_open now db.usage job
    then promote_circuit_deferred_jobs now job
        (record db { usage = close_provider_circuit now db.usage job })
    else ([], db)

-- Why a job may not be retried.
unfoldable pub retry_refusal : ProcessingJob → Option Error
retry_refusal job =
    if not (is_failed job.status || is_deferred job.status) && not (is_skipped job)
    then some (retry_not_allowed "JobRetryNotAllowed")
    else if is_failed job.status && attempts_exhausted job
    then some (retry_not_allowed "JobAttemptsExhausted")
    else none

-- The rows of a description are released and its staging is cleared.
unfoldable pub unstage : DateTime → Ledger → ProcessingJob → Ledger × ProcessingJob
unfolding clear_staging
unstage now l job =
    if is_description job.job_type
    then (let (l', job') = release_description_request now l job in (l', clear_staging job'))
    else (l, job)

-- The assignments that end a retry.
unfoldable pub restarted : DateTime → ProcessingJob → ProcessingJob
unfolding reset_job
restarted now job = record (reset_job now job) {
  status = if is_description job.job_type then Status.preparing else Status.queued;
  next_attempt_at = if is_description job.job_type then none else some now;
  started_at = none;
}

unfoldable pub restart_deferred : ProcessingJob → ProcessingJob
restart_deferred job = if is_deferred job.status then record job { attempt_count = 0 } else job

-- The `action` from the reading of the clock on: `dispatch_jobs`, the job, and the database.
unfoldable pub retry_allowed :
    DateTime → ProcessingJob → Database → List Dispatched × ProcessingJob × Database
unfolding recover_circuit unstage restarted restart_deferred
retry_allowed now job db =
    let (promotions, db₁) = recover_circuit now job db in
    let (l, unstaged) = unstage now db₁.usage (restart_deferred job) in
    let job' = restarted now unstaged in
    (
      (if is_description job.job_type
          then promotions
          else promotions ++ (job'.public_id, job'.job_type) ∷ []),
      job',
      add_job_change now job' (save (l, job') db₁),
    )

-- `JobRepository.require`, without its exception
unfoldable pub job_of_user : ℕ → ℕ → Database → Option ProcessingJob
unfolding first
job_of_user user id db = first (λ job. (job.user_id == user) && (job.public_id == id)) db.jobs

-- The record of the changed job is the answer.
unfoldable pub answered : {A : Type 0} → A → ProcessingJob → Database → Outcome (JobRecord × A)
answered a job db = elim (job_record job db) [
  | none ↦ raised (not_found "MediaNotFound")
  | some view ↦ done (view, a) db
]

-- The `action` of `retry_job`
unfoldable pub retry_job : ℕ → ℕ → DateTime → Database → Outcome (JobRecord × List Dispatched)
unfolding retry_refusal retry_allowed job_of_user answered
retry_job user id now db = elim (job_of_user user id db) [
  | none ↦ raised (not_found "JobNotFound")
  | some job ↦ elim (retry_refusal job) [
    | some e ↦ raised e
    | none ↦ let (dispatch, job', db') = retry_allowed now job db in answered dispatch job' db'
  ]
]
