-- ===== src/Jobs/Redispatch.antt =====
-- `redispatch_due_jobs`: durable jobs that are due run again, whatever became of their message.
use nektron_moments.Base.{
  ℕ, ◌+◌, Bool, true, false, not, ◌&&◌, ◌||◌, Option, none, some, List, [], ◌∷◌, ◌==◌, leb, ltb,
  if◌then◌else◌,
}
use nektron_moments.Clock.{DateTime, seconds}
use nektron_moments.Settings.{Settings}
use nektron_moments.Records.{
  is_description, is_geocode, Status, is_queued, is_running, is_deferred, FailureClass,
  ProcessingJob,
}
use nektron_moments.Ledger.{Ledger}
use nektron_moments.Cost.{unavailable}
use nektron_moments.Reservations.{
  settle_provider_reservation, release_description_request, provider_call_started,
}
use nektron_moments.Leases.{attempts_exhausted, settle_job}
use nektron_moments.Store.{Database, Outcome, done, raised, value_error}
use nektron_moments.Description.Results.{settle_both}
use nektron_moments.Jobs.Sweep.{sweep, clear_staging, reset_job}
use nektron_moments.Jobs.Selecting.{chosen}

-- `DISPATCH_RECOVERY_DELAY`
abbrev pub dispatch_recovery_delay : ℕ
dispatch_recovery_delay = seconds 300

-- `column is not None and column <= now`
unfoldable pub reached : DateTime → Option DateTime → Bool
reached now none = false
reached now (some t) = leb t now

-- The `where` clause.
unfoldable pub is_due : DateTime → ProcessingJob → Bool
unfolding reached
is_due now job =
    (is_queued job.status
      && (reached now job.next_attempt_at && leb (job.updated_at + dispatch_recovery_delay) now))
    || ((is_running job.status && reached now job.lease_expires_at)
        || (is_deferred job.status && reached now job.next_attempt_at))

-- `order_by(next_attempt_at_utc.asc(), id.asc())`, where a missing time stands first.
unfoldable pub sooner : ProcessingJob → ProcessingJob → Bool
sooner a b = elim a.next_attempt_at [
  | none ↦ elim b.next_attempt_at [ none ↦ leb a.id b.id | some u ↦ true ]
  | some t ↦ elim b.next_attempt_at [
    | none ↦ false
    | some u ↦ if ltb t u then true else (t == u) && leb a.id b.id
  ]
]

-- The reservations of an attempt that ran out: the provider may already have accepted it.
unfoldable pub settle_abandoned :
    Settings → DateTime → Ledger → ProcessingJob → Ledger × ProcessingJob
unfolding settle_both
settle_abandoned cfg now l job =
    if is_description job.job_type
    then (let called = provider_call_started job in
        settle_both cfg called called unavailable now l job)
    else settle_provider_reservation true now l job

-- The reservations of a deferred job.
unfoldable pub release_deferred : DateTime → Ledger → ProcessingJob → Ledger × ProcessingJob
release_deferred now l job =
    if is_description job.job_type
    then release_description_request now l job
    else settle_provider_reservation false now l job

unfoldable pub restart_attempts : Ledger × ProcessingJob → Ledger × ProcessingJob
restart_attempts (l, job) = (l, record job { attempt_count = 0 })

-- The branches on `original_status` that settle what the job holds.
unfoldable pub settle_due : Settings → DateTime → Ledger → ProcessingJob → Ledger × ProcessingJob
unfolding settle_abandoned release_deferred restart_attempts
settle_due cfg now l job =
    if is_running job.status
    then settle_abandoned cfg now l job
    else if is_deferred job.status
    then restart_attempts (release_deferred now l job)
    else (l, job)

-- A deferred description is staged again; any other job is queued.
unfoldable pub restart : Bool → DateTime → ProcessingJob → ProcessingJob
unfolding clear_staging reset_job
restart deferred now job =
    if deferred && is_description job.job_type
    then record (clear_staging (reset_job now job)) {
      status = Status.preparing;
      next_attempt_at = none;
    }
    else record (reset_job now job) { status = Status.queued; next_attempt_at = some now }

unfoldable pub exhausted_job : DateTime → ProcessingJob → ProcessingJob
unfolding settle_job
exhausted_job now job =
    settle_job Status.failed none (some FailureClass.internal) (some "AttemptsExhausted")
      (some "Processing exhausted its retry attempts.") (some now) now job

-- The rest of the round, on the settled job.
unfoldable pub requeue : Status → DateTime → ProcessingJob → ProcessingJob
unfolding restart exhausted_job
requeue original now job =
    if not (is_deferred original) && attempts_exhausted job
    then exhausted_job now job
    else restart (is_deferred original) now job

-- One round of the loop.
unfoldable pub recover : Settings → DateTime → Ledger → ProcessingJob → Ledger × ProcessingJob
unfolding settle_due requeue
recover cfg now l job =
    let (l', settled) = settle_due cfg now l job in (l', requeue job.status now settled)

-- `dispatch[job_type]`, in the order of the rounds.
unfoldable pub dispatched : (ProcessingJob → Bool) → List ProcessingJob → List ℕ
dispatched test [] = []
dispatched test (job ∷ jobs) =
    if test job then job.public_id ∷ dispatched test jobs else dispatched test jobs

-- A job whose round ends in `dispatch[job.job_type].append`.
unfoldable pub is_dispatched : ProcessingJob → Bool
is_dispatched job =
    if is_deferred job.status
    then not (is_description job.job_type)
    else not (attempts_exhausted job)

-- What is handed to the dispatcher: geocode jobs and descriptions.
abbrev pub Dispatch : Type 0
Dispatch = List ℕ × List ℕ

unfoldable pub dispatch_of : List ProcessingJob → Dispatch
unfolding dispatched is_dispatched
dispatch_of jobs = (
  dispatched (λ job. is_dispatched job && is_geocode job.job_type) jobs,
  dispatched (λ job. is_dispatched job && is_description job.job_type) jobs,
)

-- `redispatch_due_jobs` with a dispatcher: what is dispatched; the code returns its length.
unfoldable pub redispatch_due_jobs : Settings → ℕ → DateTime → Database → Outcome Dispatch
unfolding sweep recover is_due sooner dispatch_of
redispatch_due_jobs cfg limit now db =
    if leb 1 limit && leb limit 500
    then (let jobs = chosen limit sooner (is_due now) db.jobs in
        done (dispatch_of jobs) (sweep now (recover cfg now) jobs db))
    else raised value_error
