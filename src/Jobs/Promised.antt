-- ===== src/Jobs/Promised.antt =====
-- What a client is shown of a job tells whether its retry is accepted.
use nektron_moments.Base.{
  ℕ, ◌≡◌, refl, sym, ap, ◌∙◌, Bool, true, false, not, some, List, [], ◌∷◌, inl, inr, Bool-cases,
  Option-cases, leb, is_some, arith,
}
use nektron_moments.Clock.{DateTime}
use nektron_moments.Records.{ProcessingJob, Status, is_description, is_deferred}
use nektron_moments.Ledger.{Ledger}
use nektron_moments.Reservations.Releases.{release_cases}
use nektron_moments.CircuitBreaker.{provider_circuit_is_open, close_provider_circuit}
use nektron_moments.Leases.{attempts_exhausted}
use nektron_moments.Store.{Database, Outcome, done, raised, asset_by_id, save, add_job_change}
use nektron_moments.Jobs.Sweep.{sweep, clear_staging, reset_job}
use nektron_moments.Jobs.Selecting.{chosen}
use nektron_moments.Jobs.View.{JobRecord, job_record, can_retry, is_skipped}
use nektron_moments.Jobs.Scheduling.{release-SameSchedule}
use nektron_moments.Jobs.Retry.{
  promote, waits_for_circuit, promote_circuit_deferred_jobs, promote_waiting, has_provider,
  recover_circuit, retry_refusal, unstage, restarted, restart_deferred, retry_allowed, job_of_user,
  answered, retry_job,
}

-- The transaction returned.
abbrev pub is_done : {A : Type 0} → Outcome A → Bool
is_done (done a db) = true
is_done (raised e) = false

allowed_cases : (job : ProcessingJob) → not (is_some (retry_refusal job)) ≡ can_retry job
unfolding retry_refusal can_retry is_skipped attempts_exhausted
allowed_cases job =
    elim job.status
      as (λ s.
        let at = record job { status = s } in not (is_some (retry_refusal at)) ≡ can_retry at) [
          | Status.preparing ↦ ground arith
          | Status.queued ↦ ground arith
          | Status.running ↦ ground arith
          | Status.succeeded ↦ ground arith
          | Status.failed ↦ ground arith
          | Status.deferred_quota ↦ refl
          | Status.cancelled ↦ ground arith
        ]

sweep_assets :
    (now : DateTime) (change : Ledger → ProcessingJob → Ledger × ProcessingJob)
    (jobs : List ProcessingJob) (db : Database)
    → (sweep now change jobs db).assets ≡ db.assets
unfolding sweep save add_job_change
sweep_assets now change [] db = refl
sweep_assets now change (job ∷ jobs) db =
    let r = change db.usage job in sweep_assets now change jobs (add_job_change now r.1 (save r db))

circuit_assets :
    (now : DateTime) (job : ProcessingJob) (db : Database)
    → (recover_circuit now job db).1.assets ≡ db.assets
unfolding recover_circuit promote_circuit_deferred_jobs promote_waiting
circuit_assets now job db = elim (Bool-cases (provider_circuit_is_open now db.usage job)) [
  | inl opened ↦ elim (Bool-cases (has_provider job)) [
    | inl named ↦
        rw (opened, named)
          (sweep_assets now (λ l j. (l, promote now j))
            (chosen 100 (λ a b. leb a.id b.id) (waits_for_circuit job) db.jobs)
            (record db { usage = close_provider_circuit now db.usage job }))
    | inr unnamed ↦ rw (opened, unnamed) refl
  ]
  | inr closed ↦ rw closed refl
]

retried_asset :
    (now : DateTime) (l : Ledger) (job : ProcessingJob)
    → let job' = restarted now (unstage now l (restart_deferred job)).1 in
      (job'.user_id ≡ job.user_id) × (job'.media_asset_id ≡ job.media_asset_id)
unfolding restarted reset_job unstage clear_staging restart_deferred
retried_asset now l job = elim (Bool-cases (is_deferred job.status)) [
  | inl waits ↦ elim (Bool-cases (is_description job.job_type)) [
    | inl scene ↦
        let job₁ = record job { attempt_count = 0 } in
        rw (waits, scene) ((release_cases now l job₁).1, (release-SameSchedule now l job₁).4)
    | inr place ↦ rw (waits, place) (refl, refl)
  ]
  | inr on ↦ elim (Bool-cases (is_description job.job_type)) [
    | inl scene ↦ rw (on, scene) ((release_cases now l job).1, (release-SameSchedule now l job).4)
    | inr place ↦ rw (on, place) (refl, refl)
  ]
]

-- A record shows what `can_retry` says, and that the asset is there.
shown :
    (job : ProcessingJob) (db : Database) (view : JobRecord)
    → job_record job db ≡ some view
    → (view.can_be_retried ≡ can_retry job)
      × (is_some (asset_by_id job.user_id job.media_asset_id db) ≡ true)
unfolding job_record
shown job db view e = elim (Option-cases (asset_by_id job.user_id job.media_asset_id db)) [
  | inl missing ↦ absurd (ground (arith, e, missing))
  | inr (asset, found) ↦ ground (arith, e, found)
]

is_some-record :
    (job : ProcessingJob) (db : Database)
    → is_some (job_record job db) ≡ is_some (asset_by_id job.user_id job.media_asset_id db)
unfolding job_record
is_some-record job db = elim (Option-cases (asset_by_id job.user_id job.media_asset_id db)) [
  | inl missing ↦ rw (missing, job_record) refl
  | inr (asset, found) ↦ rw (found, job_record) refl
]

is_done-answered :
    {A : Type 0} (a : A) (job : ProcessingJob) (db : Database)
    → is_done (answered a job db) ≡ is_some (asset_by_id job.user_id job.media_asset_id db)
unfolding answered
is_done-answered a job db =
    let e = is_some-record job db in
    elim (Option-cases (job_record job db)) [
      | inl missing ↦ rw (missing, answered) (rw missing at e)
      | inr (view, found) ↦ rw (found, answered) (rw found at e)
    ]

allowed_finds :
    (now : DateTime) (job : ProcessingJob) (db : Database)
    → let (_, job', db') = retry_allowed now job db in
      asset_by_id job'.user_id job'.media_asset_id db'
      ≡ asset_by_id job.user_id job.media_asset_id db
unfolding retry_allowed asset_by_id save add_job_change
allowed_finds now job db =
    let db₁ = (recover_circuit now job db).1 in
    let same = retried_asset now db₁.usage job in
    rw (same.0, same.1, circuit_assets now job db) refl

-- If the client was shown a job that is still stored, then `can_retry` tells whether the retry of
-- that job is accepted.
pub retry_job_as_promised :
    (user id : ℕ) (now : DateTime) (db : Database) (job : ProcessingJob) (view : JobRecord)
    → job_of_user user id db ≡ some job
    → job_record job db ≡ some view
    → view.can_be_retried ≡ is_done (retry_job user id now db)
unfolding retry_job
retry_job_as_promised user id now db job view e record_of =
    let (told, there) = shown job db view record_of in
    let allowed = allowed_cases job in
    elim (Option-cases (retry_refusal job)) [
      | inr (why, refused) ↦ rw (e, refused, retry_job) (told ∙ sym (rw refused at allowed))
      | inl free ↦
          let r = retry_allowed now job db in
          rw (e, free, retry_job)
            (told
              ∙ sym (rw free at allowed)
              ∙ sym (is_done-answered r.0 r.1 r.2 ∙ ap is_some (allowed_finds now job db) ∙ there))
    ]
