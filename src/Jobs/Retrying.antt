-- ===== src/Jobs/Retrying.antt =====
-- Retries by the user: the books, and that the client is told the truth about them.
use nektron_moments.Base.{
  ℕ, ◌≡◌, ◌≢◌, refl, sym, ◌∙◌, Bool, true, false, List, All, inl, inr, Bool-cases, Option-cases,
  leb, arith, ◌==◌, eqb_refl, select, All-select, sort_by, All-take, All-sort_by, eq→eqb, All-map,
}
use nektron_moments.Clock.{DateTime}
use nektron_moments.Records.{ProcessingJob, is_description, is_deferred}
use nektron_moments.Ledger.{Ledger}
use nektron_moments.Reservations.{release_description_request}
use nektron_moments.CircuitBreaker.{provider_circuit_is_open, close_provider_circuit}
use nektron_moments.CircuitBreaker.Laws.{reserved_at-close_circuit}
use nektron_moments.Store.{Database, save}
use nektron_moments.Soundness.{IsSound, SameBooks, add_job_change-IsSound}
use nektron_moments.Soundness.Steps.{
  Covers, Step, Step-Covers, Step-trans, Step-IsSound, first-Covers, Step-SameBooks, SameBooks-Step,
  release-Step,
}
use nektron_moments.Geocode.Books.{KeepsBooks}
use nektron_moments.Jobs.Sweep.{sweep, clear_staging, reset_job}
use nektron_moments.Jobs.Sweeping.{
  Stored, All-Stored, first-Stored, Stored-update_jobs, sweep-IsSound, sweep_stays,
}
use nektron_moments.Jobs.Selecting.{chosen, DistinctIds-chosen, All-chosen, update_jobs-IsSound}
use nektron_moments.Records.{UsageKey}
use nektron_moments.Reservations.Held.{reserved_at}
use nektron_moments.Store.Laws.{Fresh}
use nektron_moments.Jobs.View.{job_record}
use nektron_moments.Jobs.Retry.{
  waits_for_circuit, promote, make_due, promote_waiting, has_provider,
  promote_circuit_deferred_jobs, recover_circuit, retry_refusal, unstage, restarted,
  restart_deferred, retry_allowed, job_of_user, answered, retry_job,
}

abbrev by_id : ProcessingJob → ProcessingJob → Bool
by_id a b = leb a.id b.id

waits_other : (job j : ProcessingJob) → waits_for_circuit job j ≡ true → j.id ≢ job.id
unfolding waits_for_circuit
waits_other job j h e = absurd (ground (arith, eq→eqb j.id job.id e))

promote-SameBooks : (now : DateTime) (j : ProcessingJob) → SameBooks j (promote now j)
unfolding promote clear_staging reset_job
promote-SameBooks now j = elim (Bool-cases (is_description j.job_type)) [
  | inl scene ↦ rw scene (refl, refl, refl, refl)
  | inr place ↦ rw place (refl, refl, refl, refl)
]

waits_not_self : (job : ProcessingJob) → waits_for_circuit job job ≡ false
unfolding waits_for_circuit
waits_not_self job = ground (arith, eqb_refl job.id)

-- What is promoted waits for the circuit, so it is another job.
waiting_not_self :
    (job : ProcessingJob) (js : List ProcessingJob)
    → Fresh job.id (chosen 100 by_id (waits_for_circuit job) js)
waiting_not_self job js = All-take other 100 sorted (All-sort_by other by_id rows others)
  where
    other : ProcessingJob → Type 0
    other j = j.id ≢ job.id

    rows : List ProcessingJob
    rows = select (waits_for_circuit job) js

    sorted : List ProcessingJob
    sorted = sort_by by_id rows

    others : All other rows
    others =
        All-map (λ j. waits_for_circuit job j ≡ true) other rows (waits_other job)
          (All-select (waits_for_circuit job) js)

promote-Step :
    (now : DateTime) (l : Ledger) (j : ProcessingJob) → Covers l j → Step l j (l, promote now j)
promote-Step now l j covers = SameBooks-Step l j (promote now j) (promote-SameBooks now j) covers.0

-- Promotion keeps the books, and the job that it is for stays as it was.
promote_waiting-IsSound :
    (now : DateTime) (job : ProcessingJob) (db : Database)
    → IsSound db
    → Stored db.jobs job
    → IsSound (promote_waiting now job db).1 × Stored (promote_waiting now job db).1.jobs job
unfolding promote_waiting make_due
promote_waiting-IsSound now job db sound stored =
    let test = waits_for_circuit job in
    let change : Ledger → ProcessingJob → Ledger × ProcessingJob = λ l j. (l, promote now j) in
    let rows = chosen 100 by_id test db.jobs in
    let distinct = DistinctIds-chosen 100 by_id test db.jobs sound.distinct in
    let all =
      All-chosen (Stored db.jobs) 100 by_id test db.jobs (All-Stored db.jobs sound.distinct) in
    let swept = sweep now change rows db in
    (
      update_jobs-IsSound test (make_due now) (λ j. (refl, refl, refl, refl)) swept
          (sweep-IsSound now change (promote-Step now) rows db sound distinct all),
      Stored-update_jobs test (make_due now) swept.jobs job (λ j. refl) (waits_not_self job)
          (sweep_stays now change (promote-Step now) rows db job sound distinct all
            (waiting_not_self job db.jobs) stored),
    )

same_rows-IsSound :
    (db : Database) (l : Ledger)
    → ((k : UsageKey) → reserved_at k l ≡ reserved_at k db.usage)
    → IsSound db
    → IsSound (record db { usage = l })
same_rows-IsSound db l same sound = record {
  distinct = sound.distinct;
  whole = sound.whole;
  balanced = λ k. sound.balanced k ∙ sym (same k);
}

recover_circuit-IsSound :
    (now : DateTime) (job : ProcessingJob) (db : Database)
    → IsSound db
    → Stored db.jobs job
    → IsSound (recover_circuit now job db).1 × Stored (recover_circuit now job db).1.jobs job
unfolding recover_circuit promote_circuit_deferred_jobs
recover_circuit-IsSound now job db sound stored =
    let closed = close_provider_circuit now db.usage job in
    let sound' =
      same_rows-IsSound db closed (λ k. reserved_at-close_circuit k now db.usage job) sound in
    elim (Bool-cases (provider_circuit_is_open now db.usage job)) [
      | inl opened ↦ elim (Bool-cases (has_provider job)) [
        | inl named ↦
            rw (opened, named)
              (promote_waiting-IsSound now job (record db { usage = closed }) sound' stored)
        | inr unnamed ↦ rw (opened, unnamed) (sound', stored)
      ]
      | inr closed ↦ rw closed (sound, stored)
    ]

unstage-Step :
    (now : DateTime) (l : Ledger) (job : ProcessingJob)
    → Covers l job
    → Step l job (unstage now l job)
unfolding unstage clear_staging
unstage-Step now l job covers = elim (Bool-cases (is_description job.job_type)) [
  | inl scene ↦
      let r = release_description_request now l job in
      rw scene (
        Step-SameBooks l job r (clear_staging r.1) (release-Step now l job covers)
          (refl, refl, refl, refl))
  | inr place ↦ rw place (SameBooks-Step l job job (refl, refl, refl, refl) covers.0)
]

retry_allowed-Step :
    (now : DateTime) (l : Ledger) (job : ProcessingJob)
    → Covers l job
    → let r = unstage now l (restart_deferred job) in Step l job (r.0, restarted now r.1)
unfolding restarted reset_job restart_deferred
retry_allowed-Step now l job covers =
    let job₁ = restart_deferred job in
    let one : Step l job (l, job₁) = SameBooks-Step l job job₁ same covers.0 in
    let r = unstage now l job₁ in
    let two : Step l job₁ r = unstage-Step now l job₁ (Step-Covers l l job job₁ covers one) in
    Step-SameBooks l job r (restarted now r.1) (Step-trans l l r.0 job job₁ r.1 one two)
      (refl, refl, refl, refl)
  where
    same : SameBooks job (restart_deferred job)
    same = elim (Bool-cases (is_deferred job.status)) [
      | inl waits ↦ rw waits (refl, refl, refl, refl)
      | inr on ↦ rw on (refl, refl, refl, refl)
    ]

retry_allowed-IsSound :
    (now : DateTime) (job : ProcessingJob) (db : Database)
    → IsSound db
    → Stored db.jobs job
    → IsSound (retry_allowed now job db).2
unfolding retry_allowed
retry_allowed-IsSound now job db sound stored =
    let db₁ = (recover_circuit now job db).1 in
    let kept = recover_circuit-IsSound now job db sound stored in
    let r = unstage now db₁.usage (restart_deferred job) in
    let job' = restarted now r.1 in
    let covers = first-Covers db₁ (λ j. j.id == job.id) job kept.0 kept.1 in
    add_job_change-IsSound now job' (save (r.0, job') db₁) (
      Step-IsSound db₁ (λ j. j.id == job.id) job (r.0, job') kept.0 kept.1
        (retry_allowed-Step now db₁.usage job covers))

pub answered-KeepsBooks :
    {A : Type 0} (a : A) (job : ProcessingJob) (db db' : Database)
    → IsSound db
    → IsSound db'
    → KeepsBooks db (answered a job db')
unfolding answered
answered-KeepsBooks a job db db' sound sound' = elim (Option-cases (job_record job db')) [
  | inl missing ↦ rw (missing, answered) sound
  | inr (view, e) ↦ rw (e, answered) sound'
]

-- A retry keeps the books sound: a job that may be retried or not, with its provider's circuit open
-- or closed, and whatever the jobs are that it promotes.
pub retry_job-IsSound :
    (user id : ℕ) (now : DateTime) (db : Database)
    → IsSound db
    → KeepsBooks db (retry_job user id now db)
unfolding retry_job job_of_user
retry_job-IsSound user id now db sound = elim (Option-cases (job_of_user user id db)) [
  | inl missing ↦ rw (missing, retry_job) sound
  | inr (job, e) ↦ elim (Option-cases (retry_refusal job)) [
    | inr (why, refused) ↦ rw (e, refused, retry_job) sound
    | inl allowed ↦
        let r = retry_allowed now job db in
        let stored = first-Stored _ db.jobs job sound.distinct e in
        rw (e, allowed, retry_job)
          (answered-KeepsBooks r.0 r.1 db r.2 sound (retry_allowed-IsSound now job db sound stored))
  ]
]
