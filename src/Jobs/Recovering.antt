-- ===== src/Jobs/Recovering.antt =====
-- The sweep for due jobs: the books.
use nektron_moments.Base.{ℕ, refl, Bool, true, false, not, ◌&&◌, inl, inr, Bool-cases, leb}
use nektron_moments.Clock.{DateTime}
use nektron_moments.Settings.{Settings}
use nektron_moments.Records.{ProcessingJob, Status, is_description, is_running, is_deferred}
use nektron_moments.Ledger.{Ledger}
use nektron_moments.Cost.{Calculation, unavailable}
use nektron_moments.Reservations.{settle_provider_reservation, provider_call_started}
use nektron_moments.Leases.{attempts_exhausted, settle_job}
use nektron_moments.Store.{Database}
use nektron_moments.Soundness.{IsSound, SameBooks}
use nektron_moments.Soundness.Steps.{
  Covers, Step, Step-Covers, Step-trans, Step-SameBooks, SameBooks-Step, release-Step,
  provider-Step, cost-Step,
}
use nektron_moments.Geocode.Books.{KeepsBooks}
use nektron_moments.Description.Results.{settle_both}
use nektron_moments.Jobs.Sweep.{clear_staging, reset_job}
use nektron_moments.Jobs.Sweeping.{Stored, All-Stored, sweep-IsSound}
use nektron_moments.Jobs.Selecting.{chosen, DistinctIds-chosen, All-chosen}
use nektron_moments.Jobs.Redispatch.{
  is_due, sooner, settle_abandoned, release_deferred, restart_attempts, settle_due, restart,
  exhausted_job, requeue, recover, redispatch_due_jobs,
}

-- Both settlements together are a step.
pub both-Step :
    (cfg : Settings) (consumed called : Bool) (calc : Calculation) (now : DateTime) (l : Ledger)
    (job : ProcessingJob)
    → Covers l job
    → Step l job (settle_both cfg consumed called calc now l job)
unfolding settle_both
both-Step cfg consumed called calc now l job covers =
    let mid = settle_provider_reservation consumed now l job in
    let one = provider-Step consumed now l job covers in
    let two =
      cost-Step cfg called calc now mid.0 mid.1 (Step-Covers l mid.0 job mid.1 covers one) in
    let end = settle_both cfg consumed called calc now l job in
    Step-trans l mid.0 end.0 job mid.1 end.1 one two

settle_abandoned-Step :
    (cfg : Settings) (now : DateTime) (l : Ledger) (job : ProcessingJob)
    → Covers l job
    → Step l job (settle_abandoned cfg now l job)
unfolding settle_abandoned
settle_abandoned-Step cfg now l job covers = elim (Bool-cases (is_description job.job_type)) [
  | inl scene ↦ rw scene (
      both-Step cfg (provider_call_started job) (provider_call_started job) unavailable now l job
        covers)
  | inr place ↦ rw place (provider-Step true now l job covers)
]

release_deferred-Step :
    (now : DateTime) (l : Ledger) (job : ProcessingJob)
    → Covers l job
    → Step l job (release_deferred now l job)
unfolding release_deferred
release_deferred-Step now l job covers = elim (Bool-cases (is_description job.job_type)) [
  | inl scene ↦ rw scene (release-Step now l job covers)
  | inr place ↦ rw place (provider-Step false now l job covers)
]

settle_due-Step :
    (cfg : Settings) (now : DateTime) (l : Ledger) (job : ProcessingJob)
    → Covers l job
    → Step l job (settle_due cfg now l job)
unfolding settle_due restart_attempts
settle_due-Step cfg now l job covers = elim (Bool-cases (is_running job.status)) [
  | inl ran ↦ rw ran (settle_abandoned-Step cfg now l job covers)
  | inr idle ↦ elim (Bool-cases (is_deferred job.status)) [
    | inl waits ↦
        let r = release_deferred now l job in
        rw (idle, waits)
          (Step-SameBooks l job r (restart_attempts r).1 (release_deferred-Step now l job covers)
            (refl, refl, refl, refl))
    | inr queued ↦ rw (idle, queued) (SameBooks-Step l job job (refl, refl, refl, refl) covers.0)
  ]
]

pub requeue-SameBooks :
    (original : Status) (now : DateTime) (job : ProcessingJob)
    → SameBooks job (requeue original now job)
unfolding requeue restart exhausted_job settle_job clear_staging reset_job
requeue-SameBooks original now job =
    elim (Bool-cases (not (is_deferred original) && attempts_exhausted job)) [
      | inl out ↦ rw out (refl, refl, refl, refl)
      | inr on ↦ elim (Bool-cases (is_deferred original && is_description job.job_type)) [
        | inl staged ↦ rw (on, staged) (refl, refl, refl, refl)
        | inr queued ↦ rw (on, queued) (refl, refl, refl, refl)
      ]
    ]

recover-Step :
    (cfg : Settings) (now : DateTime) (l : Ledger) (job : ProcessingJob)
    → Covers l job
    → Step l job (recover cfg now l job)
unfolding recover
recover-Step cfg now l job covers =
    let r = settle_due cfg now l job in
    Step-SameBooks l job r (requeue job.status now r.1) (settle_due-Step cfg now l job covers)
      (requeue-SameBooks job.status now r.1)

-- The sweep keeps the books sound, whatever the limit is and whichever jobs are due.
pub redispatch_due_jobs-IsSound :
    (cfg : Settings) (limit : ℕ) (now : DateTime) (db : Database)
    → IsSound db
    → KeepsBooks db (redispatch_due_jobs cfg limit now db)
unfolding redispatch_due_jobs
redispatch_due_jobs-IsSound cfg limit now db sound =
    elim (Bool-cases (leb 1 limit && leb limit 500)) [
      | inl inside ↦
          let jobs = chosen limit sooner (is_due now) db.jobs in
          rw inside (
            sweep-IsSound now (recover cfg now) (recover-Step cfg now) jobs db sound
              (DistinctIds-chosen limit sooner (is_due now) db.jobs sound.distinct)
              (All-chosen (Stored db.jobs) limit sooner (is_due now) db.jobs
                (All-Stored db.jobs sound.distinct)))
      | inr outside ↦ rw outside sound
    ]
