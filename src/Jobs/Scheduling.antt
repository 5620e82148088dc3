-- ===== src/Jobs/Scheduling.antt =====
-- What settling and releasing leave of a job's schedule, and which jobs a sweep dispatches.
use nektron_moments.Base.{
  ◌≡◌, refl, ap, ◌∙◌, Bool, true, false, not, ◌||◌, inl, inr, Bool-cases, if◌then◌else◌, arith,
}
use nektron_moments.Clock.{DateTime}
use nektron_moments.Settings.{Settings}
use nektron_moments.Records.{
  Status, ProcessingJob, is_description, is_running, is_deferred, is_queued, UnitType,
}
use nektron_moments.Ledger.{Ledger}
use nektron_moments.Cost.{Calculation, unavailable}
use nektron_moments.Reservations.{
  provider_call_started, settle_provider_reservation, release_description_request, release_field,
}
use nektron_moments.Reservations.Held.{settle_provider_job}
use nektron_moments.Charges.{settle_description_cost, settle_cost}
use nektron_moments.Charges.Settlement.{settle_cost_cases}
use nektron_moments.Description.Results.{settle_both}
use nektron_moments.Leases.{attempts_exhausted, settle_job}
use nektron_moments.Jobs.Sweep.{clear_staging, reset_job}
use nektron_moments.Jobs.Redispatch.{
  settle_abandoned, release_deferred, restart_attempts, settle_due, restart, exhausted_job, requeue,
  recover, is_dispatched,
}

abbrev pub SameSchedule : ProcessingJob → ProcessingJob → Type 0
SameSchedule job job' =
    (job'.job_type ≡ job.job_type)
    × (job'.status ≡ job.status)
    × (job'.attempt_count ≡ job.attempt_count)
    × (job'.max_attempts ≡ job.max_attempts)
    × (job'.media_asset_id ≡ job.media_asset_id)
    × (job'.public_id ≡ job.public_id)
    × (job'.user_id ≡ job.user_id)
    × (job'.id ≡ job.id)

SameSchedule-trans :
    (job job₁ job₂ : ProcessingJob)
    → SameSchedule job job₁
    → SameSchedule job₁ job₂
    → SameSchedule job job₂
SameSchedule-trans job job₁ job₂ one two = (
  two.0 ∙ one.0,
  two.1 ∙ one.1,
  two.2 ∙ one.2,
  two.3 ∙ one.3,
  two.4 ∙ one.4,
  two.5 ∙ one.5,
  two.6 ∙ one.6,
  two.7 ∙ one.7,
)

pub provider-SameSchedule :
    (consumed : Bool) (now : DateTime) (l : Ledger) (job : ProcessingJob)
    → SameSchedule job (settle_provider_reservation consumed now l job).1
provider-SameSchedule consumed now l job = elim (settle_provider_job consumed now l job) [
  | inl same ↦ rw same (refl, refl, refl, refl, refl, refl, refl, refl)
  | inr dropped ↦ rw dropped (refl, refl, refl, refl, refl, refl, refl, refl)
]

pub cost-SameSchedule :
    (cfg : Settings) (called : Bool) (calc : Calculation) (now : DateTime) (l : Ledger)
    (job : ProcessingJob)
    → SameSchedule job (settle_description_cost cfg called calc now l job).1
unfolding settle_cost
cost-SameSchedule cfg called calc now l job = elim (settle_cost_cases cfg called calc now l job) [
  | inl same ↦ rw same (refl, refl, refl, refl, refl, refl, refl, refl)
  | inr (r, month, rates, e, reserved, em, er, settled) ↦
      rw settled (refl, refl, refl, refl, refl, refl, refl, refl)
]

pub release-SameSchedule :
    (now : DateTime) (l : Ledger) (job : ProcessingJob)
    → SameSchedule job (release_description_request now l job).1
unfolding release_description_request
release-SameSchedule now l job =
    let one = release_field now job.user_id UnitType.request l job.request.usage_reservation in
    let two = release_field now job.user_id UnitType.usd one.0 job.request.cost_reservation in
    elim (Bool-cases (one.2 || two.2)) [
      | inl changed ↦ rw changed (refl, refl, refl, refl, refl, refl, refl, refl)
      | inr idle ↦ rw idle (refl, refl, refl, refl, refl, refl, refl, refl)
    ]

pub both-SameSchedule :
    (cfg : Settings) (consumed called : Bool) (calc : Calculation) (now : DateTime) (l : Ledger)
    (job : ProcessingJob)
    → SameSchedule job (settle_both cfg consumed called calc now l job).1
unfolding settle_both
both-SameSchedule cfg consumed called calc now l job =
    let mid = settle_provider_reservation consumed now l job in
    SameSchedule-trans job mid.1 (settle_both cfg consumed called calc now l job).1
      (provider-SameSchedule consumed now l job) (cost-SameSchedule cfg called calc now mid.0 mid.1)

-- Settling a due job keeps its type and id, and whether its attempts are exhausted unless they
-- restart.
pub settle_due_frame :
    (cfg : Settings) (now : DateTime) (l : Ledger) (job : ProcessingJob)
    → let job' = (settle_due cfg now l job).1 in
      (job'.job_type ≡ job.job_type)
      × (job'.id ≡ job.id)
      × ((is_deferred job.status ≡ false) → attempts_exhausted job' ≡ attempts_exhausted job)
unfolding settle_due restart_attempts settle_abandoned release_deferred attempts_exhausted
settle_due_frame cfg now l job = elim (Bool-cases (is_running job.status)) [
  | inl ran ↦ elim (Bool-cases (is_description job.job_type)) [
    | inl scene ↦
        let called = provider_call_started job in
        let same = both-SameSchedule cfg called called unavailable now l job in
        rw (ran, scene) (same.0, same.7, λ _. rw (same.2, same.3) refl)
    | inr place ↦
        let same = provider-SameSchedule true now l job in
        rw (ran, place) (same.0, same.7, λ _. rw (same.2, same.3) refl)
  ]
  | inr idle ↦ elim (Bool-cases (is_deferred job.status)) [
    | inl waits ↦ elim (Bool-cases (is_description job.job_type)) [
      | inl scene ↦
          let same = release-SameSchedule now l job in
          rw (idle, waits, scene) (same.0, same.7, λ e. absurd (ground arith))
      | inr place ↦
          let same = provider-SameSchedule false now l job in
          rw (idle, waits, place) (same.0, same.7, λ e. absurd (ground arith))
    ]
    | inr queued ↦ rw (idle, queued) (refl, refl, λ _. refl)
  ]
]

requeue_queues :
    (original : Status) (now : DateTime) (job : ProcessingJob)
    → is_queued (requeue original now job).status ≡ (
        if is_deferred original
        then not (is_description job.job_type)
        else not (attempts_exhausted job))
unfolding requeue restart exhausted_job settle_job clear_staging reset_job
requeue_queues original now job = elim (Bool-cases (is_deferred original)) [
  | inl waits ↦ elim (Bool-cases (is_description job.job_type)) [
    | inl scene ↦ rw (waits, scene) refl
    | inr place ↦ rw (waits, place) refl
  ]
  | inr on ↦ elim (Bool-cases (attempts_exhausted job)) [
    | inl out ↦ rw (on, out) refl
    | inr left ↦ rw (on, left) refl
  ]
]

same_dispatch :
    (job job' : ProcessingJob)
    → job'.job_type ≡ job.job_type
    → ((is_deferred job.status ≡ false) → attempts_exhausted job' ≡ attempts_exhausted job)
    → (if is_deferred job.status
        then not (is_description job'.job_type)
        else not (attempts_exhausted job'))
      ≡ is_dispatched job
unfolding is_dispatched
same_dispatch job job' type attempts = elim (Bool-cases (is_deferred job.status)) [
  | inl waits ↦ rw waits (ap (λ t. not (is_description t)) type)
  | inr on ↦ rw on (ap not (attempts on))
]

-- A round of the sweep dispatches a job just if it leaves the job queued.
pub recover_dispatches :
    (cfg : Settings) (now : DateTime) (l : Ledger) (job : ProcessingJob)
    → is_queued (recover cfg now l job).1.status ≡ is_dispatched job
unfolding recover
recover_dispatches cfg now l job =
    let settled = (settle_due cfg now l job).1 in
    let frame = settle_due_frame cfg now l job in
    requeue_queues job.status now settled ∙ same_dispatch job settled frame.0 frame.2
