-- ===== src/Description/Leasing.antt =====
-- The steps that `claim_description_job` makes on a job and its rows: settling, releasing, exhausting
-- and leasing.
use nektron_moments.Base.{◌+◌, String, ◌≡◌, refl, true, ◌&&◌, inl, inr, Bool-cases}
use nektron_moments.Clock.{DateTime, seconds}
use nektron_moments.Settings.{Settings}
use nektron_moments.Records.{ProcessingJob}
use nektron_moments.Ledger.{Ledger}
use nektron_moments.Cost.{unavailable}
use nektron_moments.Reservations.{provider_call_started}
use nektron_moments.Store.{Database, save}
use nektron_moments.Leases.{
  same_active_lease, expired_running_lease, claimable, not_due, attempts_exhausted, start_attempt,
  exhaust,
}
use nektron_moments.Description.Claim.{
  description_lease_seconds, charge_abandoned, exhaust_description, take_description_lease,
}
use nektron_moments.Soundness.Steps.{
  Covers, Step, Step-Covers, Step-trans, SameBooks-Step, release-Step, cost-Step,
}

abandoned-Step :
    (cfg : Settings) (now : DateTime) (l : Ledger) (job : ProcessingJob)
    → Covers l job
    → Step l job (charge_abandoned cfg now l job)
unfolding charge_abandoned
abandoned-Step cfg now l job covers =
    elim (Bool-cases (expired_running_lease now job && provider_call_started job)) [
      | inl open_call ↦
          rw (open_call, charge_abandoned) (cost-Step cfg true unavailable now l job covers)
      | inr none_open ↦
          rw (none_open, charge_abandoned)
            (SameBooks-Step l job job (refl, refl, refl, refl) covers.0)
    ]

exhausted-Step :
    (cfg : Settings) (now : DateTime) (l : Ledger) (job : ProcessingJob)
    → Covers l job
    → Step l job (exhaust_description cfg now l job)
unfolding exhaust_description exhaust
exhausted-Step cfg now l job covers = elim (Bool-cases (provider_call_started job)) [
  | inl started ↦
      let step = cost-Step cfg true unavailable now l job covers in
      rw (started, exhaust_description)
        (Step-trans l _ _ job _ _ step (SameBooks-Step _ _ _ (refl, refl, refl, refl) step.1))
  | inr idle ↦
      let step = release-Step now l job covers in
      rw (idle, exhaust_description)
        (Step-trans l _ _ job _ _ step (SameBooks-Step _ _ _ (refl, refl, refl, refl) step.1))
]

-- What `take_description_lease` saves, on every branch.
pub leased-Step :
    (cfg : Settings) (hash : String) (now : DateTime) (job : ProcessingJob) (db : Database)
    → Covers db.usage job
    → (r : Ledger × ProcessingJob) × Step db.usage job r
      × ((take_description_lease cfg hash now job db).1 ≡ save r db)
unfolding take_description_lease start_attempt
leased-Step cfg hash now job db covers =
    let same = SameBooks-Step db.usage job job (refl, refl, refl, refl) covers.0 in
    let charged = charge_abandoned cfg now db.usage job in
    let step = abandoned-Step cfg now db.usage job covers in
    elim (Bool-cases (same_active_lease hash now job)) [
      | inl mine ↦ ((db.usage, job), same, simp (mine, take_description_lease))
      | inr fresh ↦ elim (Bool-cases (claimable now charged.1)) [
        | inr taken ↦ (charged, step, simp (fresh, taken, take_description_lease))
        | inl free ↦ elim (Bool-cases (not_due now charged.1)) [
          | inl early ↦ (charged, step, simp (fresh, free, early, take_description_lease))
          | inr due ↦ elim (Bool-cases (attempts_exhausted charged.1)) [
            | inl spent ↦ (
              exhaust_description cfg now charged.0 charged.1,
              Step-trans db.usage charged.0 _ job charged.1 _ step (
                  exhausted-Step cfg now charged.0 charged.1
                    (Step-Covers db.usage charged.0 job charged.1 covers step)),
              simp (fresh, free, due, spent, take_description_lease),
            )
            | inr more ↦ (
              (
                charged.0,
                start_attempt hash (now + seconds description_lease_seconds) now charged.1,
              ),
              Step-trans db.usage charged.0 charged.0 job charged.1 _ step
                  (SameBooks-Step charged.0 charged.1 _ (refl, refl, refl, refl) step.1),
              simp (fresh, free, due, more, take_description_lease),
            )
          ]
        ]
      ]
    ]
