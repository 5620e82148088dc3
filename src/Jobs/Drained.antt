-- ===== src/Jobs/Drained.antt =====
-- What is due after the sweep for due jobs, stated without the sweep's own condition.
use nektron_moments.Base.{
  ℕ, ◌+◌, ◌≤◌, ◌≡◌, ◌≢◌, ◌⊎◌, refl, sym, ◌∙◌, subst, true, false, Option, some, not, ◌&&◌, All, inl,
  inr, Bool-cases, leb, select, sort_by, length, length-sort_by, take_all, All-map, All-sort_by',
  arith,
}
use nektron_moments.Clock.{DateTime, seconds}
use nektron_moments.Settings.{Settings}
use nektron_moments.Records.{ProcessingJob, Status, is_description, is_deferred}
use nektron_moments.Ledger.{Ledger}
use nektron_moments.Leases.{attempts_exhausted, settle_job}
use nektron_moments.Store.{Database, committed}
use nektron_moments.Store.Laws.{DistinctIds, Fresh}
use nektron_moments.Jobs.Sweep.{clear_staging, reset_job}
use nektron_moments.Jobs.Sweeping.{selected, sweep-All}
use nektron_moments.Jobs.Selecting.{chosen, DistinctIds-chosen}
use nektron_moments.Jobs.Recovering.{requeue-SameBooks}
use nektron_moments.Jobs.Scheduling.{settle_due_frame}
use nektron_moments.Jobs.Redispatch.{
  is_due, reached, sooner, settle_due, restart, exhausted_job, requeue, recover,
  redispatch_due_jobs,
}

-- The time is set, and has come.
abbrev pub HasCome : DateTime → Option DateTime → Type 0
HasCome now time = (t : DateTime) × (time ≡ some t) × (t ≤ now)

-- A queued job whose attempt is due and that was not touched for five minutes, a running job whose
-- lease has run out, or a deferred job whose time has come.
abbrev pub IsDue : DateTime → ProcessingJob → Type 0
IsDue now job =
    ((job.status ≡ Status.queued)
      × HasCome now job.next_attempt_at
      × (job.updated_at + seconds 300 ≤ now))
    ⊎ ((job.status ≡ Status.running) × HasCome now job.lease_expires_at)
    ⊎ ((job.status ≡ Status.deferred_quota) × HasCome now job.next_attempt_at)

le_leb : (a b : ℕ) → a ≤ b → leb a b ≡ true
le_leb a b h = ground (arith, h)

reached_if : (now : DateTime) (time : Option DateTime) → HasCome now time → reached now time ≡ true
unfolding reached
reached_if now time (t, set, past) = rw set (le_leb t now past)

is_due_if : (now : DateTime) (job : ProcessingJob) → IsDue now job → is_due now job ≡ true
unfolding is_due
is_due_if now job (inl (queued, come, old)) =
    rw (queued, reached_if now job.next_attempt_at come, le_leb _ now old) refl
is_due_if now job (inr (inl (running, come))) =
    rw (running, reached_if now job.lease_expires_at come) refl
is_due_if now job (inr (inr (deferred, come))) =
    rw (deferred, reached_if now job.next_attempt_at come) refl

not-IsDue_if : (now : DateTime) (job : ProcessingJob) → is_due now job ≡ false → ¬ IsDue now job
not-IsDue_if now job not_due due = let yes = is_due_if now job due in ground (arith, yes, not_due)

recover-id :
    (cfg : Settings) (now : DateTime) (l : Ledger) (job : ProcessingJob)
    → (recover cfg now l job).1.id ≡ job.id
unfolding recover
recover-id cfg now l job =
    (requeue-SameBooks job.status now (settle_due cfg now l job).1).0
    ∙ (settle_due_frame cfg now l job).1

requeue_not_due :
    (original : Status) (now : DateTime) (job : ProcessingJob)
    → is_due now (requeue original now job) ≡ false
unfolding requeue restart exhausted_job settle_job clear_staging reset_job is_due reached
requeue_not_due original now job =
    elim (Bool-cases (not (is_deferred original) && attempts_exhausted job)) [
      | inl out ↦ rw out refl
      | inr on ↦ elim (Bool-cases (is_deferred original && is_description job.job_type)) [
        | inl staged ↦ rw (on, staged) refl
        | inr queued ↦ rw (on, queued) ground arith
      ]
    ]

-- If job ids are distinct, no more jobs are due than the sweep takes, and it takes from 1 to 500,
-- then none is due afterwards, at the time of the sweep: none is queued, due and untouched for five
-- minutes, running on a lease that has run out, or deferred to a time that has come.
pub redispatch_due_jobs_leaves_none :
    (cfg : Settings) (limit : ℕ) (now : DateTime) (db : Database)
    → DistinctIds db.jobs
    → 1 ≤ limit
    → limit ≤ 500
    → length (select (is_due now) db.jobs) ≤ limit
    → All (λ job. ¬ IsDue now job) (committed db (redispatch_due_jobs cfg limit now db)).jobs
unfolding redispatch_due_jobs recover
redispatch_due_jobs_leaves_none cfg limit now db distinct low high few =
    let due = select (is_due now) db.jobs in
    let sorted = sort_by sooner due in
    let inside : (leb 1 limit && leb limit 500) ≡ true = ground arith in
    let all =
      take_all limit sorted (subst (λ n. n ≤ limit) (sym (length-sort_by sooner due)) few) in
    rw inside (
      sweep-All now (recover cfg now) (recover-id cfg now) (λ job. ¬ IsDue now job)
        (chosen limit sooner (is_due now) db.jobs) db
        (λ l job.
          not-IsDue_if now (recover cfg now l job).1
            (requeue_not_due job.status now (settle_due cfg now l job).1))
        distinct (DistinctIds-chosen limit sooner (is_due now) db.jobs distinct)
        (subst (λ js. All (λ j. Fresh j.id js → ¬ IsDue now j) db.jobs) (sym all)
          (All-map (λ j. Fresh j.id due → is_due now j ≡ false)
            (λ j. Fresh j.id sorted → ¬ IsDue now j) db.jobs
            (λ j h fresh. not-IsDue_if now j (h (All-sort_by' (λ x. x.id ≢ j.id) sooner due fresh)))
            (selected (is_due now) db.jobs))))
