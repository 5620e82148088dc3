-- ===== src/Soundness.antt =====
-- The books of the enrichment pipeline: in every monthly row the units reserved are the units that
-- the jobs hold of it, together.
pub mod Steps
use nektron_moments.Base.{ℕ, ◌≤◌, ◌≡◌, Bool, some, All, sum_of, arith}
use nektron_moments.Records.{UsageKey, ProcessingJob}
use nektron_moments.Ledger.{Ledger}
use nektron_moments.Reservations.Held.{reserved_at, job_held, IsWhole, Balanced}
use nektron_moments.Charges.Settlement.{IsUsd}
use nektron_moments.Store.{Database, first, save, add_job_change}
use nektron_moments.Store.Laws.{
  DistinctIds, sum-replace_job, le-sum_first, All-replace_job, DistinctIds-replace_job,
}

-- What a job holds is written whole, and its dollars stand on a row of dollars.
pub record IsWholeJob (job : ProcessingJob) : Type 0 where
  pub usage_whole : IsWhole job.request.usage_reservation
  pub cost_whole : IsWhole job.request.cost_reservation
  pub cost_usd : IsUsd job.request.cost_reservation

pub record IsSound (db : Database) : Type 0 where
  pub distinct : DistinctIds db.jobs
  pub whole : All IsWholeJob db.jobs
  pub balanced : (k : UsageKey) → sum_of (job_held k) db.jobs ≡ reserved_at k db.usage

-- A job that was selected holds at most what its rows have reserved.
pub held-le-reserved :
    (db : Database) (test : ProcessingJob → Bool) (job : ProcessingJob)
    → IsSound db
    → first test db.jobs ≡ some job
    → (k : UsageKey) → job_held k job ≤ reserved_at k db.usage
held-le-reserved db test job sound e k =
    omega (arith, le-sum_first (job_held k) test db.jobs job e, sound.balanced k)

-- Writing back a job and rows that moved alike keeps the books.
pub save-IsSound :
    (db : Database) (test : ProcessingJob → Bool) (job job' : ProcessingJob) (l' : Ledger)
    → IsSound db
    → first test db.jobs ≡ some job
    → job'.id ≡ job.id
    → IsWholeJob job'
    → ((k : UsageKey) → Balanced k db.usage job (l', job'))
    → IsSound (save (l', job') db)
unfolding save
save-IsSound db test job job' l' sound e same whole step = record {
  distinct = DistinctIds-replace_job db.jobs job' sound.distinct;
  whole = All-replace_job IsWholeJob db.jobs job' whole sound.whole;
  balanced = λ k. omega (
    arith,
    sum-replace_job (job_held k) test db.jobs job job' e sound.distinct same,
    sound.balanced k,
    (step k).0,
    le-sum_first (job_held k) test db.jobs job e,
  );
}

pub add_job_change-IsSound :
    (now : ℕ) (job : ProcessingJob) (db : Database)
    → IsSound db
    → IsSound (add_job_change now job db)
unfolding add_job_change
add_job_change-IsSound now job db sound = record {
  distinct = sound.distinct;
  whole = sound.whole;
  balanced = sound.balanced;
}

-- The fields that the books read.
abbrev pub SameBooks : ProcessingJob → ProcessingJob → Type 0
SameBooks job job' =
    (job'.id ≡ job.id)
    × (job'.user_id ≡ job.user_id)
    × (job'.request.usage_reservation ≡ job.request.usage_reservation)
    × (job'.request.cost_reservation ≡ job.request.cost_reservation)

pub SameBooks-IsWholeJob :
    (job job' : ProcessingJob) → SameBooks job job' → IsWholeJob job → IsWholeJob job'
SameBooks-IsWholeJob job job' same whole = record {
  usage_whole = rw same.2 whole.usage_whole;
  cost_whole = rw same.3 whole.cost_whole;
  cost_usd = rw same.3 whole.cost_usd;
}

pub SameBooks-Balanced :
    (k : UsageKey) (l l' l'' : Ledger) (job job' job'' : ProcessingJob)
    → SameBooks job' job''
    → reserved_at k l'' ≡ reserved_at k l'
    → Balanced k l job (l', job')
    → Balanced k l job (l'', job'')
SameBooks-Balanced k l l' l'' job job' job'' same row step =
    rw (same.1, same.2, same.3) (omega (arith, row, step.0), step.1)
