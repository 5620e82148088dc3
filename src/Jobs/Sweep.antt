-- ===== src/Jobs/Sweep.antt =====
-- A loop over rows that a transaction has selected for update, and the keys of a request that such
-- loops remove.
use nektron_moments.Base.{Bool, none, List, [], ◌∷◌, if◌then◌else◌}
use nektron_moments.Clock.{DateTime}
use nektron_moments.Records.{ProcessingJob, no_staging}
use nektron_moments.Ledger.{Ledger}
use nektron_moments.Store.{Database, save, add_job_change}

-- Each row is changed together with the usage table, and its change is added to the feed.
unfoldable pub sweep :
    DateTime
    → (Ledger → ProcessingJob → Ledger × ProcessingJob)
    → List ProcessingJob
    → Database
    → Database
sweep now change [] db = db
sweep now change (job ∷ jobs) db =
    let r = change db.usage job in sweep now change jobs (add_job_change now r.1 (save r db))

-- An `update` of every row that passes a test.
unfoldable pub update_jobs :
    (ProcessingJob → Bool)
    → (ProcessingJob → ProcessingJob)
    → List ProcessingJob
    → List ProcessingJob
update_jobs test f [] = []
update_jobs test f (job ∷ jobs) = (if test job then f job else job) ∷ update_jobs test f jobs

-- `_clear_description_staging_request`
unfoldable pub clear_staging : ProcessingJob → ProcessingJob
clear_staging job = record job { request = record job.request { staging = no_staging } }

-- The failure, the lease and the completion of a job that is to run again.
unfoldable pub reset_job : DateTime → ProcessingJob → ProcessingJob
reset_job now job = record job {
  lease_token_hash = none;
  lease_expires_at = none;
  failure_class = none;
  failure_code = none;
  failure_message = none;
  completed_at = none;
  updated_at = now;
}
