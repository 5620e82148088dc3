-- ===== src/Geocode/Exclusion.antt =====
-- What `claim_geocode_job` answers a message while another message holds the lease of the job.
use nektron_moments.Base.{◌≡◌, ◌⊎◌, Option, none}
use nektron_moments.Platform.{Platform}
use nektron_moments.Clock.{DateTime}
use nektron_moments.Records.{ProcessingJob, GeocodeJob}
use nektron_moments.Store.{Database, Outcome, done, raised, save}
use nektron_moments.Geocode.Claim.{fail_invalid_geocode_job, stale}

-- No claim, and the database as it was, or with the job failed or cancelled.
abbrev pub ShutOut : DateTime → ProcessingJob → Database → Outcome (Option GeocodeJob) → Type 0
ShutOut now job db (raised e) = Unit
ShutOut now job db (done claim db') =
    (claim ≡ none)
    × ((db' ≡ db)
        ⊎ (db' ≡ save (db.usage, fail_invalid_geocode_job now job) db)
        ⊎ (db' ≡ stale now job db))
