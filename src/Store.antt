-- ===== src/Store.antt =====
-- The database as one transaction sees it, and how a transaction ends: `transaction_scope`
-- (services/data/database.py) commits what the body reached, or rolls back when it raises.
pub mod Laws
use nektron_moments.Base.{
  ℕ, String, Bool, true, false, ◌&&◌, Option, none, some, List, [], ◌∷◌, ◌++◌, ◌==◌, if◌then◌else◌,
}
use nektron_moments.Clock.{DateTime}
use nektron_moments.Records.{
  ProcessingJob, MediaChange, EntityType, ChangeType, MediaAsset, MediaLocation, MediaOccurrence,
  UploadSession, MediaDescription,
}
use nektron_moments.Ledger.{Ledger}

pub record Database : Type 0 where
  pub jobs : List ProcessingJob
  pub usage : Ledger
  pub assets : List MediaAsset
  pub locations : List MediaLocation
  pub occurrences : List MediaOccurrence
  pub uploads : List UploadSession
  pub descriptions : List MediaDescription
  pub changes : List MediaChange

-- The exceptions that leave a transaction: `ValueError`, `decimal.InvalidOperation`, and the
-- `DomainError`s by their codes.
pub data Error : Type 0 where
  value_error : Error
  invalid_operation : Error
  not_found : String → Error
  conflict : String → Error
  retry_not_allowed : String → Error

pub data Outcome (A : Type 0) : Type 0 where
  done : A → Database → Outcome A
  raised : Error → Outcome A

-- The database after the transaction: an exception rolls it back.
abbrev pub committed : {A : Type 0} → Database → Outcome A → Database
committed db (done a db') = db'
committed db (raised e) = db

-- The first row of a table that a `where` clause selects.
unfoldable pub first {ℓ} : {A : Type ℓ} → (A → Bool) → List A → Option A
first test [] = none
first test (x ∷ xs) = if test x then some x else first test xs

-- A row written back; `id` is the primary key.
unfoldable pub replace_job : ProcessingJob → List ProcessingJob → List ProcessingJob
replace_job job [] = []
replace_job job (j ∷ js) = if j.id == job.id then job ∷ js else j ∷ replace_job job js

unfoldable pub replace_location : MediaLocation → List MediaLocation → List MediaLocation
replace_location row [] = []
replace_location row (x ∷ xs) = if x.id == row.id then row ∷ xs else x ∷ replace_location row xs

unfoldable pub replace_asset : MediaAsset → List MediaAsset → List MediaAsset
replace_asset row [] = []
replace_asset row (x ∷ xs) = if x.id == row.id then row ∷ xs else x ∷ replace_asset row xs

-- The job and the usage rows that an operation returned.
unfoldable pub save : Ledger × ProcessingJob → Database → Database
save (l, job) db = record db { jobs = replace_job job db.jobs; usage = l }

-- `_add_job_change`
unfoldable pub add_job_change : DateTime → ProcessingJob → Database → Database
add_job_change now job db = record db {
  changes =
      db.changes
      ++ record {
        user_id = job.user_id;
        device_id = none;
        source_id = job.media_source_id;
        asset_id = some job.media_asset_id;
        occurrence_id = none;
        change_type = ChangeType.upsert;
        entity_type = EntityType.processing_job;
        entity_id = job.id;
        entity_public_id = job.public_id;
        created_at = now;
      }
        ∷ [];
}

-- `JobRepository.by_public_id`
unfoldable pub job_by_public_id : ℕ → Database → Option ProcessingJob
unfolding first
job_by_public_id id db = first (λ job. job.public_id == id) db.jobs

-- `LocationRepository.by_asset`
unfoldable pub location_by_asset : ℕ → ℕ → Database → Option MediaLocation
unfolding first
location_by_asset user asset db =
    first (λ row. (row.user_id == user) && (row.media_asset_id == asset)) db.locations

-- The asset of a job.
unfoldable pub asset_by_id : ℕ → ℕ → Database → Option MediaAsset
unfolding first
asset_by_id user asset db = first (λ row. (row.user_id == user) && (row.id == asset)) db.assets
