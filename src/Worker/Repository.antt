-- ===== src/Worker/Repository.antt =====
-- `GeocodeJobRepository` (services/worker/contracts.py): the transactions that the processor of
-- geocode messages makes, and what each promises of the books. Every transaction has a number, by
-- which an implementation reads its clock.
use nektron_moments.Base.{ℕ, String, Bool, Option}
use nektron_moments.Records.{GeocodeJob, JobFailure, GeocodeResult}
use nektron_moments.Store.{Database, Outcome, committed}
use nektron_moments.Soundness.{IsSound}

abbrev pub Transaction : Type 0 → Type 0
Transaction A = ℕ → Database → Outcome A

pub record GeocodeJobRepository : Type 0 where
  pub claim : ℕ → String → Transaction (Option GeocodeJob)
  pub find_reusable : GeocodeJob → Transaction (Option GeocodeResult)
  pub reserve : GeocodeJob → String → ℕ → Transaction Bool
  pub consume : GeocodeJob → String → Transaction Bool
  pub complete : GeocodeJob → GeocodeResult → Bool → Transaction (Unit {0})
  pub fail : GeocodeJob → JobFailure → Transaction Bool
  pub defer : GeocodeJob → JobFailure → Bool → Transaction (Unit {0})

-- A transaction that keeps the books, whenever it runs.
abbrev pub Keeps : {A : Type 0} → Transaction A → Type 0
Keeps t = (n : ℕ) (db : Database) → IsSound db → IsSound (committed db (t n db))

pub record IsLawful (r : GeocodeJobRepository) : Type 0 where
  pub claim_keeps : (id : ℕ) (message : String) → Keeps (r.claim id message)
  pub find_keeps : (job : GeocodeJob) → Keeps (r.find_reusable job)
  pub reserve_keeps :
      (job : GeocodeJob) (provider : String) (limit : ℕ) → Keeps (r.reserve job provider limit)
  pub consume_keeps : (job : GeocodeJob) (provider : String) → Keeps (r.consume job provider)
  pub complete_keeps :
      (job : GeocodeJob) (result : GeocodeResult) (reused : Bool)
      → Keeps (r.complete job result reused)
  pub fail_keeps : (job : GeocodeJob) (failure : JobFailure) → Keeps (r.fail job failure)
  pub defer_keeps :
      (job : GeocodeJob) (failure : JobFailure) (called : Bool) → Keeps (r.defer job failure called)
