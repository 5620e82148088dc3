-- ===== src/Worker/Charged.antt =====
-- When a geocode message's processing calls the provider: only after the reserved call was consumed.
use nektron_moments.Base.{ℕ, String, ◌≡◌, true, Option, none, some, ◌⊎◌}
use nektron_moments.Records.{GeocodeJob, GeocodeResult}
use nektron_moments.Store.{Database, done}
use nektron_moments.Worker.Message.{Body, job_id_from_body, Run}
use nektron_moments.Worker.GeocodeProcessor.{Setting, call_provider}

-- The four transactions before a call of the provider, each on the database as others have left it:
-- the job is claimed, no address nearby is found, the call is reserved, and it is consumed.
pub record IsCharged (s : Setting) (message : String) (id : ℕ) (job : GeocodeJob)
    (db charged : Database) : Type 0 where
  pub claimed : Database
  pub searched : Database
  pub reserved : Database
  pub claim : s.repository.claim id message 0 (s.others 0 db) ≡ done (some job) claimed
  pub search_none : s.repository.find_reusable job 1 (s.others 1 claimed) ≡ done none searched
  pub reserve :
      s.repository.reserve job s.provider s.monthly_call_limit 2 (s.others 2 searched)
      ≡ done true reserved
  pub consume : s.repository.consume job s.provider 3 (s.others 3 reserved) ≡ done true charged

module _ (s : Setting) where
  -- No call, or the call on a database that `P` holds of.
  Calls : (Database → Type 0) → GeocodeJob → Run → Type 0
  Calls P job run =
      (run.calls ≡ 0) ⊎ ((charged : Database) × P charged × (run ≡ call_provider s job charged))

  Consumes : GeocodeJob → Database → Database → Type 0
  Consumes job db charged =
      s.repository.consume job s.provider 3 (s.others 3 db) ≡ done true charged

  Reserves : GeocodeJob → Option GeocodeResult → Database → Database → Type 0
  Reserves job found db charged =
      (reserved : Database) × (found ≡ none)
      × (s.repository.reserve job s.provider s.monthly_call_limit 2 (s.others 2 db)
          ≡ done true reserved)
      × Consumes job reserved charged

  -- A run without a call of the provider, or with one, made from a database where it is charged.
  abbrev pub CallsWhenCharged : String → Body → Database → Run → Type 0
  CallsWhenCharged message body db run =
      (run.calls ≡ 0)
      ⊎ ((run.calls ≡ 1)
          × ((id : ℕ) × (job : GeocodeJob) × (charged : Database) × (job_id_from_body "Geocode" body
                ≡ some id)
              × IsCharged s message id job db charged
              × (run ≡ call_provider s job charged)))
