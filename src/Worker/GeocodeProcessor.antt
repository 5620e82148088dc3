-- ===== src/Worker/GeocodeProcessor.antt =====
-- `GeocodeMessageProcessor`: one message, as a sequence of transactions between which other
-- transactions of the service may run.
use nektron_moments.Base.{ℕ, String, Bool, true, false, ◌&&◌, Option, none, some, if◌then◌else◌}
use nektron_moments.Numbers.{ℤ}
use nektron_moments.Platform.{Platform}
use nektron_moments.Records.{FailureClass, is_quota, GeocodeJob, JobFailure, GeocodeResult}
use nektron_moments.Store.{Database, Outcome, done, raised}
use nektron_moments.Normalization.{Ruleset, normalize_result}
use nektron_moments.Worker.Message.{
  Body, ack, retry, Ended, disposed, invalid_message, failed, job_id_from_body, Run,
}
use nektron_moments.Worker.Repository.{Transaction, GeocodeJobRepository}

-- What a `ReverseGeocoder` gives: a result, or the failure of a `GeocodeProviderError`.
pub data Answer : Type 0 where
  resolves : GeocodeResult → Answer
  refuses : JobFailure → Answer

-- The processor's constructor arguments, and the transactions of others: what they make of the
-- database before this processor's n-th transaction.
pub record Setting : Type 0 where
  pub repository : GeocodeJobRepository
  pub provider : String
  pub reverse_geocode : ℤ → ℤ → Answer
  pub platform : Platform
  pub rules : Ruleset
  pub monthly_call_limit : ℕ
  pub others : ℕ → Database → Database

unfoldable pub stop : Ended → ℕ → Database → Run
stop ended calls db = record { ended = ended; database = db; calls = calls }

-- The rest of a run after a transaction: an exception ends it, with the database rolled back.
unfoldable pub proceed : {A : Type 0} → ℕ → Database → Outcome A → (A → Database → Run) → Run
unfolding stop
proceed calls before (raised e) rest = stop (failed e) calls before
proceed calls before (done a db) rest = rest a db

-- The n-th transaction, after what others did.
unfoldable pub transact :
    {A : Type 0} → Setting → ℕ → ℕ → Transaction A → Database → (A → Database → Run) → Run
unfolding proceed
transact s calls n t db rest = let before = s.others n db in proceed calls before (t n before) rest

abbrev pub quota_failure : JobFailure
quota_failure = record {
  failure_class = FailureClass.quota;
  code = "MonthlyGeocodeLimitReached";
  user_message = "Location enrichment is waiting for the monthly provider quota.";
  retryable = false;
}

-- The `except GeocodeProviderError` clause, after one call.
unfoldable pub handle_failure : Setting → GeocodeJob → JobFailure → Database → Run
unfolding transact stop
handle_failure s job failure db =
    if is_quota failure.failure_class
    then transact s 1 4 (s.repository.defer job failure true) db (λ _. stop (disposed ack) 1)
    else transact s 1 4 (s.repository.fail job failure) db
        (λ requested. stop (disposed (if failure.retryable && requested then retry else ack)) 1)

-- What follows the call of the provider.
unfoldable pub after_call : Setting → GeocodeJob → Answer → Database → Run
unfolding handle_failure transact stop
after_call s job (refuses why) db = handle_failure s job why db
after_call s job (resolves found) db =
    transact s 1 4 (s.repository.complete job (normalize_result s.platform s.rules found) false) db
      (λ _. stop (disposed ack) 1)

unfoldable pub call_provider : Setting → GeocodeJob → Database → Run
unfolding after_call
call_provider s job db = after_call s job (s.reverse_geocode job.latitude job.longitude) db

unfoldable pub after_reserving : Setting → GeocodeJob → Bool → Database → Run
unfolding call_provider transact stop
after_reserving s job true db =
    transact s 0 3 (s.repository.consume job s.provider) db
      (λ consumed db'. if consumed then call_provider s job db' else stop (disposed ack) 0 db')
after_reserving s job false db =
    transact s 0 3 (s.repository.defer job quota_failure false) db (λ _. stop (disposed ack) 0)

unfoldable pub after_search : Setting → GeocodeJob → Option GeocodeResult → Database → Run
unfolding after_reserving transact stop
after_search s job (some reusable) db =
    transact s 0 2 (s.repository.complete job (normalize_result s.platform s.rules reusable) true)
      db (λ _. stop (disposed ack) 0)
after_search s job none db =
    transact s 0 2 (s.repository.reserve job s.provider s.monthly_call_limit) db
      (after_reserving s job)

unfoldable pub after_claim : Setting → Option GeocodeJob → Database → Run
unfolding after_search transact stop
after_claim s none db = stop (disposed ack) 0 db
after_claim s (some job) db =
    transact s 0 1 (s.repository.find_reusable job) db (after_search s job)

-- `process_message`
unfoldable pub process_message : Setting → String → Body → Database → Run
unfolding after_claim transact stop
process_message s message_id body db = elim (job_id_from_body "Geocode" body) [
  | none ↦ stop invalid_message 0 db
  | some id ↦ transact s 0 0 (s.repository.claim id message_id) db (after_claim s)
]
