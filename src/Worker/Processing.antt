-- ===== src/Worker/Processing.antt =====
-- Processing a geocode message keeps the books, whatever other transactions run in between.
use nektron_moments.Base.{
  ℕ, String, Bool, true, false, Option, none, some, inl, inr, Bool-cases, Option-cases,
  if◌then◌else◌,
}
use nektron_moments.Records.{is_quota, GeocodeJob, JobFailure, GeocodeResult}
use nektron_moments.Store.{Database, Outcome, done, raised, committed}
use nektron_moments.Soundness.{IsSound}
use nektron_moments.Worker.Message.{Body, disposed, ack, job_id_from_body, Run}
use nektron_moments.Worker.Repository.{Transaction, Keeps, IsLawful}
use nektron_moments.Worker.GeocodeProcessor.{
  Answer, resolves, refuses, Setting, stop, proceed, transact, handle_failure, after_call,
  call_provider, after_reserving, after_search, after_claim, process_message, quota_failure,
}
use nektron_moments.Normalization.{normalize_result}

module _ (s : Setting) (lawful : IsLawful s.repository)
    (others_keep : (n : ℕ) (db : Database) → IsSound db → IsSound (s.others n db)) where
  proceed-IsSound :
      {A : Type 0} (calls : ℕ) (before : Database) (o : Outcome A) (rest : A → Database → Run)
      → IsSound before
      → IsSound (committed before o)
      → ((a : A) (db : Database) → IsSound db → IsSound (rest a db).database)
      → IsSound (proceed calls before o rest).database
  unfolding proceed stop
  proceed-IsSound calls before (raised e) rest sound after k = sound
  proceed-IsSound calls before (done a db) rest sound after k = k a db after

  transact-IsSound :
      {A : Type 0} (calls n : ℕ) (t : Transaction A) (db : Database) (rest : A → Database → Run)
      → Keeps t
      → IsSound db
      → ((a : A) (db : Database) → IsSound db → IsSound (rest a db).database)
      → IsSound (transact s calls n t db rest).database
  unfolding transact
  transact-IsSound calls n t db rest keeps sound k =
      let before = s.others n db in
      let sound' = others_keep n db sound in
      proceed-IsSound calls before (t n before) rest sound' (keeps n before sound') k

  handle_failure-IsSound :
      (job : GeocodeJob) (failure : JobFailure) (db : Database)
      → IsSound db
      → IsSound (handle_failure s job failure db).database
  unfolding handle_failure stop
  handle_failure-IsSound job failure db sound = elim (Bool-cases (is_quota failure.failure_class)) [
    | inl quota ↦ rw quota (
        transact-IsSound 1 4 (s.repository.defer job failure true) db _
          (lawful.defer_keeps job failure true) sound (λ a db' h. h))
    | inr other ↦ rw other (
        transact-IsSound 1 4 (s.repository.fail job failure) db _ (lawful.fail_keeps job failure)
          sound (λ a db' h. h))
  ]

  complete-IsSound :
      (calls n : ℕ) (job : GeocodeJob) (found : GeocodeResult) (reused : Bool) (db : Database)
      → IsSound db
      → let normalized = normalize_result s.platform s.rules found in
        IsSound
          (transact s calls n
            (s.repository.complete job normalized reused)
            db
            (λ _. stop (disposed ack) calls)).database
  unfolding stop
  complete-IsSound calls n job found reused db sound =
      let normalized = normalize_result s.platform s.rules found in
      transact-IsSound calls n (s.repository.complete job normalized reused) db
        (λ _. stop (disposed ack) calls) (lawful.complete_keeps job normalized reused) sound
        (λ a db' h. h)

  after_call-IsSound :
      (job : GeocodeJob) (answer : Answer) (db : Database)
      → IsSound db
      → IsSound (after_call s job answer db).database
  unfolding after_call
  after_call-IsSound job (refuses why) db sound = handle_failure-IsSound job why db sound
  after_call-IsSound job (resolves found) db sound = complete-IsSound 1 4 job found false db sound

  call_provider-IsSound :
      (job : GeocodeJob) (db : Database) → IsSound db → IsSound (call_provider s job db).database
  unfolding call_provider
  call_provider-IsSound job db sound =
      after_call-IsSound job (s.reverse_geocode job.latitude job.longitude) db sound

  after_reserving-IsSound :
      (job : GeocodeJob) (granted : Bool) (db : Database)
      → IsSound db
      → IsSound (after_reserving s job granted db).database
  unfolding after_reserving stop
  after_reserving-IsSound job true db sound =
      transact-IsSound 0 3 (s.repository.consume job s.provider) db _
        (lawful.consume_keeps job s.provider) sound go
    where
      go :
          (consumed : Bool) (db' : Database)
          → IsSound db'
          → IsSound
              (if consumed then call_provider s job db' else stop (disposed ack) 0 db').database
      go true db' h = call_provider-IsSound job db' h
      go false db' h = h
  after_reserving-IsSound job false db sound =
      transact-IsSound 0 3 (s.repository.defer job quota_failure false) db _
        (lawful.defer_keeps job quota_failure false) sound (λ a db' h. h)

  after_search-IsSound :
      (job : GeocodeJob) (found : Option GeocodeResult) (db : Database)
      → IsSound db
      → IsSound (after_search s job found db).database
  unfolding after_search
  after_search-IsSound job (some reusable) db sound =
      complete-IsSound 0 2 job reusable true db sound
  after_search-IsSound job none db sound =
      transact-IsSound 0 2 (s.repository.reserve job s.provider s.monthly_call_limit) db
        (after_reserving s job) (lawful.reserve_keeps job s.provider s.monthly_call_limit) sound
        (after_reserving-IsSound job)

  after_claim-IsSound :
      (job : Option GeocodeJob) (db : Database)
      → IsSound db
      → IsSound (after_claim s job db).database
  unfolding after_claim stop
  after_claim-IsSound none db sound = sound
  after_claim-IsSound (some job) db sound =
      transact-IsSound 0 1 (s.repository.find_reusable job) db (after_search s job)
        (lawful.find_keeps job) sound (after_search-IsSound job)

  -- If each transaction of the repository, and whatever others do in between, keeps the books sound,
  -- so does the processing of a message, whatever the message is, the provider answers, and however
  -- the processing ends.
  pub process_message-IsSound :
      (message : String) (body : Body) (db : Database)
      → IsSound db
      → IsSound (process_message s message body db).database
  unfolding process_message stop
  process_message-IsSound message body db sound =
      elim (Option-cases (job_id_from_body "Geocode" body)) [
        | inl bad ↦ rw (bad, process_message) sound
        | inr (id, good) ↦
            rw (good, process_message)
              (transact-IsSound 0 0 (s.repository.claim id message) db (after_claim s)
                (lawful.claim_keeps id message) sound after_claim-IsSound)
      ]
