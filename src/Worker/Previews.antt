-- ===== src/Worker/Previews.antt =====
-- A message of a description that is to be delivered again still finds its preview.
use nektron_moments.Base.{
  ℕ, String, ◌≡◌, refl, Bool, true, false, ◌&&◌, Option, none, some, inl, inr, Bool-cases,
  Option-cases, arith,
}
use nektron_moments.Records.{is_quota, JobFailure}
use nektron_moments.Store.{Database, Outcome, done, raised}
use nektron_moments.Description.Payload.{DescriptionJob}
use nektron_moments.Description.Calls.{Cleanup}
use nektron_moments.Worker.Message.{Body, job_id_from_body}
use nektron_moments.Worker.Handler.{wants_retry}
use nektron_moments.Worker.Repository.{Transaction}
use nektron_moments.Worker.SceneRepository.{KeepsPreviews, RetainsPreview}
use nektron_moments.Worker.SceneProcessor.{
  SceneAnswer, describes, refuses, SceneProvider, SceneSetting, SceneRun, stop, proceed, transact,
  deletes, cleaned, cleans_up, after_failing, handle_failure, after_describing, after_consuming,
  after_reserving, after_check, acknowledge, after_claim, process_scene_message, chosen_provider,
  same_configuration, configuration_failure, limit_failure,
}

-- If the handler is to report the message, the preview's deletion was not requested.
abbrev pub KeepsPreview : SceneRun → Type 0
KeepsPreview run = wants_retry run.ended ≡ true → run.deleted ≡ false

and_false : (b : Bool) → (b && false) ≡ false
and_false true = refl
and_false false = refl

failing_keeps :
    (failure : JobFailure) (requested : Bool) (cleanup : Cleanup) (db : Database)
    → (requested ≡ true → cleanup ≡ Cleanup.retain)
    → KeepsPreview (after_failing failure (requested, cleanup) db)
unfolding after_failing stop deletes wants_retry
failing_keeps failure true cleanup db retains =
    λ again. rw (retains refl) (and_false (cleans_up failure.failure_class))
failing_keeps failure false cleanup db retains =
    λ again. absurd (ground (arith, again, and_false failure.retryable))

cleaned_keeps : (cleanup : Cleanup) (db : Database) → KeepsPreview (cleaned cleanup db)
unfolding cleaned stop wants_retry
cleaned_keeps cleanup db again = absurd (ground (arith, again))

module _ (s : SceneSetting) (retains : KeepsPreviews s.repository) where
  proceed_keeps :
      {A : Type 0} (before : Database) (o : Outcome A) (rest : A → Database → SceneRun)
      → ((a : A) (db : Database) → KeepsPreview (rest a db))
      → KeepsPreview (proceed before o rest)
  unfolding proceed stop
  proceed_keeps before (raised e) rest k = λ again. refl
  proceed_keeps before (done a db) rest k = k a db

  transact_keeps :
      {A : Type 0} (n : ℕ) (t : Transaction A) (db : Database) (rest : A → Database → SceneRun)
      → ((a : A) (db : Database) → KeepsPreview (rest a db))
      → KeepsPreview (transact s n t db rest)
  unfolding transact
  transact_keeps n t db rest k =
      let before = s.others n db in proceed_keeps before (t n before) rest k

  fail_keeps :
      (failure : JobFailure) (before : Database) (o : Outcome (Bool × Cleanup))
      → RetainsPreview o
      → KeepsPreview (proceed before o (after_failing failure))
  unfolding proceed stop
  fail_keeps failure before (raised e) h = λ again. refl
  fail_keeps failure before (done r db) h = failing_keeps failure r.0 r.1 db h

  handle_failure_keeps :
      (n : ℕ) (job : DescriptionJob) (failure : JobFailure) (called : Bool) (db : Database)
      → KeepsPreview (handle_failure s n job failure called db)
  unfolding handle_failure transact
  handle_failure_keeps n job failure called db =
      elim (Bool-cases (is_quota failure.failure_class)) [
        | inl quota ↦
            rw quota
              (transact_keeps n (s.repository.defer job failure called) db cleaned cleaned_keeps)
        | inr other ↦
            let before = s.others n db in
            rw other (
              fail_keeps failure before (s.repository.fail job failure called n before)
                (retains job failure called n before))
      ]

  after_describing_keeps :
      (job : DescriptionJob) (answer : SceneAnswer) (db : Database)
      → KeepsPreview (after_describing s job answer db)
  unfolding after_describing
  after_describing_keeps job (refuses why called) db = handle_failure_keeps 3 job why called db
  after_describing_keeps job (describes found) db =
      transact_keeps 3 (s.repository.complete job found) db cleaned cleaned_keeps

  after_consuming_keeps :
      (job : DescriptionJob) (provider : SceneProvider) (consumed : Bool) (db : Database)
      → KeepsPreview (after_consuming s job provider consumed db)
  unfolding after_consuming stop
  after_consuming_keeps job provider true db =
      after_describing_keeps job
        (provider.describe (s.preview_url job.staging_bucket job.staging_object_key)) db
  after_consuming_keeps job provider false db = λ again. refl

  after_reserving_keeps :
      (job : DescriptionJob) (provider : SceneProvider) (granted : Bool) (db : Database)
      → KeepsPreview (after_reserving s job provider granted db)
  unfolding after_reserving
  after_reserving_keeps job provider true db =
      transact_keeps 2 (s.repository.consume job s.provider.provider) db
        (after_consuming s job provider) (after_consuming_keeps job provider)
  after_reserving_keeps job provider false db =
      transact_keeps 2 (s.repository.defer job limit_failure false) db cleaned cleaned_keeps

  after_check_keeps :
      (job : DescriptionJob) (provider : SceneProvider) (db : Database)
      → KeepsPreview (after_check s job provider db)
  unfolding after_check
  after_check_keeps job provider db =
      elim (Option-cases (s.preview_failure job.staging_bucket job.staging_object_key)) [
        | inr (why, e) ↦ rw (e, after_check) (handle_failure_keeps 1 job why false db)
        | inl fine ↦
            rw (fine, after_check)
              (transact_keeps 1 (s.repository.reserve job s.provider.provider s.monthly_call_limit)
                db (after_reserving s job provider) (after_reserving_keeps job provider))
      ]

  after_claim_keeps :
      (job : Option DescriptionJob) (db : Database) → KeepsPreview (after_claim s job db)
  unfolding after_claim stop acknowledge
  after_claim_keeps none db = λ again. refl
  after_claim_keeps (some job) db =
      let selected = chosen_provider s job.model in
      elim (Bool-cases (same_configuration s selected.0 selected.1 job)) [
        | inl same ↦ rw same (after_check_keeps job selected.0 db)
        | inr changed ↦ rw changed (
            transact_keeps 1 (s.repository.fail job configuration_failure false) db acknowledge
              (λ r db'. cleaned_keeps r.1 db'))
      ]

  -- If the repository retains the preview whenever it requests a retry, a message of a description
  -- that the handler reports for another delivery has not had its preview deleted, whatever the
  -- provider answers and whatever other transactions run in between.
  pub process_scene_message_keeps :
      (message : String) (body : Body) (db : Database)
      → KeepsPreview (process_scene_message s message body db)
  unfolding process_scene_message stop
  process_scene_message_keeps message body db =
      elim (Option-cases (job_id_from_body "Description" body)) [
        | inl bad ↦ rw (bad, process_scene_message) (λ again. refl)
        | inr (id, good) ↦
            rw (good, process_scene_message)
              (transact_keeps 0 (s.repository.claim id message) db (after_claim s)
                after_claim_keeps)
      ]
