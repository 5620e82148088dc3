-- ===== src/Worker/SceneRepository.antt =====
-- `DescriptionJobRepository` (services/worker/contracts.py): the transactions that the processor of
-- descriptions makes, and the promise about previews that it relies on; `Phase1DomainService` as
-- such a repository. A transaction's number tells an implementation the time.
use nektron_moments.Base.{
  ℕ, String, ◌≡◌, refl, Bool, true, Option, inl, inr, Option-cases, if◌then◌else◌,
}
use nektron_moments.Numbers.{pos}
use nektron_moments.Platform.{Platform}
use nektron_moments.Settings.{Settings}
use nektron_moments.Records.{JobFailure}
use nektron_moments.Store.{Database, Outcome, done, raised}
use nektron_moments.Description.Payload.{DescriptionJob}
use nektron_moments.Description.Claim.{claim_description_job}
use nektron_moments.Description.Claimed.{claimed_description_job}
use nektron_moments.Description.Calls.{
  Cleanup, SceneResult, NewRow, reserve_description_provider_call,
  consume_description_provider_call,
}
use nektron_moments.Description.Results.{
  complete_description, fail_description, defer_description_quota,
}
use nektron_moments.Worker.Repository.{Transaction}
use nektron_moments.Worker.Domain.{Clock}

pub record DescriptionJobRepository : Type 0 where
  pub claim : ℕ → String → Transaction (Option DescriptionJob)
  pub reserve : DescriptionJob → String → ℕ → Transaction Bool
  pub consume : DescriptionJob → String → Transaction Bool
  pub complete : DescriptionJob → SceneResult → Transaction Cleanup
  pub fail : DescriptionJob → JobFailure → Bool → Transaction (Bool × Cleanup)
  pub defer : DescriptionJob → JobFailure → Bool → Transaction Cleanup

-- A failure after which a retry is requested lets the preview be kept.
abbrev pub RetainsPreview : Outcome (Bool × Cleanup) → Type 0
RetainsPreview (raised e) = Unit
RetainsPreview (done (requested, cleanup) db) = requested ≡ true → cleanup ≡ Cleanup.retain

abbrev pub KeepsPreviews : DescriptionJobRepository → Type 0
KeepsPreviews r =
    (job : DescriptionJob) (failure : JobFailure) (called : Bool) (n : ℕ) (db : Database)
    → RetainsPreview (r.fail job failure called n db)

claimed : Option DescriptionJob × Database → Outcome (Option DescriptionJob)
claimed (job, db) = done job db

-- The service, with the row that the database gives a description in the n-th transaction.
unfoldable pub domain_scene_repository :
    Platform → Settings → Clock → (ℕ → NewRow) → DescriptionJobRepository
unfolding claimed
domain_scene_repository p cfg clock row = record {
  claim = λ id message n db. claimed (claim_description_job p cfg id message (clock.now n) db);
  reserve = λ job provider limit n db.
      reserve_description_provider_call p cfg job provider (pos limit) (clock.checked n)
        (clock.now n) db;
  consume = λ job provider n db.
      consume_description_provider_call p cfg job provider (clock.checked n) (clock.now n) db;
  complete = λ job found n db.
      complete_description p cfg job found (row n) (clock.checked n) (clock.now n) db;
  fail = λ job failure called n db.
      fail_description p cfg job failure called (clock.checked n) (clock.now n) db;
  defer = λ job failure called n db.
      defer_description_quota p cfg job failure called (clock.checked n) (clock.now n) db;
}

retained :
    (retry : Bool)
    → retry ≡ true
    → (if retry then Cleanup.retain else Cleanup.delete) ≡ Cleanup.retain
retained retry e = rw e refl

-- `fail_description` keeps the preview of a job that it wants to be retried.
pub domain_scene-KeepsPreviews :
    (p : Platform) (cfg : Settings) (clock : Clock) (row : ℕ → NewRow)
    → KeepsPreviews (domain_scene_repository p cfg clock row)
unfolding domain_scene_repository fail_description
domain_scene-KeepsPreviews p cfg clock row job failure called n db =
    elim (Option-cases (claimed_description_job p cfg job (clock.checked n) db)) [
      | inl lost ↦ rw (lost, fail_description) (λ e. refl)
      | inr ((stored, asset), e) ↦ rw (e, fail_description) (λ h. retained _ h)
    ]
