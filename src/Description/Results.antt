-- ===== src/Description/Results.antt =====
-- The endings of a description: `complete_description`, `fail_description` and
-- `defer_description_quota`.
use nektron_moments.Base.{
  ℕ, Bool, true, false, ◌&&◌, none, some, List, [], ◌∷◌, ◌++◌, ◌==◌, str_eq, if◌then◌else◌, truthy,
}
use nektron_moments.Platform.{Platform}
use nektron_moments.Clock.{DateTime}
use nektron_moments.Settings.{Settings}
use nektron_moments.Records.{
  Status, FailureClass, opens_circuit, ProcessingJob, EntityType, ChangeType, JobFailure,
  MediaAsset, MediaDescription,
}
use nektron_moments.Ledger.{Ledger}
use nektron_moments.Cost.{Calculation, raises, unavailable, charge, usage_within_bounds}
use nektron_moments.Reservations.{settle_provider_reservation}
use nektron_moments.Charges.{cost_calculation, settle_description_cost}
use nektron_moments.CircuitBreaker.{open_provider_circuit}
use nektron_moments.Store.{
  Database, value_error, Outcome, done, raised, save, add_job_change, replace_asset,
}
use nektron_moments.Leases.{same_text, settle_job}
use nektron_moments.Geocode.Calls.{should_retry, fail_attempt, blocked_by_circuit, defer_job}
use nektron_moments.Description.Payload.{DescriptionJob}
use nektron_moments.Description.Claim.{finish_description_job}
use nektron_moments.Description.Claimed.{claimed_description_job}
use nektron_moments.Description.Calls.{Cleanup, SceneResult, NewRow}

-- Both settlements, as each ending of an attempt makes them.
unfoldable pub settle_both :
    Settings
    → Bool
    → Bool
    → Calculation
    → DateTime
    → Ledger
    → ProcessingJob
    → Ledger × ProcessingJob
settle_both cfg consumed called calc now l job =
    let (l₁, job₁) = settle_provider_reservation consumed now l job in
    settle_description_cost cfg called calc now l₁ job₁

-- The condition under which a result is refused, negated.
unfoldable pub is_valid_result : Platform → DescriptionJob → ProcessingJob → SceneResult → Bool
is_valid_result p claim job result =
    same_text job.provider result.provider
    && (str_eq result.model claim.model
        && (str_eq result.prompt_version claim.prompt_version
            && (truthy (p.strip result.description) && usage_within_bounds result.usage)))

-- The rows that were current are so no longer.
unfoldable pub retire : DateTime → ℕ → ℕ → List MediaDescription → List MediaDescription
retire now user asset [] = []
retire now user asset (d ∷ ds) =
    let rest = retire now user asset ds in
    if (d.user_id == user) && ((d.media_asset_id == asset) && d.is_current)
    then record d { is_current = false; updated_at = now } ∷ rest
    else d ∷ rest

unfoldable pub described : NewRow → DateTime → ProcessingJob → SceneResult → MediaDescription
described row now job result = record {
  id = row.id;
  public_id = row.public_id;
  user_id = job.user_id;
  media_asset_id = job.media_asset_id;
  description = some result.description;
  provider = result.provider;
  model = result.model;
  prompt_version = result.prompt_version;
  is_succeeded = true;
  is_current = true;
  requested_at = job.created_at;
  completed_at = now;
  created_at = now;
  updated_at = now;
}

-- `DescriptionCleanupDecision.DELETE` with an invalid result: the job fails, and is charged in full.
unfoldable pub refuse_result : Settings → DateTime → ProcessingJob → Database → Database
unfolding settle_both settle_job
refuse_result cfg now job db =
    let (l, settled) = settle_both cfg true true unavailable now db.usage job in
    let job' =
      settle_job Status.failed none (some FailureClass.internal)
        (some "InvalidSceneDescriptionResult")
        (some "The scene-description provider returned an invalid result.") (some now) now
        settled in
    add_job_change now job' (save (l, job') db)

-- The change of a new description.
unfoldable pub add_description_change : NewRow → DateTime → ProcessingJob → Database → Database
add_description_change row now job db = record db {
  changes =
      db.changes
      ++ record {
        user_id = job.user_id;
        device_id = none;
        source_id = job.media_source_id;
        asset_id = some job.media_asset_id;
        occurrence_id = none;
        change_type = ChangeType.upsert;
        entity_type = EntityType.media_description;
        entity_id = row.id;
        entity_public_id = row.public_id;
        created_at = now;
      }
        ∷ [];
}

unfoldable pub accept_result :
    Settings
    → NewRow
    → Calculation
    → DateTime
    → ProcessingJob
    → MediaAsset
    → SceneResult
    → Database
    → Database
unfolding retire described add_description_change settle_both
accept_result cfg row calc now job asset result db =
    let (l, settled) = settle_both cfg true true calc now db.usage job in
    let job' = finish_description_job Status.succeeded now settled in
    let saved =
      save (l, job')
        (record db {
          descriptions =
              retire now job.user_id job.media_asset_id db.descriptions
              ++ described row now job result ∷ [];
          assets =
              replace_asset (record asset { last_processed_at = some now; updated_at = now })
                db.assets;
        }) in
    add_job_change now job' (add_description_change row now job' saved)

unfoldable pub complete_with :
    Settings
    → NewRow
    → Calculation
    → DateTime
    → ProcessingJob
    → MediaAsset
    → SceneResult
    → Database
    → Outcome Cleanup
unfolding accept_result
complete_with cfg row raises now job asset result db = raised value_error
complete_with cfg row unavailable now job asset result db =
    done Cleanup.delete (accept_result cfg row unavailable now job asset result db)
complete_with cfg row (charge c u) now job asset result db =
    done Cleanup.delete (accept_result cfg row (charge c u) now job asset result db)

-- `complete_description`
unfoldable pub complete_description :
    Platform
    → Settings
    → DescriptionJob
    → SceneResult
    → NewRow
    → DateTime
    → DateTime
    → Database
    → Outcome Cleanup
unfolding is_valid_result refuse_result complete_with
complete_description p cfg claim result row checked now db =
    elim (claimed_description_job p cfg claim checked db) [
      | none ↦ done Cleanup.retain db
      | some (job, asset) ↦
          if is_valid_result p claim job result
          then complete_with cfg row (cost_calculation cfg result.usage job) now job asset result db
          else done Cleanup.delete (refuse_result cfg now job db)
    ]

-- `fail_description`: whether a retry is requested, and the cleanup.
unfoldable pub fail_description :
    Platform
    → Settings
    → DescriptionJob
    → JobFailure
    → Bool
    → DateTime
    → DateTime
    → Database
    → Outcome (Bool × Cleanup)
unfolding settle_both
fail_description p cfg claim failure called checked now db =
    elim (claimed_description_job p cfg claim checked db) [
      | none ↦ done (false, Cleanup.retain) db
      | some (job, asset) ↦
          let (l, settled) = settle_both cfg called called unavailable now db.usage job in
          let l' =
            if called && opens_circuit failure.failure_class
            then open_provider_circuit now failure.code l settled
            else l in
          let job' = fail_attempt failure now settled in
          let retry = should_retry failure settled in
          done (retry, (if retry then Cleanup.retain else Cleanup.delete))
            (add_job_change now job' (save (l', job') db))
    ]

-- `defer_description_quota`
unfoldable pub defer_description_quota :
    Platform
    → Settings
    → DescriptionJob
    → JobFailure
    → Bool
    → DateTime
    → DateTime
    → Database
    → Outcome Cleanup
unfolding settle_both
defer_description_quota p cfg claim failure called checked now db =
    elim (claimed_description_job p cfg claim checked db) [
      | none ↦ done Cleanup.retain db
      | some (job, asset) ↦
          let (l, settled) = settle_both cfg called called unavailable now db.usage job in
          let l' = if called then open_provider_circuit now failure.code l settled else l in
          let job' =
            defer_job (blocked_by_circuit called settled)
              "Scene description is paused after a provider credential or quota failure." failure
              now settled in
          done Cleanup.delete (add_job_change now job' (save (l', job') db))
    ]
