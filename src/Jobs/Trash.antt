-- ===== src/Jobs/Trash.antt =====
-- What deleting an occurrence does: an asset that no occurrence refers to is trashed, its pending
-- jobs end, and its uploads are cancelled. Objects are deleted from the temporary store at best
-- effort, which the database does not see.
use nektron_moments.Base.{
  ℕ, ◌+◌, ◌*◌, String, Bool, false, not, ◌&&◌, ◌||◌, none, some, List, [], ◌∷◌, ◌++◌, ◌==◌,
  if◌then◌else◌, truthy, select, length,
}
use nektron_moments.Clock.{DateTime, day}
use nektron_moments.Settings.{Settings}
use nektron_moments.Records.{
  is_description, Status, is_preparing, is_queued, is_running, is_deferred, FailureClass,
  ProcessingJob, EntityType, ChangeType, Lifecycle, is_active, StorageState, MediaAsset,
  MediaOccurrence, UploadStatus, is_live, UploadSession,
}
use nektron_moments.Ledger.{Ledger}
use nektron_moments.Cost.{unavailable}
use nektron_moments.Reservations.{settle_provider_reservation, provider_call_started}
use nektron_moments.Leases.{settle_job}
use nektron_moments.Store.{Database, replace_asset, asset_by_id}
use nektron_moments.Description.Results.{settle_both}
use nektron_moments.Jobs.Sweep.{sweep}

-- The statuses of a job that has not ended.
unfoldable pub is_pending : Status → Bool
is_pending status =
    is_preparing status || (is_queued status || (is_running status || is_deferred status))

-- The `where` clause of the jobs that end with their asset.
unfoldable pub is_pending_of : ℕ → ℕ → ProcessingJob → Bool
unfolding is_pending
is_pending_of user asset job =
    (job.user_id == user) && ((job.media_asset_id == asset) && is_pending job.status)

-- The settlements of a job whose asset is gone.
unfoldable pub settle_trashed :
    Settings → DateTime → Ledger → ProcessingJob → Ledger × ProcessingJob
unfolding settle_both
settle_trashed cfg now l job =
    if is_description job.job_type
    then (let called = provider_call_started job in
        settle_both cfg called called unavailable now l job)
    else settle_provider_reservation (is_running job.status) now l job

-- One round of the loop over jobs.
unfoldable pub stop_job : Settings → DateTime → Ledger → ProcessingJob → Ledger × ProcessingJob
unfolding settle_trashed settle_job
stop_job cfg now l job =
    let (l', settled) = settle_trashed cfg now l job in
    (
      l',
      settle_job Status.cancelled none (some FailureClass.invalid_media) (some "MediaTrashed")
          (some "Processing stopped because the media was removed.") (some now) now settled,
    )

-- The `where` clause of the uploads that end with their asset or job.
unfoldable pub is_live_upload_of : ℕ → ℕ → UploadSession → Bool
is_live_upload_of user asset upload =
    (upload.user_id == user)
    && ((upload.media_asset_id == asset) && (upload.is_temporary && is_live upload.status))

-- The loop over uploads.
unfoldable pub cancel_uploads : String → DateTime → ℕ → ℕ → List UploadSession → List UploadSession
unfolding is_live_upload_of
cancel_uploads reason now user asset [] = []
cancel_uploads reason now user asset (u ∷ us) =
    (if is_live_upload_of user asset u
      then record u {
        status = UploadStatus.cancelled;
        active_lease_marker = none;
        failure_code = some reason;
        updated_at = now;
      }
      else u)
    ∷ cancel_uploads reason now user asset us

-- `_cancel_asset_processing`
unfoldable pub cancel_asset_processing : Settings → DateTime → ℕ → ℕ → Database → Database
unfolding sweep stop_job is_pending_of cancel_uploads
cancel_asset_processing cfg now user asset db =
    let stopped = sweep now (stop_job cfg now) (select (is_pending_of user asset) db.jobs) db in
    record stopped { uploads = cancel_uploads "MediaTrashed" now user asset stopped.uploads }

-- The rows that `active_count_for_asset` counts.
unfoldable pub refers_to : ℕ → ℕ → ℕ → MediaOccurrence → Bool
refers_to user asset excluding row =
    (row.user_id == user)
    && (elim row.media_asset_id [ none ↦ false | some id ↦ id == asset ]
        && (row.is_kept && not (row.id == excluding)))

-- `active_count_for_asset`
unfoldable pub active_count_for_asset : ℕ → ℕ → ℕ → Database → ℕ
unfolding refers_to
active_count_for_asset user asset excluding db =
    length (select (refers_to user asset excluding) db.occurrences)

-- The device and the source that a deletion comes from: `MediaSource`
pub record Origin : Type 0 where
  pub device_id : ℕ
  pub source_id : ℕ

unfoldable pub trashed_asset : ℕ → DateTime → MediaAsset → MediaAsset
trashed_asset retention_days now asset = record asset {
  lifecycle_state = Lifecycle.trashed;
  storage_state = StorageState.trashed;
  trashed_at = some now;
  purge_after = some (now + retention_days * day);
  updated_at = now;
}

-- The end of `_trash_if_unreferenced`.
unfoldable pub trash_asset : Settings → ℕ → DateTime → ℕ → Origin → MediaAsset → Database → Database
unfolding cancel_asset_processing trashed_asset
trash_asset cfg retention_days now user origin asset db =
    let db₁ =
      cancel_asset_processing cfg now user asset.id
        (record db { assets = replace_asset (trashed_asset retention_days now asset) db.assets }) in
    record db₁ {
      changes =
          db₁.changes
          ++ record {
            user_id = user;
            device_id = some origin.device_id;
            source_id = some origin.source_id;
            asset_id = some asset.id;
            occurrence_id = none;
            change_type = ChangeType.delete;
            entity_type = EntityType.media_asset;
            entity_id = asset.id;
            entity_public_id = asset.public_id;
            created_at = now;
          }
            ∷ [];
    }

-- `_trash_if_unreferenced`, as `_delete_occurrence` calls it
unfoldable pub trash_if_unreferenced :
    Settings → ℕ → DateTime → ℕ → ℕ → ℕ → Origin → Database → Database
unfolding trash_asset active_count_for_asset
trash_if_unreferenced cfg retention_days now user id excluding origin db =
    if active_count_for_asset user id excluding db == 0
    then (elim (asset_by_id user id db) [
      | none ↦ db
      | some asset ↦
          if is_active asset.lifecycle_state
          then trash_asset cfg retention_days now user origin asset db
          else db
    ])
    else db

-- An occurrence written back
unfoldable pub replace_occurrence : MediaOccurrence → List MediaOccurrence → List MediaOccurrence
replace_occurrence row [] = []
replace_occurrence row (x ∷ xs) = if x.id == row.id then row ∷ xs else x ∷ replace_occurrence row xs

-- The row and its change, before the asset is looked at.
unfoldable pub mark_deleted : DateTime → ℕ → Origin → MediaOccurrence → Database → Database
unfolding replace_occurrence
mark_deleted now user origin row db = record db {
  occurrences =
      replace_occurrence
        (record row {
          is_kept = false;
          is_available = false;
          deleted_at = some now;
          last_seen_at = now;
          updated_at = now;
        })
        db.occurrences;
  changes =
      db.changes
      ++ record {
        user_id = user;
        device_id = some origin.device_id;
        source_id = some origin.source_id;
        asset_id = row.media_asset_id;
        occurrence_id = some row.id;
        change_type = ChangeType.delete;
        entity_type = EntityType.media_occurrence;
        entity_id = row.id;
        entity_public_id = row.public_id;
        created_at = now;
      }
        ∷ [];
}

-- `_delete_occurrence`
unfoldable pub delete_occurrence :
    Settings → ℕ → DateTime → ℕ → Origin → MediaOccurrence → Database → Database
unfolding trash_if_unreferenced mark_deleted
delete_occurrence cfg retention_days now user origin row db =
    let marked = mark_deleted now user origin row db in
    elim row.media_asset_id [
      | none ↦ marked
      | some id ↦ trash_if_unreferenced cfg retention_days now user id row.id origin marked
    ]

-- `_restore_asset`; `is_remote` is `source.storage_mode == "Remote"`.
unfoldable pub restore_asset : Bool → DateTime → MediaAsset → MediaAsset
restore_asset is_remote now asset = record asset {
  lifecycle_state = Lifecycle.active;
  trashed_at = none;
  purge_after = none;
  storage_state =
      if has_original asset
      then StorageState.remote_available
      else if is_remote
      then StorageState.upload_pending
      else StorageState.local_only;
  updated_at = now;
}
  where
    has_original : MediaAsset → Bool
    has_original row = elim row.original_s3_object_key [ none ↦ false | some key ↦ truthy key ]
