-- ===== src/Jobs/Stopping.antt =====
-- When the last occurrence of an asset is deleted, nothing of the asset is left to run or to upload.
use nektron_moments.Base.{
  ℕ, suc, String, ◌≡◌, ◌≢◌, ◌⊎◌, All-map, refl, sym, ap, ◌∙◌, true, false, some, List, [], ◌∷◌,
  ◌==◌, eqb_refl, eq→eqb, All, select, select_hit, select_miss, length, inl, inr, Bool-cases, arith,
}
use nektron_moments.Clock.{DateTime}
use nektron_moments.Settings.{Settings}
use nektron_moments.Records.{
  ProcessingJob, MediaAsset, is_active, MediaOccurrence, UploadSession, Status, UploadStatus,
  is_live, is_description, is_running,
}
use nektron_moments.Ledger.{Ledger}
use nektron_moments.Leases.{settle_job}
use nektron_moments.Store.{Database, asset_by_id, replace_asset}
use nektron_moments.Store.Laws.{DistinctIds}
use nektron_moments.Jobs.Scheduling.{both-SameSchedule, provider-SameSchedule}
use nektron_moments.Reservations.{provider_call_started}
use nektron_moments.Cost.{unavailable}
use nektron_moments.Jobs.Sweep.{sweep}
use nektron_moments.Jobs.Sweeping.{selected, sweep-All}
use nektron_moments.Jobs.Selecting.{DistinctIds-select}
use nektron_moments.Jobs.Trash.{
  is_pending, is_pending_of, stop_job, settle_trashed, is_live_upload_of, cancel_uploads,
  cancel_asset_processing, refers_to, active_count_for_asset, Origin, trashed_asset, trash_asset,
  trash_if_unreferenced, replace_occurrence, mark_deleted, delete_occurrence,
}

-- The job is of this asset and has not ended.
abbrev pub IsPendingOf : ℕ → ℕ → ProcessingJob → Type 0
IsPendingOf user asset job =
    (job.user_id ≡ user)
    × (job.media_asset_id ≡ asset)
    × ((job.status ≡ Status.preparing)
        ⊎ (job.status ≡ Status.queued)
        ⊎ (job.status ≡ Status.running)
        ⊎ (job.status ≡ Status.deferred_quota))

-- The upload is a temporary one of this asset and is neither cancelled nor expired.
abbrev pub IsLiveUploadOf : ℕ → ℕ → UploadSession → Type 0
IsLiveUploadOf user asset upload =
    (upload.user_id ≡ user)
    × (upload.media_asset_id ≡ asset)
    × (upload.is_temporary ≡ true)
    × (upload.status ≢ UploadStatus.cancelled)
    × (upload.status ≢ UploadStatus.expired)

abbrev pub IsStopped : ℕ → ℕ → Database → Type 0
IsStopped user asset db =
    All (λ job. ¬ IsPendingOf user asset job) db.jobs
    × All (λ upload. ¬ IsLiveUploadOf user asset upload) db.uploads

pending_if :
    (user asset : ℕ) (job : ProcessingJob)
    → is_pending_of user asset job ≡ false
    → ¬ IsPendingOf user asset job
unfolding is_pending_of is_pending
pending_if user asset job ended (own, of, status) =
    let hit : is_pending job.status ≡ true = elim status [
      | inl s ↦ rw s refl
      | inr (inl s) ↦ rw s refl
      | inr (inr (inl s)) ↦ rw s refl
      | inr (inr (inr s)) ↦ rw s refl
    ] in
    let mine = eq→eqb job.user_id user own in
    let this = eq→eqb job.media_asset_id asset of in ground (arith, mine, this, hit, ended)

live_if :
    (status : UploadStatus)
    → status ≢ UploadStatus.cancelled
    → status ≢ UploadStatus.expired
    → is_live status ≡ true
live_if UploadStatus.cancelled c e = absurd (c refl)
live_if UploadStatus.expired c e = absurd (e refl)
live_if UploadStatus.preparing c e = refl
live_if UploadStatus.uploading c e = refl
live_if UploadStatus.completing c e = refl
live_if UploadStatus.completed c e = refl

live_upload_if :
    (user asset : ℕ) (u : UploadSession)
    → is_live_upload_of user asset u ≡ false
    → ¬ IsLiveUploadOf user asset u
unfolding is_live_upload_of
live_upload_if user asset u over (own, of, temporary, kept, unexpired) =
    let live = live_if u.status kept unexpired in
    let mine = eq→eqb u.user_id user own in
    let this = eq→eqb u.media_asset_id asset of in ground (arith, mine, this, temporary, live, over)

stop_job-id :
    (cfg : Settings) (now : DateTime) (l : Ledger) (job : ProcessingJob)
    → (stop_job cfg now l job).1.id ≡ job.id
unfolding stop_job settle_job settle_trashed
stop_job-id cfg now l job = elim (Bool-cases (is_description job.job_type)) [
  | inl scene ↦
      let called = provider_call_started job in
      rw scene (both-SameSchedule cfg called called unavailable now l job).7
  | inr place ↦ rw place (provider-SameSchedule (is_running job.status) now l job).7
]

stopped_not_pending :
    (cfg : Settings) (now : DateTime) (user asset : ℕ) (l : Ledger) (job : ProcessingJob)
    → is_pending_of user asset (stop_job cfg now l job).1 ≡ false
unfolding stop_job settle_job is_pending_of is_pending
stopped_not_pending cfg now user asset l job = ground arith

cancelled_not_live :
    (reason : String) (now : DateTime) (user asset : ℕ) (us : List UploadSession)
    → All (λ u. is_live_upload_of user asset u ≡ false) (cancel_uploads reason now user asset us)
unfolding cancel_uploads is_live_upload_of
cancelled_not_live reason now user asset [] = tt
cancelled_not_live reason now user asset (u ∷ us) =
    (ground arith, cancelled_not_live reason now user asset us)

cancel_processing_stops :
    (cfg : Settings) (now : DateTime) (user asset : ℕ) (db : Database)
    → DistinctIds db.jobs
    → IsStopped user asset (cancel_asset_processing cfg now user asset db)
unfolding cancel_asset_processing
cancel_processing_stops cfg now user asset db distinct =
    let test = is_pending_of user asset in
    let pending = select test db.jobs in
    (
      All-map (λ job. test job ≡ false) (λ job. ¬ IsPendingOf user asset job)
          (sweep now (stop_job cfg now) pending db).jobs (pending_if user asset)
          (sweep-All now (stop_job cfg now) (stop_job-id cfg now) (λ job. test job ≡ false) pending
            db (λ l job. stopped_not_pending cfg now user asset l job) distinct
            (DistinctIds-select test db.jobs distinct) (selected test db.jobs)),
      All-map (λ u. is_live_upload_of user asset u ≡ false) (λ u. ¬ IsLiveUploadOf user asset u)
          (cancel_uploads "MediaTrashed" now user asset
            (sweep now (stop_job cfg now) pending db).uploads)
          (live_upload_if user asset)
          (cancelled_not_live "MediaTrashed" now user asset
            (sweep now (stop_job cfg now) pending db).uploads),
    )

excluded :
    (user asset id : ℕ) (row : MediaOccurrence)
    → (row.id == id) ≡ true
    → refers_to user asset id row ≡ false
unfolding refers_to
excluded user asset id row e = ground (arith, e)

counted : ℕ → ℕ → ℕ → List MediaOccurrence → ℕ
counted user asset id rows = length (select (refers_to user asset id) rows)

counted_hit :
    (user asset id : ℕ) (x : MediaOccurrence) (xs : List MediaOccurrence)
    → refers_to user asset id x ≡ true
    → counted user asset id (x ∷ xs) ≡ suc (counted user asset id xs)
unfolding counted
counted_hit user asset id x xs hit = ap length (select_hit (refers_to user asset id) x xs hit)

counted_miss :
    (user asset id : ℕ) (x : MediaOccurrence) (xs : List MediaOccurrence)
    → refers_to user asset id x ≡ false
    → counted user asset id (x ∷ xs) ≡ counted user asset id xs
unfolding counted
counted_miss user asset id x xs miss = ap length (select_miss (refers_to user asset id) x xs miss)

-- The excluded occurrence may change without being counted.
counted-replace :
    (user asset : ℕ) (row : MediaOccurrence) (rows : List MediaOccurrence)
    → counted user asset row.id (replace_occurrence row rows) ≡ counted user asset row.id rows
unfolding replace_occurrence
counted-replace user asset row [] = refl
counted-replace user asset row (x ∷ xs) =
    let count = counted user asset row.id in
    elim (Bool-cases (x.id == row.id)) [
      | inl same ↦ rw same (
          counted_miss user asset row.id row xs (excluded user asset row.id row (eqb_refl row.id))
          ∙ sym (counted_miss user asset row.id x xs (excluded user asset row.id x same)))
      | inr differs ↦
          let rest = replace_occurrence row xs in
          let kept = counted-replace user asset row xs in
          elim (Bool-cases (refers_to user asset row.id x)) [
            | inl hit ↦ rw differs (
                counted_hit user asset row.id x rest hit
                ∙ ap suc kept
                ∙ sym (counted_hit user asset row.id x xs hit))
            | inr miss ↦ rw differs (
                counted_miss user asset row.id x rest miss
                ∙ kept
                ∙ sym (counted_miss user asset row.id x xs miss))
          ]
    ]

trash_if_stops :
    (cfg : Settings) (days : ℕ) (now : DateTime) (user excluding : ℕ) (origin : Origin)
    (asset : MediaAsset) (db : Database)
    → DistinctIds db.jobs
    → active_count_for_asset user asset.id excluding db ≡ 0
    → asset_by_id user asset.id db ≡ some asset
    → is_active asset.lifecycle_state ≡ true
    → IsStopped user asset.id (trash_if_unreferenced cfg days now user asset.id excluding origin db)
unfolding trash_if_unreferenced trash_asset
trash_if_stops cfg days now user excluding origin asset db distinct last found active =
    let db₀ = record db { assets = replace_asset (trashed_asset days now asset) db.assets } in
    let free = eq→eqb (active_count_for_asset user asset.id excluding db) 0 last in
    rw (free, found, active, trash_if_unreferenced)
      (cancel_processing_stops cfg now user asset.id db₀ distinct)

-- If job ids are distinct, deleting the last occurrence that refers to an active asset leaves no job
-- of it that is preparing, queued, running or deferred, and no temporary upload of it that is neither
-- cancelled nor expired.
pub delete_occurrence_stops :
    (cfg : Settings) (days : ℕ) (now : DateTime) (user : ℕ) (origin : Origin)
    (row : MediaOccurrence) (asset : MediaAsset) (db : Database)
    → DistinctIds db.jobs
    → row.media_asset_id ≡ some asset.id
    → active_count_for_asset user asset.id row.id db ≡ 0
    → asset_by_id user asset.id db ≡ some asset
    → is_active asset.lifecycle_state ≡ true
    → IsStopped user asset.id (delete_occurrence cfg days now user origin row db)
unfolding delete_occurrence mark_deleted active_count_for_asset counted asset_by_id
delete_occurrence_stops cfg days now user origin row asset db distinct linked last found active =
    let marked = mark_deleted now user origin row db in
    rw (linked, delete_occurrence)
      (trash_if_stops cfg days now user row.id origin asset marked distinct
        (counted-replace user asset.id _ db.occurrences ∙ last) found active)
