-- ===== src/Jobs/Trashing.antt =====
-- Trash: the books, and that nothing of a trashed asset is left to run.
use nektron_moments.Base.{
  ℕ, ◌≡◌, refl, ◌==◌, All-select', select, inl, inr, Bool-cases, Option-cases,
}
use nektron_moments.Clock.{DateTime}
use nektron_moments.Settings.{Settings}
use nektron_moments.Records.{
  is_description, is_running, ProcessingJob, MediaAsset, is_active, MediaOccurrence,
}
use nektron_moments.Ledger.{Ledger}
use nektron_moments.Cost.{unavailable}
use nektron_moments.Reservations.{provider_call_started}
use nektron_moments.Leases.{settle_job}
use nektron_moments.Store.{Database, asset_by_id, replace_asset}
use nektron_moments.Soundness.{IsSound}
use nektron_moments.Soundness.Steps.{Covers, Step, Step-SameBooks, provider-Step}
use nektron_moments.Jobs.Sweep.{sweep}
use nektron_moments.Jobs.Sweeping.{Stored, All-Stored, sweep-IsSound}
use nektron_moments.Jobs.Selecting.{DistinctIds-select}
use nektron_moments.Jobs.Recovering.{both-Step}
use nektron_moments.Jobs.Trash.{
  is_pending_of, settle_trashed, stop_job, cancel_asset_processing, active_count_for_asset, Origin,
  trashed_asset, trash_asset, trash_if_unreferenced, mark_deleted, delete_occurrence,
}

settle_trashed-Step :
    (cfg : Settings) (now : DateTime) (l : Ledger) (job : ProcessingJob)
    → Covers l job
    → Step l job (settle_trashed cfg now l job)
unfolding settle_trashed
settle_trashed-Step cfg now l job covers = elim (Bool-cases (is_description job.job_type)) [
  | inl scene ↦
      let called = provider_call_started job in
      rw scene (both-Step cfg called called unavailable now l job covers)
  | inr place ↦ rw place (provider-Step (is_running job.status) now l job covers)
]

pub stop_job-Step :
    (cfg : Settings) (now : DateTime) (l : Ledger) (job : ProcessingJob)
    → Covers l job
    → Step l job (stop_job cfg now l job)
unfolding stop_job settle_job
stop_job-Step cfg now l job covers =
    Step-SameBooks l job (settle_trashed cfg now l job) (stop_job cfg now l job).1
      (settle_trashed-Step cfg now l job covers) (refl, refl, refl, refl)

-- The books do not read the other tables.
pub same_books-IsSound :
    (db db' : Database) → db'.jobs ≡ db.jobs → db'.usage ≡ db.usage → IsSound db → IsSound db'
same_books-IsSound db db' jobs usage sound = record {
  distinct = rw jobs sound.distinct;
  whole = rw jobs sound.whole;
  balanced = λ k. rw (jobs, usage) (sound.balanced k);
}

cancel_processing-IsSound :
    (cfg : Settings) (now : DateTime) (user asset : ℕ) (db : Database)
    → IsSound db
    → IsSound (cancel_asset_processing cfg now user asset db)
unfolding cancel_asset_processing
cancel_processing-IsSound cfg now user asset db sound =
    let test = is_pending_of user asset in
    same_books-IsSound (sweep now (stop_job cfg now) (select test db.jobs) db)
      (cancel_asset_processing cfg now user asset db) refl refl
      (sweep-IsSound now (stop_job cfg now) (stop_job-Step cfg now) (select test db.jobs) db sound
        (DistinctIds-select test db.jobs sound.distinct)
        (All-select' (Stored db.jobs) test db.jobs (All-Stored db.jobs sound.distinct)))

trash_asset-IsSound :
    (cfg : Settings) (days : ℕ) (now : DateTime) (user : ℕ) (origin : Origin) (asset : MediaAsset)
    (db : Database)
    → IsSound db
    → IsSound (trash_asset cfg days now user origin asset db)
unfolding trash_asset
trash_asset-IsSound cfg days now user origin asset db sound =
    let db₀ = record db { assets = replace_asset (trashed_asset days now asset) db.assets } in
    same_books-IsSound (cancel_asset_processing cfg now user asset.id db₀)
      (trash_asset cfg days now user origin asset db) refl refl
      (cancel_processing-IsSound cfg now user asset.id db₀
        (same_books-IsSound db db₀ refl refl sound))

trash_if-IsSound :
    (cfg : Settings) (days : ℕ) (now : DateTime) (user id excluding : ℕ) (origin : Origin)
    (db : Database)
    → IsSound db
    → IsSound (trash_if_unreferenced cfg days now user id excluding origin db)
unfolding trash_if_unreferenced
trash_if-IsSound cfg days now user id excluding origin db sound =
    elim (Bool-cases (active_count_for_asset user id excluding db == 0)) [
      | inr used ↦ rw (used, trash_if_unreferenced) sound
      | inl free ↦ elim (Option-cases (asset_by_id user id db)) [
        | inl missing ↦ rw (free, missing, trash_if_unreferenced) sound
        | inr (asset, e) ↦ elim (Bool-cases (is_active asset.lifecycle_state)) [
          | inl active ↦
              rw (free, e, active, trash_if_unreferenced)
                (trash_asset-IsSound cfg days now user origin asset db sound)
          | inr gone ↦ rw (free, e, gone, trash_if_unreferenced) sound
        ]
      ]
    ]

-- Deleting an occurrence keeps the books sound, whether or not its asset is trashed with it.
pub delete_occurrence-IsSound :
    (cfg : Settings) (days : ℕ) (now : DateTime) (user : ℕ) (origin : Origin)
    (row : MediaOccurrence) (db : Database)
    → IsSound db
    → IsSound (delete_occurrence cfg days now user origin row db)
unfolding delete_occurrence mark_deleted
delete_occurrence-IsSound cfg days now user origin row db sound =
    let marked = mark_deleted now user origin row db in
    let sound' : IsSound marked = same_books-IsSound db marked refl refl sound in
    elim (Option-cases row.media_asset_id) [
      | inl unlinked ↦ rw (unlinked, delete_occurrence) sound'
      | inr (id, e) ↦
          rw (e, delete_occurrence)
            (trash_if-IsSound cfg days now user id row.id origin marked sound')
    ]
