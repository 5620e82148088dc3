-- ===== src/Uploads/Books.antt =====
-- Completing, cancelling and expiring an upload keeps the books.
use nektron_moments.Base.{
  ℕ, ◌≡◌, refl, subst, Bool, ◌&&◌, Option, some, List, [], ◌∷◌, ◌==◌, inl, inr, Bool-cases,
  Option-cases, ◌⊎◌,
}
use nektron_moments.Platform.{Platform}
use nektron_moments.Clock.{DateTime}
use nektron_moments.Records.{
  ProcessingJob, is_description, is_preparing, UploadSession, UploadStatus, is_completed,
  MediaAsset,
}
use nektron_moments.Reservations.{release_description_request}
use nektron_moments.Store.{
  Database, Error, conflict, not_found, Outcome, done, raised, first, save, asset_by_id, committed,
}
use nektron_moments.Soundness.{IsSound, add_job_change-IsSound}
use nektron_moments.Soundness.Steps.{
  Step, Step-Covers, Step-trans, Step-IsSound, SameBooks-Step, release-Step, first-Covers,
}
use nektron_moments.Geocode.Books.{KeepsBooks}
use nektron_moments.Jobs.Sweep.{clear_staging, reset_job}
use nektron_moments.Jobs.Retry.{job_of_user}
use nektron_moments.Jobs.Trashing.{same_books-IsSound}
use nektron_moments.Description.Claim.{upload_by_public_id}
use nektron_moments.Uploads.{
  job_for_upload, write_upload, ended_upload, expire_with, expire_upload, unprepare, cancel_with,
  is_supported, was_cancelled, cancel_found_upload, cancel_upload, expire_uploads,
  expire_temporary_uploads,
}
use nektron_moments.Uploads.Complete.{
  ObjectHead, CompleteCommand, complete_refusal, completed_upload, staged_job, queue_staged,
  complete_with, command_refusal, complete_found, complete_upload,
}

-- The job of an upload is a row of the database, which is as it was.
job_cases :
    (user : ℕ) (upload : UploadSession) (db : Database)
    → ((e : Error) × (job_for_upload user upload db ≡ raised e))
      ⊎ ((job : ProcessingJob) × (test : ProcessingJob → Bool) × (first test db.jobs ≡ some job)
          × (job_for_upload user upload db ≡ done job db))
unfolding job_for_upload job_of_user
job_cases user upload db = elim (Option-cases upload.processing_job) [
  | inl unnamed ↦ inl (conflict "UploadSessionInvalid", rw (unnamed, job_for_upload) refl)
  | inr (id, named) ↦ elim (Option-cases (job_of_user user id db)) [
    | inl missing ↦ inl (not_found "JobNotFound", rw (named, missing, job_for_upload) refl)
    | inr (job, found) ↦
        elim (Bool-cases
          (is_description job.job_type && (job.media_asset_id == upload.media_asset_id))) [
            | inl fits ↦ inr (
              job,
              (λ j. (j.user_id == user) && (j.public_id == id)),
              found,
              rw (named, found, fits, job_for_upload) refl,
            )
            | inr not_its ↦
                inl
                  (conflict "UploadSessionInvalid", rw (named, found, not_its, job_for_upload) refl)
          ]
  ]
]

outcome_cases :
    {A : Type 0} (o : Outcome A)
    → ((e : Error) × (o ≡ raised e)) ⊎ ((a : A) × (db : Database) × (o ≡ done a db))
outcome_cases (raised e) = inl (e, refl)
outcome_cases (done a db) = inr (a, db, refl)

-- The upload is written, and the books do not read it.
write_upload-IsSound :
    (upload : UploadSession) (db : Database) → IsSound db → IsSound (write_upload upload db)
unfolding write_upload
write_upload-IsSound upload db sound =
    same_books-IsSound db (write_upload upload db) refl refl sound

expire_with-IsSound :
    (now : DateTime) (upload : UploadSession) (test : ProcessingJob → Bool) (job : ProcessingJob)
    (db : Database)
    → IsSound db
    → first test db.jobs ≡ some job
    → IsSound (expire_with now upload job db)
unfolding expire_with
expire_with-IsSound now upload test job db sound e =
    let ended = ended_upload UploadStatus.expired "UploadLeaseExpired" now upload in
    elim (Bool-cases (is_preparing job.status)) [
      | inl waits ↦
          let r = release_description_request now db.usage job in
          rw waits (
            write_upload-IsSound ended (save r db) (
              Step-IsSound db test job r sound e
                (release-Step now db.usage job (first-Covers db test job sound e))))
      | inr queued ↦ rw queued (write_upload-IsSound ended db sound)
    ]

pub expire_upload-IsSound :
    (user : ℕ) (now : DateTime) (upload : UploadSession) (db : Database)
    → IsSound db
    → KeepsBooks db (expire_upload user now upload db)
unfolding expire_upload
expire_upload-IsSound user now upload db sound = elim (job_cases user upload db) [
  | inl (e, raises) ↦ rw (raises, expire_upload) sound
  | inr (job, test, found, finds) ↦
      rw (finds, expire_upload) (expire_with-IsSound now upload test job db sound found)
]

cancel_with-IsSound :
    (now : DateTime) (upload : UploadSession) (test : ProcessingJob → Bool) (job : ProcessingJob)
    (db : Database)
    → IsSound db
    → first test db.jobs ≡ some job
    → KeepsBooks db (cancel_with now upload job db)
unfolding cancel_with unprepare clear_staging write_upload
cancel_with-IsSound now upload test job db sound e = elim (Bool-cases (is_preparing job.status)) [
  | inr queued ↦ rw (queued, cancel_with) sound
  | inl waits ↦
      let written =
        write_upload (ended_upload UploadStatus.cancelled "CancelledByClient" now upload) db in
      let job₁ = unprepare now job in
      let covers = first-Covers db test job sound e in
      let one : Step db.usage job (db.usage, job₁) =
        SameBooks-Step db.usage job job₁ (refl, refl, refl, refl) covers.0 in
      let r = release_description_request now db.usage job₁ in
      let two =
        release-Step now db.usage job₁ (Step-Covers db.usage db.usage job job₁ covers one) in
      rw (waits, cancel_with)
        (Step-IsSound written test job r (same_books-IsSound db written refl refl sound) e
          (Step-trans db.usage db.usage r.0 job job₁ r.1 one two))
]

cancel_found-IsSound :
    (user : ℕ) (now : DateTime) (upload : UploadSession) (db : Database)
    → IsSound db
    → KeepsBooks db (cancel_found_upload user now upload db)
unfolding cancel_found_upload
cancel_found-IsSound user now upload db sound = elim (Bool-cases (is_supported upload)) [
  | inr other ↦ rw (other, cancel_found_upload) sound
  | inl ours ↦ elim (Bool-cases (is_completed upload.status)) [
    | inl over ↦ rw (ours, over, cancel_found_upload) sound
    | inr open_still ↦ elim (Bool-cases (was_cancelled upload.status)) [
      | inl again ↦ rw (ours, open_still, again, cancel_found_upload) sound
      | inr first_time ↦ elim (job_cases user upload db) [
        | inl (e, raises) ↦ rw (ours, open_still, first_time, raises, cancel_found_upload) sound
        | inr (job, test, found, finds) ↦
            rw (ours, open_still, first_time, finds, cancel_found_upload)
              (cancel_with-IsSound now upload test job db sound found)
      ]
    ]
  ]
]

-- Cancelling an upload keeps the books sound, with the release of what its job had reserved.
pub cancel_upload-IsSound :
    (user id : ℕ) (now : DateTime) (db : Database)
    → IsSound db
    → KeepsBooks db (cancel_upload user id now db)
unfolding cancel_upload
cancel_upload-IsSound user id now db sound = elim (Option-cases (upload_by_public_id user id db)) [
  | inl missing ↦ rw (missing, cancel_upload) sound
  | inr (upload, found) ↦ rw (found, cancel_upload) (cancel_found-IsSound user now upload db sound)
]

-- Expiring uploads in turn keeps the books sound, also when the store or a row stops the loop.
pub expire_uploads-IsSound :
    (user : ℕ) (now : DateTime) (uploads : List UploadSession) (before db : Database)
    → IsSound before
    → IsSound db
    → KeepsBooks before (expire_uploads user now uploads db)
unfolding expire_uploads
expire_uploads-IsSound user now [] before db sound₀ sound = sound
expire_uploads-IsSound user now (upload ∷ uploads) before db sound₀ sound =
    elim (Bool-cases (is_supported upload)) [
      | inr other ↦ rw (other, expire_uploads) sound₀
      | inl ours ↦ elim (outcome_cases (expire_upload user now upload db)) [
        | inl (e, raises) ↦ rw (ours, raises, expire_uploads) sound₀
        | inr (u, db', finds) ↦
            rw (ours, finds, expire_uploads)
              (expire_uploads-IsSound user now uploads before db' sound₀ (
                subst (λ o. IsSound (committed db o)) finds
                  (expire_upload-IsSound user now upload db sound)))
      ]
    ]

complete_with-IsSound :
    (p : Platform) (now : DateTime) (upload : UploadSession) (asset : MediaAsset)
    (test : ProcessingJob → Bool) (job : ProcessingJob) (head : Option ObjectHead) (db : Database)
    → IsSound db
    → first test db.jobs ≡ some job
    → KeepsBooks db (complete_with p now upload asset job head db)
unfolding complete_with queue_staged staged_job reset_job
complete_with-IsSound p now upload asset test job head db sound e =
    elim (Bool-cases (is_completed upload.status)) [
      | inl again ↦ rw (again, complete_with) sound
      | inr open_still ↦ elim (Option-cases (complete_refusal p now upload asset job head)) [
        | inr (why, refused) ↦ rw (open_still, refused, complete_with) sound
        | inl allowed ↦
            let job' = queue_staged p now upload asset job in
            let written = write_upload (completed_upload now upload.expected_byte_size upload) db in
            rw (open_still, allowed, complete_with)
              (add_job_change-IsSound now job' (save (db.usage, job') written) (
                Step-IsSound written test job (db.usage, job')
                  (write_upload-IsSound (completed_upload now upload.expected_byte_size upload) db
                    sound)
                  e
                  (SameBooks-Step db.usage job job' (refl, refl, refl, refl)
                    (first-Covers db test job sound e).0)))
      ]
    ]

complete_found-IsSound :
    (p : Platform) (user : ℕ) (now : DateTime) (command : CompleteCommand)
    (head : Option ObjectHead) (upload : UploadSession) (db : Database)
    → IsSound db
    → KeepsBooks db (complete_found p user now command head upload db)
unfolding complete_found
complete_found-IsSound p user now command head upload db sound =
    elim (Option-cases (command_refusal p command upload)) [
      | inr (why, refused) ↦ rw (refused, complete_found) sound
      | inl fine ↦ elim (Option-cases (asset_by_id user upload.media_asset_id db)) [
        | inl missing ↦ rw (fine, missing, complete_found) sound
        | inr (asset, there) ↦ elim (job_cases user upload db) [
          | inl (e, raises) ↦ rw (fine, there, raises, complete_found) sound
          | inr (job, test, found, finds) ↦
              rw (fine, there, finds, complete_found)
                (complete_with-IsSound p now upload asset test job head db sound found)
        ]
      ]
    ]

pub complete_upload-IsSound :
    (p : Platform) (user id : ℕ) (now : DateTime) (command : CompleteCommand)
    (head : Option ObjectHead) (db : Database)
    → IsSound db
    → KeepsBooks db (complete_upload p user id now command head db)
unfolding complete_upload
complete_upload-IsSound p user id now command head db sound =
    elim (Option-cases (upload_by_public_id user id db)) [
      | inl missing ↦ rw (missing, complete_upload) sound
      | inr (upload, found) ↦
          rw (found, complete_upload)
            (complete_found-IsSound p user now command head upload db sound)
    ]

-- Whatever becomes of a temporary upload - it is completed, cancelled by its user, or the expired
-- ones of a user are swept - the books stay sound.
pub uploads_keep_books :
    (p : Platform) (user id : ℕ) (now : DateTime) (command : CompleteCommand)
    (head : Option ObjectHead) (db : Database)
    → IsSound db
    → KeepsBooks db (complete_upload p user id now command head db)
      × KeepsBooks db (cancel_upload user id now db)
      × KeepsBooks db (expire_temporary_uploads user now db)
unfolding expire_temporary_uploads
uploads_keep_books p user id now command head db sound = (
  complete_upload-IsSound p user id now command head db sound,
  cancel_upload-IsSound user id now db sound,
  expire_uploads-IsSound user now _ db db sound sound,
)
