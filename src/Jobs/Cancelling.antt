-- ===== src/Jobs/Cancelling.antt =====
-- Cancelling a description: the books, and that cancelling again changes nothing.
use nektron_moments.Base.{
  ℕ, String, ◌≡◌, refl, Bool, ◌&&◌, some, ◌==◌, inl, inr, Bool-cases, Option-cases,
}
use nektron_moments.Clock.{DateTime}
use nektron_moments.Settings.{Settings}
use nektron_moments.Records.{ProcessingJob, is_description, is_succeeded, is_cancelled}
use nektron_moments.Cost.{unavailable}
use nektron_moments.Reservations.{provider_call_started}
use nektron_moments.Leases.{settle_job}
use nektron_moments.Store.{Database, first, save}
use nektron_moments.Soundness.{IsSound, add_job_change-IsSound}
use nektron_moments.Soundness.Steps.{Step-SameBooks, Step-IsSound, first-Covers}
use nektron_moments.Geocode.Books.{KeepsBooks}
use nektron_moments.Description.Results.{settle_both}
use nektron_moments.Jobs.Recovering.{both-Step}
use nektron_moments.Jobs.Trashing.{same_books-IsSound}
use nektron_moments.Jobs.Trash.{cancel_uploads}
use nektron_moments.Jobs.Retry.{job_of_user}
use nektron_moments.Jobs.Retrying.{answered-KeepsBooks}
use nektron_moments.Jobs.Cancel.{
  message_of, cancelled_job, cancel_allowed, cancel_found, cancel_job,
}

cancel_allowed-IsSound :
    (cfg : Settings) (reason message : String) (now : DateTime) (test : ProcessingJob → Bool)
    (job : ProcessingJob) (db : Database)
    → IsSound db
    → first test db.jobs ≡ some job
    → IsSound (cancel_allowed cfg reason message now job db).1
unfolding cancel_allowed cancelled_job settle_job
cancel_allowed-IsSound cfg reason message now test job db sound e =
    let called = provider_call_started job in
    let r = settle_both cfg called called unavailable now db.usage job in
    let job' = cancelled_job reason message now r.1 in
    let cancelled = record db {
      uploads = cancel_uploads reason now job.user_id job.media_asset_id db.uploads;
    } in
    let sound' = same_books-IsSound db cancelled refl refl sound in
    add_job_change-IsSound now job' (save (r.0, job') cancelled) (
      Step-IsSound cancelled test job (r.0, job') sound' e
        (Step-SameBooks db.usage job r job'
          (both-Step cfg called called unavailable now db.usage job
            (first-Covers db test job sound e))
          (refl, refl, refl, refl)))

cancel_found-IsSound :
    (cfg : Settings) (reason message : String) (now : DateTime) (test : ProcessingJob → Bool)
    (job : ProcessingJob) (db : Database)
    → IsSound db
    → first test db.jobs ≡ some job
    → KeepsBooks db (cancel_found cfg reason message now job db)
unfolding cancel_found
cancel_found-IsSound cfg reason message now test job db sound e =
    elim (Bool-cases (is_description job.job_type)) [
      | inr place ↦ rw (place, cancel_found) sound
      | inl scene ↦ elim (Bool-cases (is_succeeded job.status)) [
        | inl over ↦ rw (scene, over, cancel_found) sound
        | inr open_still ↦ elim (Bool-cases (is_cancelled job.status)) [
          | inl again ↦
              rw (scene, open_still, again, cancel_found)
                (answered-KeepsBooks tt job db db sound sound)
          | inr first_time ↦
              let r = cancel_allowed cfg reason message now job db in
              rw (scene, open_still, first_time, cancel_found)
                (answered-KeepsBooks tt r.0 db r.1 sound
                  (cancel_allowed-IsSound cfg reason message now test job db sound e))
        ]
      ]
    ]

-- Cancelling keeps the books sound, whatever the job is, its reason, and whether the provider had
-- been called.
pub cancel_job-IsSound :
    (cfg : Settings) (user id : ℕ) (reason : String) (now : DateTime) (db : Database)
    → IsSound db
    → KeepsBooks db (cancel_job cfg user id reason now db)
unfolding cancel_job job_of_user
cancel_job-IsSound cfg user id reason now db sound = elim (Option-cases (message_of reason)) [
  | inl unknown ↦ rw (unknown, cancel_job) sound
  | inr (message, known) ↦ elim (Option-cases (job_of_user user id db)) [
    | inl missing ↦ rw (known, missing, cancel_job) sound
    | inr (job, e) ↦
        rw (known, e, cancel_job)
          (cancel_found-IsSound cfg reason message now
            (λ j. (j.user_id == user) && (j.public_id == id)) job db sound e)
  ]
]
