-- ===== src/Jobs/Skipped.antt =====
-- A description that was skipped stays skipped: cancelling it again changes nothing.
use nektron_moments.Base.{
  ℕ, String, ◌≡◌, ◌≢◌, refl, sym, ap, ◌∙◌, Bool, true, false, ◌&&◌, Option, none, some, List, [],
  ◌∷◌, ◌==◌, inl, inr, Bool-cases, Option-cases, subst, eq→eqb, ne→eqb,
}
use nektron_moments.Clock.{DateTime}
use nektron_moments.Settings.{Settings}
use nektron_moments.Records.{ProcessingJob, is_description, is_succeeded, is_cancelled}
use nektron_moments.Cost.{unavailable}
use nektron_moments.Reservations.{provider_call_started}
use nektron_moments.Leases.{settle_job}
use nektron_moments.Store.{
  Database, Outcome, done, raised, value_error, conflict, not_found, first, replace_job, save,
  add_job_change,
}
use nektron_moments.Store.Laws.{DistinctIds, first_hit, first_not-Fresh}
use nektron_moments.Description.Results.{settle_both}
use nektron_moments.Jobs.Scheduling.{both-SameSchedule}
use nektron_moments.Jobs.View.{JobRecord, job_record}
use nektron_moments.Jobs.Retry.{job_of_user, answered}
use nektron_moments.Jobs.Cancel.{
  message_of, cancelled_job, cancel_allowed, cancel_found, cancel_job,
}

first_passes :
    (test : ProcessingJob → Bool) (js : List ProcessingJob) (job : ProcessingJob)
    → first test js ≡ some job
    → test job ≡ true
unfolding first
first_passes test [] job e = absurd cc
first_passes test (j ∷ js) job e = elim (Bool-cases (test j)) [
  | inl hit ↦ subst (λ x. test x ≡ true) (first_hit test j js job hit e) hit
  | inr miss ↦ first_passes test js job (rw miss at e)
]

-- The first row that passes a test, written back as one that passes it too, is still the first.
first-replace_job :
    (test : ProcessingJob → Bool) (js : List ProcessingJob) (job job' : ProcessingJob)
    → first test js ≡ some job
    → DistinctIds js
    → test job' ≡ true
    → job'.id ≡ job.id
    → first test (replace_job job' js) ≡ some job'
unfolding first replace_job
first-replace_job test [] job job' e d hit same = cc
first-replace_job test (j ∷ js) job job' e d hit same = elim (Bool-cases (test j)) [
  | inl this ↦
      let found : j ≡ job = first_hit test j js job this e in
      rw (eq→eqb j.id job'.id (ap (λ (x : ProcessingJob). x.id) found ∙ sym same), hit) refl
  | inr miss ↦
      let e' : first test js ≡ some job = rw miss at e in
      let other : job.id ≢ j.id = first_not-Fresh test j.id js e' d.0 in
      rw (ne→eqb j.id job'.id (λ x. other (sym (x ∙ same))), miss)
        (first-replace_job test js job job' e' d.1 hit same)
]

-- What an outcome answers, and the database it leaves.
answer_of : {A : Type 0} → Database → Outcome (JobRecord × A) → Option JobRecord × Database
answer_of db (done a db') = (some a.0, db')
answer_of db (raised e) = (none, db)

answered_shows :
    (job : ProcessingJob) (db db' : Database) (answer : JobRecord × Unit {0})
    → answered tt job db ≡ done answer db'
    → (job_record job db ≡ some answer.0) × (db ≡ db')
unfolding answered answer_of
answered_shows job db db' answer e =
    let shown : (answer_of db (answered tt job db)).0 ≡ some answer.0 =
      ap (λ o. (answer_of db o).0) e in
    let left : (answer_of db (answered tt job db)).1 ≡ db' = ap (λ o. (answer_of db o).1) e in
    elim (Option-cases (job_record job db)) [
      | inl missing ↦
          let bad : none ≡ some answer.0 = rw (missing, answered, answer_of) at shown in absurd cc
      | inr (view, found) ↦ (
        found ∙ (rw (found, answered, answer_of) at shown),
        (rw (found, answered, answer_of) at left),
      )
    ]

-- The job of this id is a cancelled description, and this is its record.
record IsSkipped (user id : ℕ) (view : Option JobRecord) (db : Database) : Type 0 where
  job : ProcessingJob
  found : job_of_user user id db ≡ some job
  scene : is_description job.job_type ≡ true
  over : is_succeeded job.status ≡ false
  cancelled : is_cancelled job.status ≡ true
  shown : job_record job db ≡ view

-- Skipping a job that is skipped answers with its record and writes nothing.
again :
    (cfg : Settings) (user id : ℕ) (reason message : String) (now : DateTime) (view : JobRecord)
    (db : Database)
    → message_of reason ≡ some message
    → IsSkipped user id (some view) db
    → cancel_job cfg user id reason now db ≡ done (view, tt) db
unfolding cancel_job cancel_found answered
again cfg user id reason message now view db known skipped =
    rw
      (
        known, skipped.found, skipped.scene, skipped.over, skipped.cancelled, skipped.shown,
        cancel_job, cancel_found, answered,
      )
      refl

cancel_allowed_skips :
    (cfg : Settings) (reason message : String) (now : DateTime) (user id : ℕ) (job : ProcessingJob)
    (db : Database)
    → DistinctIds db.jobs
    → job_of_user user id db ≡ some job
    → is_description job.job_type ≡ true
    → let (job', db') = cancel_allowed cfg reason message now job db in
      IsSkipped user id (job_record job' db') db'
unfolding cancel_allowed cancelled_job settle_job job_of_user save add_job_change
cancel_allowed_skips cfg reason message now user id job db distinct e scene =
    let test : ProcessingJob → Bool = λ j. (j.user_id == user) && (j.public_id == id) in
    let called = provider_call_started job in
    let r = settle_both cfg called called unavailable now db.usage job in
    let job' = cancelled_job reason message now r.1 in
    let same = both-SameSchedule cfg called called unavailable now db.usage job in
    let hit : test job' ≡ true = rw (same.6, same.5) (first_passes test db.jobs job e) in
    record {
      job = job';
      found = first-replace_job test db.jobs job job' e distinct hit same.7;
      scene = ap is_description same.0 ∙ scene;
      over = refl;
      cancelled = refl;
      shown = refl;
    }

cancel_found_skips :
    (cfg : Settings) (reason message : String) (now : DateTime) (user id : ℕ) (job : ProcessingJob)
    (answer : JobRecord × Unit {0}) (db db' : Database)
    → DistinctIds db.jobs
    → job_of_user user id db ≡ some job
    → cancel_found cfg reason message now job db ≡ done answer db'
    → IsSkipped user id (some answer.0) db'
unfolding cancel_found
cancel_found_skips cfg reason message now user id job answer db db' distinct found e =
    elim (Bool-cases (is_description job.job_type)) [
      | inr place ↦
          let bad : raised (conflict "JobCancellationNotAllowed") ≡ done answer db' =
            rw (place, cancel_found) at e in
          absurd cc
      | inl scene ↦ elim (Bool-cases (is_succeeded job.status)) [
        | inl over ↦
            let bad : raised (conflict "JobCancellationNotAllowed") ≡ done answer db' =
              rw (scene, over, cancel_found) at e in
            absurd cc
        | inr open_still ↦ elim (Bool-cases (is_cancelled job.status)) [
          | inl again ↦
              let shows =
                answered_shows job db db' answer
                  (rw (scene, open_still, again, cancel_found) at e) in
              subst (IsSkipped user id (some answer.0)) shows.1 (record {
                job = job;
                found = found;
                scene = scene;
                over = open_still;
                cancelled = again;
                shown = shows.0;
              })
          | inr first_time ↦
              let r = cancel_allowed cfg reason message now job db in
              let shows =
                answered_shows r.0 r.1 db' answer
                  (rw (scene, open_still, first_time, cancel_found) at e) in
              let skips =
                cancel_allowed_skips cfg reason message now user id job db distinct found scene in
              subst (IsSkipped user id (some answer.0)) shows.1
                (subst (λ view. IsSkipped user id view r.1) shows.0 skips)
        ]
      ]
    ]

-- If job ids are distinct, then once a description was skipped, skipping it again, for any valid
-- reason and at any time, gives the same answer and leaves the database as it is.
pub cancel_job_again :
    (cfg : Settings) (user id : ℕ) (reason reason' : String) (now now' : DateTime)
    (message' : String) (answer : JobRecord × Unit {0}) (db db' : Database)
    → DistinctIds db.jobs
    → message_of reason' ≡ some message'
    → cancel_job cfg user id reason now db ≡ done answer db'
    → cancel_job cfg user id reason' now' db' ≡ done answer db'
unfolding cancel_job
cancel_job_again cfg user id reason reason' now now' message' answer db db' distinct known e =
    again cfg user id reason' message' now' answer.0 db' known
      (elim (Option-cases (message_of reason)) [
        | inl unknown ↦
            let bad : raised value_error ≡ done answer db' = rw (unknown, cancel_job) at e in
            absurd cc
        | inr (message, valid) ↦ elim (Option-cases (job_of_user user id db)) [
          | inl missing ↦
              let bad : raised (not_found "JobNotFound") ≡ done answer db' =
                rw (valid, missing, cancel_job) at e in
              absurd cc
          | inr (job, found) ↦
              cancel_found_skips cfg reason message now user id job answer db db' distinct found
                (rw (valid, found, cancel_job) at e)
        ]
      ])
