-- ===== src/Description/Claiming.antt =====
-- `claim_description_job` keeps the books: on every branch it saves one step of the job and its rows.
use nektron_moments.Base.{ℕ, String, ◌≡◌, refl, arith, inl, inr, Bool-cases, Option-cases}
use nektron_moments.Platform.{Platform}
use nektron_moments.Clock.{DateTime}
use nektron_moments.Settings.{Settings}
use nektron_moments.Records.{Status, ProcessingJob, is_description}
use nektron_moments.Ledger.{Ledger}
use nektron_moments.Reservations.{release_description_request}
use nektron_moments.Store.{Database, save, job_by_public_id, asset_by_id}
use nektron_moments.Store.Laws.{All-first}
use nektron_moments.Soundness.{IsSound, IsWholeJob, SameBooks, held-le-reserved, save-IsSound}
use nektron_moments.Leases.{settle_job}
use nektron_moments.Geocode.Claim.{bad_message_id, lease_hash}
use nektron_moments.Description.Payload.{
  DescriptionJob, Amounts, pin_amounts, read_payload, checked_claim,
}
use nektron_moments.Description.Claim.{
  take_description_lease, release_and_save, claim_staged, claim_payload, claim_description_job,
  is_staged, is_described, current_description, upload_by_public_id, finish_description_job,
  fail_stale_description_job, fail_invalid_description_job,
}
use nektron_moments.Soundness.Steps.{
  Covers, Step, Step-Covers, Step-trans, SameBooks-Step, release-Step,
}
use nektron_moments.Description.Leasing.{leased-Step}

abbrev Saves : Database → ProcessingJob → Database → Type 0
Saves db job db' = (r : Ledger × ProcessingJob) × Step db.usage job r × (db' ≡ save r db)

released-Saves :
    (now : DateTime) (job job' : ProcessingJob) (db : Database)
    → SameBooks job job'
    → Covers db.usage job
    → Saves db job (release_and_save now job' db)
unfolding release_and_save
released-Saves now job job' db same covers =
    let step = SameBooks-Step db.usage job job' same covers.0 in
    (
      release_description_request now db.usage job',
      Step-trans db.usage db.usage _ job job' _ step
          (release-Step now db.usage job' (Step-Covers db.usage db.usage job job' covers step)),
      refl,
    )

staged-Saves :
    (p : Platform) (cfg : Settings) (message : String) (now : DateTime) (job : ProcessingJob)
    (upload : ℕ) (claim : DescriptionJob) (db : Database)
    → Covers db.usage job
    → Saves db job (claim_staged p cfg message now job upload claim db).1
unfolding claim_staged finish_description_job fail_stale_description_job settle_job
staged-Saves p cfg message now job upload claim db covers =
    let staged =
      is_staged p claim (asset_by_id job.user_id job.media_asset_id db)
        (upload_by_public_id job.user_id upload db) in
    let said = is_described p (current_description job.user_id job.media_asset_id db) in
    elim (Bool-cases staged) [
      | inr gone ↦
          let (r, step, e) =
            released-Saves now job (fail_stale_description_job now job) db (refl, refl, refl, refl)
              covers in
          (r, step, simp (gone, claim_staged) e)
      | inl there ↦ elim (Bool-cases said) [
        | inl done_before ↦
            let step = release-Step now db.usage job covers in
            let released = release_description_request now db.usage job in
            (
              (released.0, finish_description_job Status.succeeded now released.1),
              Step-trans db.usage released.0 released.0 job released.1 _ step
                  (SameBooks-Step released.0 released.1 _ (refl, refl, refl, refl) step.1),
              simp (there, done_before, claim_staged),
            )
        | inr to_do ↦
            let hash = lease_hash p message in
            let (r, step, e) = leased-Step cfg hash now job db covers in
            elim (Option-cases (take_description_lease cfg hash now job db).0) [
              | inl refused ↦ (r, step, simp (there, to_do, refused, claim_staged) e)
              | inr (job', leased) ↦ (r, step, simp (there, to_do, leased, claim_staged) e)
            ]
      ]
    ]

pinned-SameBooks :
    (now : DateTime) (a : Amounts) (job : ProcessingJob) → SameBooks job (pin_amounts now a job)
unfolding pin_amounts
pinned-SameBooks now a job = ground arith

payload-Saves :
    (p : Platform) (cfg : Settings) (message : String) (now : DateTime) (job : ProcessingJob)
    (db : Database)
    → Covers db.usage job
    → Saves db job (claim_payload p cfg message now job db).1
unfolding claim_payload fail_invalid_description_job settle_job
payload-Saves p cfg message now job db covers =
    let invalid =
      released-Saves now job (fail_invalid_description_job now job) db (refl, refl, refl, refl)
        covers in
    elim (Option-cases (read_payload p cfg job.request)) [
      | inl bad ↦ (invalid.0, invalid.1, simp (bad, claim_payload) invalid.2)
      | inr (q, read) ↦ elim (Option-cases (checked_claim p message job q)) [
        | inl bad ↦ (invalid.0, invalid.1, simp (read, bad, claim_payload) invalid.2)
        | inr (claim, good) ↦
            let job' = pin_amounts now q.amounts job in
            let step =
              SameBooks-Step db.usage job job' (pinned-SameBooks now q.amounts job) covers.0 in
            let (r, rest, e) =
              staged-Saves p cfg message now job' q.upload claim db
                (Step-Covers db.usage db.usage job job' covers step) in
            (
              r,
              Step-trans db.usage db.usage r.0 job job' r.1 step rest,
              simp (read, good, claim_payload) e,
            )
      ]
    ]

-- A claim of a description keeps the books sound, whatever the job, its payload, its preview, its
-- current description and its lease are.
pub claim_description_job-IsSound :
    (p : Platform) (cfg : Settings) (id : ℕ) (message : String) (now : DateTime) (db : Database)
    → IsSound db
    → IsSound (claim_description_job p cfg id message now db).1
unfolding claim_description_job job_by_public_id
claim_description_job-IsSound p cfg id message now db sound =
    elim (Bool-cases (bad_message_id message)) [
      | inl bad ↦ simp (bad, claim_description_job) sound
      | inr good ↦ elim (Option-cases (job_by_public_id id db)) [
        | inl missing ↦ simp (good, missing, claim_description_job) sound
        | inr (job, found) ↦ elim (Bool-cases (is_description job.job_type)) [
          | inr other ↦ simp (good, found, other, claim_description_job) sound
          | inl description ↦
              let covers : Covers db.usage job = (
                All-first IsWholeJob _ db.jobs job found sound.whole,
                held-le-reserved db _ job sound found,
              ) in
              let (r, step, e) = payload-Saves p cfg message now job db covers in
              simp (good, found, description, e, claim_description_job)
                (save-IsSound db _ job r.1 r.0 sound found step.0 step.1 step.2)
        ]
      ]
    ]
