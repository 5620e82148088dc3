-- ===== src/Description/Endings.antt =====
-- Failing, deferring and refusing a description keep the books, and a worker whose lease is gone ends
-- nothing.
use nektron_moments.Base.{
  String, ◌≡◌, ◌⊎◌, refl, Bool, true, false, ◌&&◌, Option, none, some, if◌then◌else◌, inl, inr,
  Bool-cases, Option-cases,
}
use nektron_moments.Numbers.{ℤ, pos, negsuc}
use nektron_moments.Platform.{Platform}
use nektron_moments.Clock.{DateTime}
use nektron_moments.Settings.{Settings}
use nektron_moments.Records.{ProcessingJob, JobFailure, MediaAsset, UploadSession, opens_circuit}
use nektron_moments.Cost.{unavailable}
use nektron_moments.CircuitBreaker.{open_provider_circuit}
use nektron_moments.Store.{Database, committed, first, save, asset_by_id}
use nektron_moments.Soundness.{IsSound, add_job_change-IsSound}
use nektron_moments.Leases.{same_active_lease}
use nektron_moments.Geocode.Calls.{bad_provider, fail_attempt, blocked_by_circuit, defer_job}
use nektron_moments.Geocode.Books.{KeepsBooks}
use nektron_moments.Geocode.Claim.{lease_hash}
use nektron_moments.Geocode.Endings.{
  reserved_at-open_if, fail_attempt-SameBooks, defer_job-SameBooks,
}
use nektron_moments.Description.Payload.{DescriptionJob, read_payload}
use nektron_moments.Description.Claim.{upload_by_public_id}
use nektron_moments.Description.Claimed.{
  is_claimed_description, claimed_description_job, staged_rows, same_payload, still_staged,
}
use nektron_moments.Description.Calls.{
  SceneResult, NewRow, reserve_claimed, reserve_description_provider_call,
  consume_description_provider_call,
}
use nektron_moments.Description.Results.{
  settle_both, complete_description, fail_description, defer_description_quota,
}
use nektron_moments.Description.Books.{settled_both-IsSound}

lost_claim :
    (p : Platform) (cfg : Settings) (claim : DescriptionJob) (now : DateTime) (db : Database)
    (job : ProcessingJob)
    → first (is_claimed_description claim) db.jobs ≡ some job
    → same_active_lease (lease_hash p claim.lease_owner) now job ≡ false
    → claimed_description_job p cfg claim now db ≡ none
unfolding claimed_description_job
lost_claim p cfg claim now db job e lost = simp (e, lost, claimed_description_job)

lost_reserve :
    (p : Platform) (cfg : Settings) (claim : DescriptionJob) (provider : String) (limit : ℤ)
    (checked now : DateTime) (db : Database)
    → claimed_description_job p cfg claim checked db ≡ none
    → committed db (reserve_description_provider_call p cfg claim provider limit checked now db)
      ≡ db
unfolding reserve_description_provider_call reserve_claimed
lost_reserve p cfg claim provider (negsuc n) checked now db nothing = refl
lost_reserve p cfg claim provider (pos n) checked now db nothing =
    elim (Bool-cases (bad_provider provider)) [
      | inl bad ↦ simp (bad, reserve_description_provider_call)
      | inr good ↦ simp (good, nothing, reserve_claimed)
    ]

-- A worker whose lease has expired, or has passed to another message, can do nothing: none of the
-- five calls that it may still make changes the database, whatever it hands over.
pub lost_description_lease_changes_nothing :
    (p : Platform) (cfg : Settings) (claim : DescriptionJob) (db : Database) (job : ProcessingJob)
    (checked now : DateTime) (provider : String) (limit : ℤ) (result : SceneResult) (row : NewRow)
    (called : Bool) (failure : JobFailure)
    → first (is_claimed_description claim) db.jobs ≡ some job
    → same_active_lease (lease_hash p claim.lease_owner) checked job ≡ false
    → (committed db (reserve_description_provider_call p cfg claim provider limit checked now db)
        ≡ db)
      × (committed db (consume_description_provider_call p cfg claim provider checked now db) ≡ db)
      × (committed db (complete_description p cfg claim result row checked now db) ≡ db)
      × (committed db (fail_description p cfg claim failure called checked now db) ≡ db)
      × (committed db (defer_description_quota p cfg claim failure called checked now db) ≡ db)
unfolding consume_description_provider_call complete_description fail_description
    defer_description_quota
lost_description_lease_changes_nothing p cfg claim db job checked now provider limit result row
      called failure e lost =
    let nothing = lost_claim p cfg claim checked db job e lost in
    (
      lost_reserve p cfg claim provider limit checked now db nothing,
      simp (nothing, consume_description_provider_call),
      simp (nothing, complete_description),
      simp (nothing, fail_description),
      simp (nothing, defer_description_quota),
    )

staged_job :
    (p : Platform) (claim : DescriptionJob) (job : ProcessingJob) (asset : Option MediaAsset)
    (upload : Option UploadSession)
    → (staged_rows p claim job asset upload ≡ none)
      ⊎ ((a : MediaAsset) × (staged_rows p claim job asset upload ≡ some (job, a)))
unfolding staged_rows
staged_job p claim job none upload = inl refl
staged_job p claim job (some asset) none = inl refl
staged_job p claim job (some asset) (some upload) =
    elim (Bool-cases (still_staged p claim asset upload)) [
      | inl staged ↦ inr (asset, rw (staged, staged_rows))
      | inr gone ↦ inl (rw (gone, staged_rows))
    ]

-- A claim that holds selects the job of its row, under a live lease of the claim's message.
pub claimed_description_cases :
    (p : Platform) (cfg : Settings) (claim : DescriptionJob) (now : DateTime) (db : Database)
    → (claimed_description_job p cfg claim now db ≡ none)
      ⊎ ((job : ProcessingJob) × (asset : MediaAsset) × (first
              (is_claimed_description claim)
              db.jobs
            ≡ some job)
          × (same_active_lease (lease_hash p claim.lease_owner) now job ≡ true)
          × (claimed_description_job p cfg claim now db ≡ some (job, asset)))
unfolding claimed_description_job
claimed_description_cases p cfg claim now db =
    elim (Option-cases (first (is_claimed_description claim) db.jobs)) [
      | inl missing ↦ inl (simp (missing, claimed_description_job))
      | inr (job, e) ↦
          elim (Bool-cases (same_active_lease (lease_hash p claim.lease_owner) now job)) [
            | inr lost ↦ inl (simp (e, lost, claimed_description_job))
            | inl held ↦ elim (Option-cases (read_payload p cfg job.request)) [
              | inl bad ↦ inl (simp (e, held, bad, claimed_description_job))
              | inr (q, read) ↦ elim (Bool-cases (same_payload p claim q)) [
                | inr moved ↦ inl (simp (e, held, read, moved, claimed_description_job))
                | inl same ↦
                    elim (staged_job p claim job (asset_by_id job.user_id job.media_asset_id db)
                      (upload_by_public_id job.user_id q.upload db)) [
                        | inl gone ↦ inl (simp (e, held, read, same, gone, claimed_description_job))
                        | inr (asset, staged) ↦ inr (
                          job,
                          asset,
                          e,
                          held,
                          simp (e, held, read, same, staged, claimed_description_job),
                        )
                      ]
              ]
            ]
          ]
    ]

-- A failed description keeps the books sound, whether or not the provider was called, the job is
-- retried, or the circuit opens.
pub fail_description-IsSound :
    (p : Platform) (cfg : Settings) (claim : DescriptionJob) (failure : JobFailure) (called : Bool)
    (checked now : DateTime) (db : Database)
    → IsSound db
    → KeepsBooks db (fail_description p cfg claim failure called checked now db)
unfolding fail_description
fail_description-IsSound p cfg claim failure called checked now db sound =
    elim (claimed_description_cases p cfg claim checked db) [
      | inl nothing ↦ rw (nothing, fail_description) sound
      | inr (job, asset, selected, held, e) ↦
          let settled = settle_both cfg called called unavailable now db.usage job in
          let opens = called && opens_circuit failure.failure_class in
          let rows =
            if opens
            then open_provider_circuit now failure.code settled.0 settled.1
            else settled.0 in
          let job' = fail_attempt failure now settled.1 in
          rw (e, fail_description)
            (add_job_change-IsSound now job' (save (rows, job') db) (
              settled_both-IsSound cfg db (is_claimed_description claim) job job' rows called called
                unavailable now sound selected (fail_attempt-SameBooks failure now settled.1)
                λ k. reserved_at-open_if k opens now failure.code settled.0 settled.1))
    ]

-- Deferring a description to the next month keeps the books sound, whether or not the provider was
-- called.
pub defer_description-IsSound :
    (p : Platform) (cfg : Settings) (claim : DescriptionJob) (failure : JobFailure) (called : Bool)
    (checked now : DateTime) (db : Database)
    → IsSound db
    → KeepsBooks db (defer_description_quota p cfg claim failure called checked now db)
unfolding defer_description_quota
defer_description-IsSound p cfg claim failure called checked now db sound =
    elim (claimed_description_cases p cfg claim checked db) [
      | inl nothing ↦ rw (nothing, defer_description_quota) sound
      | inr (job, asset, selected, held, e) ↦
          let settled = settle_both cfg called called unavailable now db.usage job in
          let rows =
            if called
            then open_provider_circuit now failure.code settled.0 settled.1
            else settled.0 in
          let job' =
            defer_job (blocked_by_circuit called settled.1)
              "Scene description is paused after a provider credential or quota failure." failure
              now settled.1 in
          rw (e, defer_description_quota)
            (add_job_change-IsSound now job' (save (rows, job') db) (
              settled_both-IsSound cfg db (is_claimed_description claim) job job' rows called called
                unavailable now sound selected (defer_job-SameBooks _ _ failure now settled.1)
                λ k. reserved_at-open_if k called now failure.code settled.0 settled.1))
    ]
