-- ===== src/Geocode/Fence.antt =====
-- What the check of a claim can find: nothing, a stale job that it cancels, or the claimed job. Only
-- the message that holds the unexpired lease gets past it.
use nektron_moments.Base.{
  ℕ, String, ◌≡◌, ◌⊎◌, Bool, true, false, none, some, inl, inr, Bool-cases, Option-cases,
}
use nektron_moments.Platform.{Platform}
use nektron_moments.Numbers.{ℤ}
use nektron_moments.Clock.{DateTime}
use nektron_moments.Records.{ProcessingJob, GeocodeJob, MediaLocation, JobFailure, GeocodeResult}
use nektron_moments.Store.{Database, committed, first, add_job_change}
use nektron_moments.Leases.{same_active_lease}
use nektron_moments.Geocode.Claim.{
  lease_hash, cancel_stale_geocode_job, current_location, stale, is_claimed_row, same_revision,
  claimed_geocode_job,
}
use nektron_moments.Geocode.Reuse.{ReuseSearch, bad_radius, find_reusable_location}
use nektron_moments.Geocode.Calls.{
  bad_provider, reserve_provider_call, consume_provider_call, complete_geocode, fail_geocode,
  defer_geocode_quota,
}

-- The row that the claim selects, held by the claim's message at its revision.
abbrev pub Holds : Platform → GeocodeJob → DateTime → Database → ProcessingJob → Type 0
Holds p claim now db job =
    (first (is_claimed_row claim) db.jobs ≡ some job)
    × (same_active_lease (lease_hash p claim.lease_owner) now job ≡ true)
    × (same_revision job.request.coordinate_revision claim.coordinate_revision ≡ true)

pub claimed_cases :
    (p : Platform) (claim : GeocodeJob) (now : DateTime) (db : Database)
    → let result = claimed_geocode_job p claim now db in
      (result ≡ (none, db))
      ⊎ ((job : ProcessingJob) × Holds p claim now db job
          × (result
              ≡ (none, add_job_change now (cancel_stale_geocode_job now job) (stale now job db))))
      ⊎ ((job : ProcessingJob) × (row : MediaLocation) × Holds p claim now db job
          × (current_location p claim.coordinate_revision job db ≡ some row)
          × (result ≡ (some (job, row), db)))
unfolding claimed_geocode_job
claimed_cases p claim now db = elim (Option-cases (first (is_claimed_row claim) db.jobs)) [
  | inl missing ↦ inl (rw (missing, claimed_geocode_job))
  | inr (job, e) ↦ elim (Bool-cases (same_active_lease (lease_hash p claim.lease_owner) now job)) [
    | inr lost ↦ inl (simp (e, lost, claimed_geocode_job))
    | inl held ↦
        elim (Bool-cases
          (same_revision job.request.coordinate_revision claim.coordinate_revision)) [
            | inr moved ↦ inl (simp (e, held, moved, claimed_geocode_job))
            | inl same ↦ elim (Option-cases (current_location p claim.coordinate_revision job db)) [
              | inl gone ↦
                  inr (inl (job, (e, held, same), simp (e, held, same, gone, claimed_geocode_job)))
              | inr (row, found) ↦ inr (
                  inr (
                    job,
                    row,
                    (e, held, same),
                    found,
                    simp (e, held, same, found, claimed_geocode_job),
                  ))
            ]
          ]
  ]
]

lost_claim :
    (p : Platform) (claim : GeocodeJob) (now : DateTime) (db : Database) (job : ProcessingJob)
    → first (is_claimed_row claim) db.jobs ≡ some job
    → same_active_lease (lease_hash p claim.lease_owner) now job ≡ false
    → claimed_geocode_job p claim now db ≡ (none, db)
unfolding claimed_geocode_job
lost_claim p claim now db job e lost = simp (e, lost, claimed_geocode_job)

-- A worker whose lease has expired, or has passed to another message, can do nothing: none of the
-- six calls that it may make after its claim changes the database, whatever it hands over.
pub lost_lease_changes_nothing :
    (p : Platform) (claim : GeocodeJob) (db : Database) (job : ProcessingJob)
    (checked now : DateTime) (provider : String) (limit : ℕ) (result : GeocodeResult) (flag : Bool)
    (failure : JobFailure) (near_by : ReuseSearch) (radius : ℤ)
    → first (is_claimed_row claim) db.jobs ≡ some job
    → same_active_lease (lease_hash p claim.lease_owner) checked job ≡ false
    → (committed db (find_reusable_location p near_by radius claim checked now db) ≡ db)
      × (committed db (reserve_provider_call p claim provider limit checked now db) ≡ db)
      × (committed db (consume_provider_call p claim provider checked now db) ≡ db)
      × (committed db (complete_geocode p claim result flag checked now db) ≡ db)
      × (committed db (fail_geocode p claim failure checked now db) ≡ db)
      × (committed db (defer_geocode_quota p claim failure flag checked now db) ≡ db)
unfolding find_reusable_location reserve_provider_call consume_provider_call complete_geocode
    fail_geocode defer_geocode_quota
lost_lease_changes_nothing p claim db job checked now provider limit result flag failure near_by
      radius e lost =
    let none_held = lost_claim p claim checked db job e lost in
    (
      elim (Bool-cases (bad_radius radius)) [
        | inl bad ↦ simp (bad, find_reusable_location)
        | inr good ↦ simp (good, none_held, find_reusable_location)
      ],
      elim (Bool-cases (bad_provider provider)) [
        | inl bad ↦ simp (bad, reserve_provider_call)
        | inr good ↦ simp (good, none_held, reserve_provider_call)
      ],
      simp (none_held, consume_provider_call),
      simp (none_held, complete_geocode),
      simp (none_held, fail_geocode),
      simp (none_held, defer_geocode_quota),
    )
