-- ===== src/Geocode/Endings.antt =====
-- Failing, deferring, completing and consuming the call of a geocode job keep the books.
use nektron_moments.Base.{
  ℕ, String, ◌≡◌, refl, Bool, true, false, not, some, if◌then◌else◌, inl, inr, Bool-cases,
  Option-cases,
}
use nektron_moments.Platform.{Platform}
use nektron_moments.Clock.{DateTime}
use nektron_moments.Records.{
  Status, UsageKey, ProcessingJob, JobFailure, GeocodeJob, MediaLocation, GeocodeResult,
  opens_circuit,
}
use nektron_moments.Ledger.{Ledger}
use nektron_moments.Reservations.{settle_provider_reservation}
use nektron_moments.Reservations.Held.{reserved_at}
use nektron_moments.CircuitBreaker.{open_provider_circuit}
use nektron_moments.CircuitBreaker.Laws.{reserved_at-open_circuit}
use nektron_moments.Store.{replace_location, asset_by_id, Database, first, save}
use nektron_moments.Leases.{same_text, settle_job}
use nektron_moments.Soundness.{IsSound, SameBooks, add_job_change-IsSound}
use nektron_moments.Geocode.Books.{settled-IsSound, claimed-IsSound, KeepsBooks}
use nektron_moments.Geocode.Result.{apply_geocode_result, apply_geocode_timezone, zone_of}
use nektron_moments.Geocode.Calls.{
  consume_provider_call, complete_geocode, fail_geocode, defer_geocode_quota, fail_attempt,
  should_retry, defer_job, blocked_by_circuit, touch_job, finish_geocode_job, add_geocode_changes,
  is_held_for,
}
use nektron_moments.Geocode.Claim.{is_claimed_row, claimed_geocode_job}

pub fail_attempt-SameBooks :
    (failure : JobFailure) (now : DateTime) (job : ProcessingJob)
    → SameBooks job (fail_attempt failure now job)
unfolding fail_attempt settle_job
fail_attempt-SameBooks failure now job = elim (Bool-cases (should_retry failure job)) [
  | inl again ↦ rw (again, fail_attempt) (refl, refl, refl, refl)
  | inr never ↦ rw (never, fail_attempt) (refl, refl, refl, refl)
]

pub reserved_at-open_if :
    (k : UsageKey) (test : Bool) (now : DateTime) (code : String) (l : Ledger) (job : ProcessingJob)
    → reserved_at k (if test then open_provider_circuit now code l job else l) ≡ reserved_at k l
reserved_at-open_if k true now code l job = reserved_at-open_circuit k now code l job
reserved_at-open_if k false now code l job = refl

-- A failed attempt keeps the books sound, whether the job is retried or ends, whether or not the
-- failure opens the provider's circuit, and whatever the check of the claim found.
pub fail_geocode-IsSound :
    (p : Platform) (claim : GeocodeJob) (failure : JobFailure) (checked now : DateTime)
    (db : Database)
    → IsSound db
    → KeepsBooks db (fail_geocode p claim failure checked now db)
unfolding fail_geocode
fail_geocode-IsSound p claim failure checked now db sound =
    let (sound₁, found) = claimed-IsSound p claim checked db sound in
    let db₁ = (claimed_geocode_job p claim checked db).1 in
    elim found [
      | inl nothing ↦ rw (nothing, fail_geocode) sound₁
      | inr (job, row, e, selected) ↦
          let settled = settle_provider_reservation true now db₁.usage job in
          let opens = opens_circuit failure.failure_class in
          rw (e, fail_geocode)
            (add_job_change-IsSound now (fail_attempt failure now settled.1)
              (save
                (
                  if opens
                      then open_provider_circuit now failure.code settled.0 settled.1
                      else settled.0,
                  fail_attempt failure now settled.1,
                )
                db₁)
              (settled-IsSound db₁ (is_claimed_row claim) job (fail_attempt failure now settled.1)
                (if opens
                  then open_provider_circuit now failure.code settled.0 settled.1
                  else settled.0)
                true now sound₁ selected (fail_attempt-SameBooks failure now settled.1)
                λ k. reserved_at-open_if k opens now failure.code settled.0 settled.1))
    ]

pub defer_job-SameBooks :
    (blocked : Bool) (paused : String) (failure : JobFailure) (now : DateTime) (job : ProcessingJob)
    → SameBooks job (defer_job blocked paused failure now job)
unfolding defer_job settle_job
defer_job-SameBooks true paused failure now job = (refl, refl, refl, refl)
defer_job-SameBooks false paused failure now job = (refl, refl, refl, refl)

-- Deferring a job to the next month keeps the books sound, whether or not the provider was called.
pub defer_geocode-IsSound :
    (p : Platform) (claim : GeocodeJob) (failure : JobFailure) (called : Bool)
    (checked now : DateTime) (db : Database)
    → IsSound db
    → KeepsBooks db (defer_geocode_quota p claim failure called checked now db)
unfolding defer_geocode_quota
defer_geocode-IsSound p claim failure called checked now db sound =
    let (sound₁, found) = claimed-IsSound p claim checked db sound in
    let db₁ = (claimed_geocode_job p claim checked db).1 in
    elim found [
      | inl nothing ↦ rw (nothing, defer_geocode_quota) sound₁
      | inr (job, row, e, selected) ↦
          let settled = settle_provider_reservation called now db₁.usage job in
          let rows =
            if called
            then open_provider_circuit now failure.code settled.0 settled.1
            else settled.0 in
          let job' =
            defer_job (blocked_by_circuit called settled.1)
              "Location enrichment is paused after a provider credential or quota failure." failure
              now settled.1 in
          rw (e, defer_geocode_quota)
            (add_job_change-IsSound now job' (save (rows, job') db₁) (
              settled-IsSound db₁ (is_claimed_row claim) job job' rows called now sound₁ selected
                (defer_job-SameBooks _ _ failure now settled.1)
                λ k. reserved_at-open_if k called now failure.code settled.0 settled.1))
    ]

-- Consuming a reserved call before the network request keeps the books sound.
pub consume_provider_call-IsSound :
    (p : Platform) (claim : GeocodeJob) (provider : String) (checked now : DateTime) (db : Database)
    → IsSound db
    → KeepsBooks db (consume_provider_call p claim provider checked now db)
unfolding consume_provider_call touch_job
consume_provider_call-IsSound p claim provider checked now db sound =
    let (sound₁, found) = claimed-IsSound p claim checked db sound in
    let db₁ = (claimed_geocode_job p claim checked db).1 in
    elim found [
      | inl nothing ↦ rw (nothing, consume_provider_call) sound₁
      | inr (job, row, e, selected) ↦
          let settled = settle_provider_reservation true now db₁.usage job in
          elim (Bool-cases (same_text job.provider provider)) [
            | inr other ↦ simp (e, other, consume_provider_call) sound
            | inl same ↦ elim (Bool-cases (is_held_for provider job.request.usage_reservation)) [
              | inr nothing_held ↦ simp (e, same, nothing_held, consume_provider_call) sound₁
              | inl is_held ↦
                  simp (e, same, is_held, consume_provider_call)
                    (settled-IsSound db₁ (is_claimed_row claim) job
                      (record settled.1 { updated_at = now }) settled.0 true now sound₁ selected
                      (refl, refl, refl, refl) (λ k. refl))
            ]
          ]
    ]

apply_geocode_timezone_keeps :
    (p : Platform) (user asset : ℕ) (result : GeocodeResult) (now : DateTime) (db : Database)
    → let db' = apply_geocode_timezone p user asset result now db in
      (db'.jobs ≡ db.jobs) × (db'.usage ≡ db.usage)
unfolding apply_geocode_timezone
apply_geocode_timezone_keeps p user asset result now db =
    elim (Option-cases (zone_of result.resolution)) [
      | inl unknown ↦ rw (unknown, apply_geocode_timezone) (refl, refl)
      | inr (zone, e) ↦ elim (Option-cases (asset_by_id user asset db)) [
        | inl gone ↦ simp (e, gone, apply_geocode_timezone) (refl, refl)
        | inr (a, found) ↦ simp (e, found, apply_geocode_timezone) (refl, refl)
      ]
    ]

-- The books read the jobs and the usage rows only.
pub rows-IsSound :
    (db db' : Database) → db'.jobs ≡ db.jobs → db'.usage ≡ db.usage → IsSound db → IsSound db'
rows-IsSound db db' jobs usage sound = record {
  distinct = rw jobs sound.distinct;
  whole = rw jobs sound.whole;
  balanced = λ k. rw (jobs, usage) (sound.balanced k);
}

finished-IsSound :
    (db : Database) (test : ProcessingJob → Bool) (job : ProcessingJob) (row : MediaLocation)
    (consumed : Bool) (now : DateTime)
    → IsSound db
    → first test db.jobs ≡ some job
    → let (l, settled) = settle_provider_reservation consumed now db.usage job in
      let job' = finish_geocode_job Status.succeeded now settled in
      IsSound (add_geocode_changes now job' row (save (l, job') db))
unfolding add_geocode_changes finish_geocode_job settle_job
finished-IsSound db test job row consumed now sound e =
    let settled = settle_provider_reservation consumed now db.usage job in
    let job' = finish_geocode_job Status.succeeded now settled.1 in
    let sound' : IsSound (save (settled.0, job') db) =
      settled-IsSound db test job job' settled.0 consumed now sound e (refl, refl, refl, refl)
        (λ k. refl) in
    add_job_change-IsSound now job' _ (rows-IsSound (save (settled.0, job') db) _ refl refl sound')

-- Completing a job with a result, its own or one that is used again, keeps the books sound.
pub complete_geocode-IsSound :
    (p : Platform) (claim : GeocodeJob) (result : GeocodeResult) (reused : Bool)
    (checked now : DateTime) (db : Database)
    → IsSound db
    → KeepsBooks db (complete_geocode p claim result reused checked now db)
unfolding complete_geocode
complete_geocode-IsSound p claim result reused checked now db sound =
    let (sound₁, found) = claimed-IsSound p claim checked db sound in
    let db₁ = (claimed_geocode_job p claim checked db).1 in
    elim found [
      | inl nothing ↦ rw (nothing, complete_geocode) sound₁
      | inr (job, row, e, selected) ↦
          let row' = record (apply_geocode_result result now row) { updated_at = now } in
          let moved = record db₁ { locations = replace_location row' db₁.locations } in
          let kept =
            apply_geocode_timezone_keeps p job.user_id job.media_asset_id result now moved in
          rw (e, complete_geocode)
            (finished-IsSound
              (apply_geocode_timezone p job.user_id job.media_asset_id result now moved)
              (is_claimed_row claim) job row' (not reused) now
              (rows-IsSound db₁ _ kept.0 kept.1 sound₁) (rw kept.0 selected))
    ]
