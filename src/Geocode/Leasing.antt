-- ===== src/Geocode/Leasing.antt =====
-- Taking a lease: what the message that gets it may rely on, what every other message sees, and the
-- books through `claim_geocode_job` and `reserve_provider_call`.
use nektron_moments.Base.{
  ℕ, ◌+◌, ◌<◌, ◌≤◌, String, ◌≡◌, ◌⊎◌, refl, Bool, true, false, Option, none, some, arith, inl, inr,
  Bool-cases, Option-cases, str_eq, str_eq_iff,
}
use nektron_moments.Platform.{Platform}
use nektron_moments.Clock.{DateTime, seconds}
use nektron_moments.Numbers.{ℤ}
use nektron_moments.Records.{Status, is_running, is_queued, ProcessingJob, is_geocode}
use nektron_moments.Reservations.{settle_provider_reservation}
use nektron_moments.Store.{Database, committed, first, save, job_by_public_id}
use nektron_moments.Leases.{
  same_active_lease, expired_running_lease, unexpired, same_text, claimable, not_due,
  attempts_exhausted, start_attempt, exhaust, settle_job,
}
use nektron_moments.Soundness.{IsSound}
use nektron_moments.Geocode.Claim.{
  take_lease, claim_at, claim_found, finish_claim, claim_geocode_job, bad_message_id, Payload,
  uncaught, unreadable, coordinates, read_payload, checked_payload, current_location,
  fail_invalid_geocode_job, geocode_lease_seconds, lease_hash,
}
use nektron_moments.Geocode.Books.{settled-IsSound, same-IsSound, stale-IsSound}

started-same_active_lease :
    (hash : String) (expires now : DateTime) (job : ProcessingJob)
    → now < expires
    → same_active_lease hash now (start_attempt hash expires now job) ≡ true
unfolding same_active_lease start_attempt unexpired same_text
started-same_active_lease hash expires now job later = ground (arith, str_eq_iff hash hash)

started_attempts :
    (hash : String) (expires now : DateTime) (job : ProcessingJob)
    → attempts_exhausted job ≡ false
    → (start_attempt hash expires now job).attempt_count
      ≤ (start_attempt hash expires now job).max_attempts
unfolding attempts_exhausted start_attempt
started_attempts hash expires now job more = ground arith

other_text :
    (o : Option String) (hash other : String)
    → same_text o hash ≡ true
    → str_eq hash other ≡ false
    → same_text o other ≡ false
unfolding same_text
other_text none hash other same different = refl
other_text (some t) hash other same different =
    ground (arith, str_eq_iff t hash, str_eq_iff t other, str_eq_iff hash other)

running_not_queued : (s : Status) → is_running s ≡ true → is_queued s ≡ false
running_not_queued Status.running e = refl
running_not_queued Status.preparing e = ground arith
running_not_queued Status.queued e = ground arith
running_not_queued Status.deferred_quota e = ground arith
running_not_queued Status.succeeded e = ground arith
running_not_queued Status.failed e = ground arith
running_not_queued Status.cancelled e = ground arith

leased_elsewhere :
    (hash other : String) (now : DateTime) (job : ProcessingJob)
    → same_active_lease hash now job ≡ true
    → str_eq hash other ≡ false
    → (same_active_lease other now job ≡ false) × (claimable now job ≡ false)
unfolding same_active_lease claimable expired_running_lease
leased_elsewhere hash other now job held different = elim (Bool-cases (is_running job.status)) [
  | inr idle ↦ absurd (ground (arith, idle, held))
  | inl running ↦ elim (Bool-cases (same_text job.lease_token_hash hash)) [
    | inr free ↦ absurd (ground (arith, free, held))
    | inl mine ↦ ground (
      arith,
      other_text job.lease_token_hash hash other mine different,
      running_not_queued job.status running,
    )
  ]
]

-- A live lease shuts out every other message: whoever asks under another hash gets nothing, and
-- nothing is written.
pub take_lease_excludes :
    (lifetime : ℕ) (text hash other : String) (now : DateTime) (job : ProcessingJob) (db : Database)
    → same_active_lease hash now job ≡ true
    → str_eq hash other ≡ false
    → take_lease lifetime text other now job db ≡ (none, db)
unfolding take_lease
take_lease_excludes lifetime text hash other now job db held different =
    let elsewhere = leased_elsewhere hash other now job held different in
    simp (elsewhere.0, elsewhere.1, take_lease)

-- The five ways in which `take_lease` ends.
pub take_lease_cases :
    (lifetime : ℕ) (text hash : String) (now : DateTime) (job : ProcessingJob) (db : Database)
    → let result = take_lease lifetime text hash now job db in
      ((result ≡ (some job, db)) × (same_active_lease hash now job ≡ true))
      ⊎ (result ≡ (none, db))
      ⊎ ((attempts_exhausted job ≡ true)
          × (result ≡ (
            none,
            save
                (
                  (settle_provider_reservation true now db.usage job).0,
                  exhaust text now (settle_provider_reservation true now db.usage job).1,
                )
                db,
          )))
      ⊎ ((attempts_exhausted job ≡ false)
          × (claimable now job ≡ true)
          × (not_due now job ≡ false)
          × (result ≡ (
            some (start_attempt hash (now + seconds lifetime) now job),
            save (db.usage, start_attempt hash (now + seconds lifetime) now job) db,
          )))
unfolding take_lease
take_lease_cases lifetime text hash now job db =
    elim (Bool-cases (same_active_lease hash now job)) [
      | inl mine ↦ inl (simp (mine, take_lease), mine)
      | inr fresh ↦ elim (Bool-cases (claimable now job)) [
        | inr taken ↦ inr (inl (simp (fresh, taken, take_lease)))
        | inl free ↦ elim (Bool-cases (not_due now job)) [
          | inl early ↦ inr (inl (simp (fresh, free, early, take_lease)))
          | inr due ↦ elim (Bool-cases (attempts_exhausted job)) [
            | inl spent ↦ inr (inr (inl (spent, simp (fresh, free, due, spent, take_lease))))
            | inr more ↦
                inr (inr (inr (more, free, due, simp (fresh, free, due, more, take_lease))))
          ]
        ]
      ]
    ]

abbrev pub IsGranted : String → DateTime → Option ProcessingJob → Type 0
IsGranted hash now none = Unit
IsGranted hash now (some job) =
    (same_active_lease hash now job ≡ true) × (job.attempt_count ≤ job.max_attempts)

-- For a positive lifetime and a job within its attempts: the job that `take_lease` returns, if it
-- returns one, has a live lease of this message's hash, and is still within its attempts.
pub take_lease-IsGranted :
    (lifetime : ℕ) (text hash : String) (now : DateTime) (job : ProcessingJob) (db : Database)
    → 0 < lifetime
    → job.attempt_count ≤ job.max_attempts
    → IsGranted hash now (take_lease lifetime text hash now job db).0
unfolding attempts_exhausted
take_lease-IsGranted lifetime text hash now job db long bound =
    elim (take_lease_cases lifetime text hash now job db) [
      | inl (same, mine) ↦ rw same (mine, bound)
      | inr (inl nothing) ↦ rw nothing tt
      | inr (inr (inl (spent, ended))) ↦ rw ended tt
      | inr (inr (inr (more, free, due, started))) ↦ rw started (
        started-same_active_lease hash (now + seconds lifetime) now job (omega (arith, long)),
        started_attempts hash (now + seconds lifetime) now job more,
      )
    ]

-- Taking a lease keeps the books, on every branch.
take_lease-IsSound :
    (lifetime : ℕ) (text hash : String) (now : DateTime) (test : ProcessingJob → Bool)
    (job : ProcessingJob) (db : Database)
    → IsSound db
    → first test db.jobs ≡ some job
    → IsSound (take_lease lifetime text hash now job db).1
unfolding start_attempt exhaust
take_lease-IsSound lifetime text hash now test job db sound e =
    elim (take_lease_cases lifetime text hash now job db) [
      | inl (same, mine) ↦ rw same sound
      | inr (inl nothing) ↦ rw nothing sound
      | inr (inr (inl (spent, ended))) ↦
          rw ended
            (settled-IsSound db test job _ _ true now sound e (refl, refl, refl, refl) (λ k. refl))
      | inr (inr (inr (more, free, due, started))) ↦
          rw started (same-IsSound db test job _ sound e (refl, refl, refl, refl))
    ]

claim_at-IsSound :
    (p : Platform) (message : String) (now : DateTime) (test : ProcessingJob → Bool)
    (job : ProcessingJob) (db : Database) (latitude longitude : ℤ) (revision : String)
    → IsSound db
    → first test db.jobs ≡ some job
    → IsSound (claim_at p message now job db latitude longitude revision).1
unfolding claim_at
claim_at-IsSound p message now test job db latitude longitude revision sound e =
    elim (Option-cases (current_location p revision job db)) [
      | inl gone ↦ rw (gone, claim_at) (stale-IsSound db test job now sound e)
      | inr (row, found) ↦
          let text : String = "Location enrichment exhausted its retry attempts." in
          let hash = lease_hash p message in
          let kept = take_lease-IsSound geocode_lease_seconds text hash now test job db sound e in
          elim (Option-cases (take_lease geocode_lease_seconds text hash now job db).0) [
            | inl refused ↦ simp (found, refused, claim_at) kept
            | inr (job', leased) ↦ simp (found, leased, claim_at) kept
          ]
    ]

claim_found-IsSound :
    (p : Platform) (message : String) (now : DateTime) (test : ProcessingJob → Bool)
    (job : ProcessingJob) (db : Database) (payload : Payload)
    → IsSound db
    → first test db.jobs ≡ some job
    → IsSound (committed db (claim_found p message now job db payload))
unfolding claim_found finish_claim fail_invalid_geocode_job settle_job
claim_found-IsSound p message now test job db uncaught sound e = sound
claim_found-IsSound p message now test job db unreadable sound e =
    same-IsSound db test job _ sound e (refl, refl, refl, refl)
claim_found-IsSound p message now test job db (coordinates lat lon revision) sound e =
    elim (Option-cases (checked_payload p lat lon revision)) [
      | inl bad ↦
          rw (bad, claim_found) (same-IsSound db test job _ sound e (refl, refl, refl, refl))
      | inr (at, good) ↦
          rw (good, claim_found)
            (claim_at-IsSound p message now test job db at.0 at.1 revision sound e)
    ]

-- A claim keeps the books sound, whatever the job, its payload, its lease and its location are, and
-- also when it raises.
pub claim_geocode_job-IsSound :
    (p : Platform) (id : ℕ) (message : String) (now : DateTime) (db : Database)
    → IsSound db
    → IsSound (committed db (claim_geocode_job p id message now db))
unfolding claim_geocode_job job_by_public_id
claim_geocode_job-IsSound p id message now db sound = elim (Bool-cases (bad_message_id message)) [
  | inl bad ↦ simp (bad, claim_geocode_job) sound
  | inr good ↦ elim (Option-cases (job_by_public_id id db)) [
    | inl missing ↦ simp (good, missing, claim_geocode_job) sound
    | inr (job, found) ↦ elim (Bool-cases (is_geocode job.job_type)) [
      | inr other ↦ simp (good, found, other, claim_geocode_job) sound
      | inl geocode ↦
          simp (good, found, geocode, claim_geocode_job)
            (claim_found-IsSound p message now _ job db
              (read_payload job.request.latitude job.request.longitude
                job.request.coordinate_revision)
              sound found)
    ]
  ]
]
