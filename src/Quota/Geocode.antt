-- ===== src/Quota/Geocode.antt =====
-- The whole of the quota part of `reserve_provider_call`: the monthly limit binds, and the row and
-- the job's reservation stay in step in every month.
use nektron_moments.Base.{
  ℕ, ◌*◌, ◌≤◌, max, String, ◌≡◌, ◌⊎◌, refl, ◌∙◌, Bool, false, Option, none, some, arith,
  if◌then◌else◌, inl, inr, Bool-cases,
}
use nektron_moments.Clock.{DateTime, Month, month_of}
use nektron_moments.Records.{UnitType, UsageKey, Usage, ProcessingJob}
use nektron_moments.Settings.{one_unit}
use nektron_moments.Ledger.{Ledger, same_key}
use nektron_moments.Reservations.{settle_provider_reservation}
use nektron_moments.Reservations.Held.{
  reserved_at, held, job_held, held_lem, IsWhole, Balanced, settle_provider-Balanced,
  settle_provider_drops,
}
use nektron_moments.Reservations.Committed.{committed_at, committed_at-settle_provider}
use nektron_moments.Quota.{
  row_key, new_reservation, matches, reuse_request, block, unblock, reserve_request,
  reserve_geocode_usage,
}
use nektron_moments.Quota.Limits.{reserve_request_rows}

abbrev is_current : String → DateTime → ProcessingJob → Bool
is_current provider now job =
    matches provider (month_of now) UnitType.request one_unit job.request.usage_reservation

reuse_same :
    (now : DateTime) (o : Option Usage) (l : Ledger) (job : ProcessingJob)
    → ((reuse_request now o l job).1 ≡ l)
      × ((reuse_request now o l job).2.user_id ≡ job.user_id)
      × ((reuse_request now o l job).2.request.usage_reservation ≡ job.request.usage_reservation)
      × ((reuse_request now o l job).2.request.cost_reservation ≡ job.request.cost_reservation)
      × ((reuse_request now o l job).2.id ≡ job.id)
unfolding reuse_request block unblock
reuse_same now none l job = (refl, refl, refl, refl, refl)
reuse_same now (some u) l job = ground arith

pub reserve_geocode_cases :
    (provider : String) (n : ℕ) (now : DateTime) (l : Ledger) (job : ProcessingJob)
    → let result = reserve_geocode_usage provider n now l job in
      ((result.1 ≡ l)
        × (result.2.user_id ≡ job.user_id)
        × (result.2.request.usage_reservation ≡ job.request.usage_reservation)
        × (result.2.request.cost_reservation ≡ job.request.cost_reservation)
        × (result.2.id ≡ job.id))
      ⊎ (result
          ≡ reserve_request provider n now
              (settle_provider_reservation false now l job).0
              (settle_provider_reservation false now l job).1)
unfolding reserve_geocode_usage
reserve_geocode_cases provider n now l job = elim (Bool-cases (is_current provider now job)) [
  | inl current ↦ inl (rw (current, reserve_geocode_usage) (reuse_same now _ l job))
  | inr fresh ↦ inr (rw (fresh, reserve_geocode_usage))
]

-- Whatever a geocode job asks for and holds, no row ever has more committed, processed and reserved
-- together, than the larger of what it had before and, for this month's row of requests, the limit.
pub reserve_geocode_within_limits :
    (j : UsageKey) (provider : String) (n : ℕ) (now : DateTime) (l : Ledger) (job : ProcessingJob)
    → committed_at j (reserve_geocode_usage provider n now l job).1
      ≤ max (committed_at j l) (
          if same_key j (row_key job.user_id provider (month_of now) UnitType.request)
          then n * one_unit
          else 0)
reserve_geocode_within_limits j provider n now l job =
    let settled = settle_provider_reservation false now l job in
    let drops = settle_provider_drops false now l job in
    elim (reserve_geocode_cases provider n now l job) [
      | inl same ↦ rw same.0 (omega arith)
      | inr e ↦
          let rows = rw drops.0 at (reserve_request_rows j provider n now settled.0 settled.1) in
          rw e (omega (arith, rows, committed_at-settle_provider j false now l job))
    ]

held_new :
    (k : UsageKey) (user : ℕ) (p : String) (m : Month) (n : ℕ)
    → held k user (some (new_reservation p m UnitType.request n))
      ≡ (if same_key k (row_key user p m UnitType.request) then n else 0)
unfolding new_reservation row_key
held_new k user p m n =
    held_lem k user (new_reservation p m UnitType.request n) m p UnitType.request n refl refl refl
      refl refl

reserve_request_job :
    (k : UsageKey) (provider : String) (n : ℕ) (now : DateTime) (l : Ledger) (job : ProcessingJob)
    → let (granted, l', job') = reserve_request provider n now l job in
      (job'.user_id ≡ job.user_id)
      × (job'.request.cost_reservation ≡ job.request.cost_reservation)
      × (held k job'.user_id job'.request.usage_reservation ≡ (
          if granted
          then (if same_key k (row_key job.user_id provider (month_of now) UnitType.request)
              then one_unit
              else 0)
          else held k job.user_id job.request.usage_reservation))
unfolding reserve_request
reserve_request_job k provider n now l job =
    ground (arith, held_new k job.user_id provider (month_of now) one_unit)

-- A job whose held request is whole keeps in step with the rows through `reserve_provider_call`,
-- granted or refused and in whatever month the request that it holds was reserved.
pub reserve_geocode-Balanced :
    (k : UsageKey) (provider : String) (n : ℕ) (now : DateTime) (l : Ledger) (job : ProcessingJob)
    → IsWhole job.request.usage_reservation
    → job_held k job ≤ reserved_at k l
    → let (granted, l', job') = reserve_geocode_usage provider n now l job in
      Balanced k l job (l', job')
reserve_geocode-Balanced k provider n now l job whole bound =
    let settled = settle_provider_reservation false now l job in
    let drops = settle_provider_drops false now l job in
    let first = settle_provider-Balanced k false now l job whole bound in
    let nothing = drops.2 k in
    elim (reserve_geocode_cases provider n now l job) [
      | inl same ↦ rw (same.0, same.1, same.2, same.3) (refl, refl)
      | inr e ↦
          let row = reserve_request_rows k provider n now settled.0 settled.1 in
          let holder = reserve_request_job k provider n now settled.0 settled.1 in
          rw (e, holder.1)
            (
              ground (arith, row.0, holder.0, holder.1, holder.2, nothing, first),
              holder.0 ∙ drops.0,
            )
    ]
