-- ===== src/Reservations/Releases.antt =====
-- `_release_description_provider_request` moves the rows and what the job holds of them alike.
use nektron_moments.Base.{
  ℕ, ◌-◌, ◌≤◌, String, ◌≡◌, refl, sym, true, false, Option, none, some, arith, or_text, truthy, inl,
  inr, Bool-cases,
}
use nektron_moments.Clock.{DateTime}
use nektron_moments.Records.{UnitType, UsageKey, Reservation, is_reserved, ProcessingJob}
use nektron_moments.Settings.{description_provider}
use nektron_moments.Ledger.{Ledger}
use nektron_moments.Reservations.{key_of, release_one, release_field, release_description_request}
use nektron_moments.Reservations.Held.{
  reserved_at, held, job_held, WholeParts, IsWhole, reserved_at-settle, whole_parts, Balanced,
}

pub or_text-truthy : (p d : String) → truthy p ≡ true → or_text (some p) d ≡ p
or_text-truthy p d h = rw h

release_one_whole :
    (k : UsageKey) (now : DateTime) (user : ℕ) (unit : UnitType) (l : Ledger) (r : Reservation)
    → is_reserved r.state ≡ true
    → WholeParts r.usage_month r.provider r.unit_type r.units
    → (reserved_at k (release_one now user unit l r).0 ≡ reserved_at k l - held k user (some r))
      × (held k user (some (release_one now user unit l r).1) ≡ 0)
unfolding release_one key_of
release_one_whole k now user unit l r reserved whole =
    let (m, p, t, n, em, ep, et, en, named) =
      whole_parts r.usage_month r.provider r.unit_type r.units whole in
    let j : UsageKey = record { user_id = user; provider = p; usage_month = m; unit_type = t } in
    let moved = reserved_at-settle k j false n now l in
    ground (arith, moved, or_text-truthy p description_provider named)

release_field-Balanced :
    (k : UsageKey) (now : DateTime) (user : ℕ) (unit : UnitType) (l : Ledger)
    (o : Option Reservation)
    → IsWhole o
    → (reserved_at k (release_field now user unit l o).0 ≡ reserved_at k l - held k user o)
      × (held k user (release_field now user unit l o).1 ≡ 0)
unfolding release_field
release_field-Balanced k now user unit l none whole = (omega arith, refl)
release_field-Balanced k now user unit l (some r) whole = elim (Bool-cases (is_reserved r.state)) [
  | inl reserved ↦ release_one_whole k now user unit l r reserved (whole reserved)
  | inr idle ↦ ground arith
]

release_field_same :
    (now : DateTime) (user : ℕ) (unit : UnitType) (l : Ledger) (o : Option Reservation)
    → (release_field now user unit l o).2 ≡ false
    → (release_field now user unit l o).1 ≡ o
unfolding release_field release_one
release_field_same now user unit l none h = refl
release_field_same now user unit l (some r) h = ground arith

pub release_cases :
    (now : DateTime) (l : Ledger) (job : ProcessingJob)
    → let (l₁, usage, _) =
        release_field now job.user_id UnitType.request l job.request.usage_reservation in
      let (l₂, cost, _) =
        release_field now job.user_id UnitType.usd l₁ job.request.cost_reservation in
      let (l', job') = release_description_request now l job in
      (l' ≡ l₂)
      × (job'.user_id ≡ job.user_id)
      × (job'.request.usage_reservation ≡ usage)
      × (job'.request.cost_reservation ≡ cost)
      × (job'.id ≡ job.id)
unfolding release_description_request
release_cases now l job =
    let usage = release_field now job.user_id UnitType.request l job.request.usage_reservation in
    let cost = release_field now job.user_id UnitType.usd usage.0 job.request.cost_reservation in
    let same =
      release_field_same now job.user_id UnitType.request l job.request.usage_reservation in
    let same' =
      release_field_same now job.user_id UnitType.usd usage.0 job.request.cost_reservation in
    elim (Bool-cases usage.2) [
      | inl changed ↦ rw (changed, release_description_request) (refl, refl, refl, refl, refl)
      | inr kept ↦ elim (Bool-cases cost.2) [
        | inl changed ↦
            rw (kept, changed, release_description_request) (refl, refl, refl, refl, refl)
        | inr kept' ↦
            rw (kept, kept', release_description_request)
              (refl, refl, sym (same kept), sym (same' kept'), refl)
      ]
    ]

-- Releasing whole reservations that the row can cover moves the row's reserved units by what the job
-- no longer holds of it.
pub release_description-Balanced :
    (k : UsageKey) (now : DateTime) (l : Ledger) (job : ProcessingJob)
    → IsWhole job.request.usage_reservation
    → IsWhole job.request.cost_reservation
    → job_held k job ≤ reserved_at k l
    → Balanced k l job (release_description_request now l job)
release_description-Balanced k now l job whole whole' bound =
    let (el, eu, er, ec, ei) = release_cases now l job in
    let usage =
      release_field-Balanced k now job.user_id UnitType.request l job.request.usage_reservation
        whole in
    let l₁ = (release_field now job.user_id UnitType.request l job.request.usage_reservation).0 in
    let cost =
      release_field-Balanced k now job.user_id UnitType.usd l₁ job.request.cost_reservation
        whole' in
    rw (el, eu, er, ec) (omega (arith, usage, cost, bound), refl)

-- After a release the job holds nothing.
pub release_description_holds_nothing :
    (k : UsageKey) (now : DateTime) (l : Ledger) (job : ProcessingJob)
    → IsWhole job.request.usage_reservation
    → IsWhole job.request.cost_reservation
    → job_held k (release_description_request now l job).1 ≡ 0
release_description_holds_nothing k now l job whole whole' =
    let (el, eu, er, ec, ei) = release_cases now l job in
    let usage =
      release_field-Balanced k now job.user_id UnitType.request l job.request.usage_reservation
        whole in
    let l₁ = (release_field now job.user_id UnitType.request l job.request.usage_reservation).0 in
    let cost =
      release_field-Balanced k now job.user_id UnitType.usd l₁ job.request.cost_reservation
        whole' in
    rw (eu, er, ec) (omega (arith, usage, cost))
