-- ===== src/Reservations/Released.antt =====
-- What `_release_description_provider_request` leaves of the reservations themselves.
use nektron_moments.Base.{
  ℕ, ◌≡◌, ◌⊎◌, false, Option, none, some, arith, inl, inr, Bool-cases, Option-cases,
}
use nektron_moments.Clock.{DateTime}
use nektron_moments.Records.{UnitType, Reservation, is_reserved, ProcessingJob}
use nektron_moments.Ledger.{Ledger}
use nektron_moments.Reservations.{release_one, release_field, release_description_request}
use nektron_moments.Reservations.Held.{IsWhole}
use nektron_moments.Reservations.Releases.{release_cases}
use nektron_moments.Charges.Settlement.{IsUsd}
use nektron_moments.Soundness.{IsWholeJob}

-- A reservation stays as it was, or is held no longer.
release_one_ends :
    (now : DateTime) (user : ℕ) (unit : UnitType) (l : Ledger) (r : Reservation)
    → let r' = (release_one now user unit l r).1 in (r' ≡ r) ⊎ (is_reserved r'.state ≡ false)
unfolding release_one
release_one_ends now user unit l r = elim (Bool-cases (is_reserved r.state)) [
  | inr idle ↦ inl (rw (idle, release_one))
  | inl reserved ↦ elim (Option-cases r.usage_month) [
    | inl no_month ↦ inl (simp (reserved, no_month, release_one))
    | inr (month, e) ↦ inr (simp (reserved, e, release_one))
  ]
]

-- A property that every reservation has which is not held outlasts a release.
pub release_field_keeps :
    (Q : Option Reservation → Type 0) (now : DateTime) (user : ℕ) (unit : UnitType) (l : Ledger)
    (o : Option Reservation)
    → ((r : Reservation) → is_reserved r.state ≡ false → Q (some r))
    → Q o
    → Q (release_field now user unit l o).1
unfolding release_field
release_field_keeps Q now user unit l none idle h = h
release_field_keeps Q now user unit l (some r) idle h = elim (release_one_ends now user unit l r) [
  | inl same ↦ rw same h
  | inr ended ↦ idle (release_one now user unit l r).1 ended
]

idle-IsWhole : (r : Reservation) → is_reserved r.state ≡ false → IsWhole (some r)
idle-IsWhole r idle held = absurd (ground (arith, idle, held))

idle-IsUsd : (r : Reservation) → is_reserved r.state ≡ false → IsUsd (some r)
idle-IsUsd r idle held = absurd (ground (arith, idle, held))

-- After a release the job is the same one, and what it holds is whole if it was.
pub release-IsWholeJob :
    (now : DateTime) (l : Ledger) (job : ProcessingJob)
    → IsWholeJob job
    → let job' = (release_description_request now l job).1 in (job'.id ≡ job.id) × IsWholeJob job'
release-IsWholeJob now l job whole =
    let (el, eu, er, ec, ei) = release_cases now l job in
    let l₁ = (release_field now job.user_id UnitType.request l job.request.usage_reservation).0 in
    (
      ei,
      record {
        usage_whole = rw er (
            release_field_keeps IsWhole now job.user_id UnitType.request l _ idle-IsWhole
              whole.usage_whole);
        cost_whole = rw ec (
            release_field_keeps IsWhole now job.user_id UnitType.usd l₁ _ idle-IsWhole
              whole.cost_whole);
        cost_usd =
            rw ec (
              release_field_keeps IsUsd now job.user_id UnitType.usd l₁ _ idle-IsUsd
                whole.cost_usd);
      },
    )
