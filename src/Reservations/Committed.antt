-- ===== src/Reservations/Committed.antt =====
-- What a row is committed to, processed and reserved together: settling and releasing never raise it.
use nektron_moments.Base.{
  ℕ, ◌+◌, ◌≤◌, Bool, false, Option, none, some, arith, or_else, Bool-cases, Option-cases, inl, inr,
}
use nektron_moments.Clock.{DateTime}
use nektron_moments.Records.{UnitType, UsageKey, Usage, Reservation, is_reserved, ProcessingJob}
use nektron_moments.Settings.{one_unit}
use nektron_moments.Ledger.{Ledger, get, touch}
use nektron_moments.Ledger.Laws.{get-touch}
use nektron_moments.Reservations.{
  key_of, settle_units, settle_reserved, settle_provider_reservation, release_one, release_field,
  release_description_request,
}

abbrev pub committed_of : Option Usage → ℕ
committed_of none = 0
committed_of (some u) = u.processed_units + u.reserved_units

abbrev pub committed_at : UsageKey → Ledger → ℕ
committed_at k l = committed_of (get k l)

committed_at-settle :
    (j k : UsageKey) (consumed : Bool) (n : ℕ) (now : DateTime) (l : Ledger)
    → committed_at j (touch k (settle_units consumed n now) l) ≤ committed_at j l
unfolding settle_units
committed_at-settle j k consumed n now l =
    ground (arith, get-touch j k (settle_units consumed n now) l)

committed_at-settle_reserved :
    (j : UsageKey) (consumed : Bool) (now : DateTime) (l : Ledger) (job : ProcessingJob)
    (r : Reservation)
    → committed_at j (settle_reserved consumed now l job r).0 ≤ committed_at j l
unfolding settle_reserved
committed_at-settle_reserved j consumed now l job r = elim (Option-cases (key_of job.user_id r)) [
  | inl unknown ↦ rw (unknown, settle_reserved) (omega arith)
  | inr (k, e) ↦
      rw (e, settle_reserved) (committed_at-settle j k consumed (or_else r.units one_unit) now l)
]

pub committed_at-settle_provider :
    (j : UsageKey) (consumed : Bool) (now : DateTime) (l : Ledger) (job : ProcessingJob)
    → committed_at j (settle_provider_reservation consumed now l job).0 ≤ committed_at j l
unfolding settle_provider_reservation
committed_at-settle_provider j consumed now l job =
    elim (Option-cases job.request.usage_reservation) [
      | inl empty ↦ rw (empty, settle_provider_reservation) (omega arith)
      | inr (r, e) ↦ elim (Bool-cases (is_reserved r.state)) [
        | inl reserved ↦
            rw (e, reserved, settle_provider_reservation)
              (committed_at-settle_reserved j consumed now l job r)
        | inr idle ↦ rw (e, idle, settle_provider_reservation) (omega arith)
      ]
    ]

committed_at-release_one :
    (j : UsageKey) (now : DateTime) (user : ℕ) (unit : UnitType) (l : Ledger) (r : Reservation)
    → committed_at j (release_one now user unit l r).0 ≤ committed_at j l
unfolding release_one
committed_at-release_one j now user unit l r = elim (Bool-cases (is_reserved r.state)) [
  | inr idle ↦ rw (idle, release_one) (omega arith)
  | inl reserved ↦ elim (Option-cases r.usage_month) [
    | inl no_month ↦ rw (reserved, no_month, release_one) (omega arith)
    | inr (month, em) ↦
        rw (reserved, em, release_one)
          (committed_at-settle j _ false (or_else r.units one_unit) now l)
  ]
]

committed_at-release_field :
    (j : UsageKey) (now : DateTime) (user : ℕ) (unit : UnitType) (l : Ledger)
    (o : Option Reservation)
    → committed_at j (release_field now user unit l o).0 ≤ committed_at j l
unfolding release_field
committed_at-release_field j now user unit l none = omega arith
committed_at-release_field j now user unit l (some r) = committed_at-release_one j now user unit l r

pub committed_at-release :
    (j : UsageKey) (now : DateTime) (l : Ledger) (job : ProcessingJob)
    → committed_at j (release_description_request now l job).0 ≤ committed_at j l
unfolding release_description_request
committed_at-release j now l job =
    let usage = release_field now job.user_id UnitType.request l job.request.usage_reservation in
    ground (
      arith,
      committed_at-release_field j now job.user_id UnitType.request l job.request.usage_reservation,
      committed_at-release_field j now job.user_id UnitType.usd usage.0
          job.request.cost_reservation,
    )
