-- ===== src/Charges/Settlement.antt =====
-- What settling a job's dollars leaves in the table and in the job's request.
use nektron_moments.Base.{
  ℕ, ◌-◌, ◌≤◌, String, ◌≡◌, ◌⊎◌, refl, ap, Bool, true, false, Option, none, some, arith,
  if◌then◌else◌, inl, inr, Bool-cases, Option-cases,
}
use nektron_moments.Clock.{DateTime, Month}
use nektron_moments.Records.{
  UnitType, UsageKey, Reservation, is_reserved, Consumption, Rates, ProcessingJob,
}
use nektron_moments.Settings.{Settings, description_provider}
use nektron_moments.Ledger.{Ledger, same_key, touch}
use nektron_moments.Ledger.Laws.{get-touch}
use nektron_moments.Cost.{Calculation, raises, unavailable, charge}
use nektron_moments.Reservations.Held.{
  reserved_at, held, job_held, WholeParts, IsWhole, Balanced, whole_parts, held_lem,
}
use nektron_moments.Reservations.Releases.{or_text-truthy}
use nektron_moments.Charges.{
  charge_basis, reverse_units, reverse_consumed, reverse_consumption, charge_units, settle_cost,
  rates_of, settle_description_cost,
}

-- The charge never passes what was reserved for the call, whatever the provider reported.
pub charge_basis-le :
    (called : Bool) (reserved : ℕ) (calc : Calculation)
    → (charge_basis called reserved calc).0 ≤ reserved
unfolding charge_basis
charge_basis-le false reserved calc = omega arith
charge_basis-le true reserved (charge c u) = ground arith
charge_basis-le true reserved unavailable = omega arith
charge_basis-le true reserved raises = omega arith

reserved_at-charge :
    (j k : UsageKey) (reserved charged : ℕ) (now : DateTime) (l : Ledger)
    → reserved_at j (touch k (charge_units reserved charged now) l)
      ≡ reserved_at j l - (if same_key j k then reserved else 0)
unfolding charge_units
reserved_at-charge j k reserved charged now l =
    ground (arith, get-touch j k (charge_units reserved charged now) l)

reserved_at-reverse :
    (j k : UsageKey) (units : ℕ) (now : DateTime) (l : Ledger)
    → reserved_at j (touch k (reverse_units units now) l) ≡ reserved_at j l
unfolding reverse_units
reserved_at-reverse j k units now l = ground (arith, get-touch j k (reverse_units units now) l)

reserved_at-reverse_consumed :
    (j : UsageKey) (now : DateTime) (user : ℕ) (provider : String) (month : Month) (l : Ledger)
    (c : Consumption)
    → reserved_at j (reverse_consumed now user provider month l c).0 ≡ reserved_at j l
unfolding reverse_consumed
reserved_at-reverse_consumed j now user provider month l c = reserved_at-reverse j _ _ now l

reserved_at-reverse_consumption :
    (j : UsageKey) (called : Bool) (now : DateTime) (user : ℕ) (provider : String) (month : Month)
    (l : Ledger) (c : Option Consumption)
    → reserved_at j (reverse_consumption called now user provider month l c).0 ≡ reserved_at j l
unfolding reverse_consumption
reserved_at-reverse_consumption j true now user provider month l c = refl
reserved_at-reverse_consumption j false now user provider month l none = refl
reserved_at-reverse_consumption j false now user provider month l (some c) =
    ground (arith, reserved_at-reverse_consumed j now user provider month l c)

-- A job whose dollars are settled has its reservation, month and rates; any other is left alone.
pub settle_cost_cases :
    (cfg : Settings) (called : Bool) (calc : Calculation) (now : DateTime) (l : Ledger)
    (job : ProcessingJob)
    → (settle_description_cost cfg called calc now l job ≡ (l, job))
      ⊎ ((r : Reservation) × (month : Month) × (rates : Rates) × (job.request.cost_reservation
            ≡ some r)
          × (is_reserved r.state ≡ true)
          × (r.usage_month ≡ some month)
          × (rates_of cfg job.request ≡ some rates)
          × (settle_description_cost cfg called calc now l job
              ≡ settle_cost called calc now l job r month rates))
unfolding settle_description_cost
settle_cost_cases cfg called calc now l job = elim (Option-cases job.request.cost_reservation) [
  | inl empty ↦ inl (ground arith)
  | inr (r, e) ↦ elim (Bool-cases (is_reserved r.state)) [
    | inr idle ↦ inl (ground arith)
    | inl reserved ↦ elim (Option-cases r.usage_month) [
      | inl no_month ↦ inl (ground arith)
      | inr (month, em) ↦ elim (Option-cases (rates_of cfg job.request)) [
        | inl no_rates ↦ inl (ground arith)
        | inr (rates, er) ↦ inr (r, month, rates, e, reserved, em, er, ground arith)
      ]
    ]
  ]
]

settle_cost_row :
    (j : UsageKey) (called : Bool) (calc : Calculation) (now : DateTime) (l : Ledger)
    (job : ProcessingJob) (r : Reservation) (month : Month) (rates : Rates)
    → is_reserved r.state ≡ true
    → WholeParts r.usage_month r.provider r.unit_type r.units
    → r.usage_month ≡ some month
    → r.unit_type ≡ some UnitType.usd
    → reserved_at j (settle_cost called calc now l job r month rates).0
      ≡ reserved_at j l - held j job.user_id (some r)
unfolding settle_cost
settle_cost_row j called calc now l job r month rates reserved whole em eu =
    let (m, p, t, n, _, ep, _, en, named) =
      whole_parts r.usage_month r.provider r.unit_type r.units whole in
    let counted = held_lem j job.user_id r month p UnitType.usd n reserved em ep eu en in
    let k : UsageKey = record {
      user_id = job.user_id;
      provider = p;
      usage_month = month;
      unit_type = UnitType.usd;
    } in
    let back = reverse_consumption called now job.user_id p month l job.request.consumption in
    let kept =
      reserved_at-reverse_consumption j called now job.user_id p month l job.request.consumption in
    let moved = reserved_at-charge j k n (charge_basis called n calc).0 now back.0 in
    rw (counted, ep, en, or_text-truthy p description_provider named) (omega (arith, moved, kept))

-- A settled reservation holds nothing any more.
settle_cost-held :
    (j : UsageKey) (called : Bool) (calc : Calculation) (now : DateTime) (l : Ledger)
    (job : ProcessingJob) (r : Reservation) (month : Month) (rates : Rates)
    → job_held j (settle_cost called calc now l job r month rates).1
      ≡ held j job.user_id job.request.usage_reservation
unfolding settle_cost
settle_cost-held j true calc now l job r month rates = omega arith
settle_cost-held j false calc now l job r month rates = omega arith

-- A held reservation of dollars stands on a row of dollars.
abbrev pub IsUsd : Option Reservation → Type 0
IsUsd none = Unit
IsUsd (some r) = is_reserved r.state ≡ true → r.unit_type ≡ some UnitType.usd

settle_cost_user :
    (called : Bool) (calc : Calculation) (now : DateTime) (l : Ledger) (job : ProcessingJob)
    (r : Reservation) (month : Month) (rates : Rates)
    → (settle_cost called calc now l job r month rates).1.user_id ≡ job.user_id
unfolding settle_cost
settle_cost_user called calc now l job r month rates = refl

-- Settling whole dollars that stand on a row of dollars, which the row can cover, moves the row's
-- reserved units by what the job no longer holds of it, whatever the charge is.
pub settle_cost-Balanced :
    (k : UsageKey) (cfg : Settings) (called : Bool) (calc : Calculation) (now : DateTime)
    (l : Ledger) (job : ProcessingJob)
    → IsWhole job.request.cost_reservation
    → IsUsd job.request.cost_reservation
    → job_held k job ≤ reserved_at k l
    → Balanced k l job (settle_description_cost cfg called calc now l job)
settle_cost-Balanced k cfg called calc now l job whole is_usd bound =
    elim (settle_cost_cases cfg called calc now l job) [
      | inl same ↦ rw same (refl, refl)
      | inr (r, month, rates, e, reserved, em, er, settled) ↦
          let row =
            settle_cost_row k called calc now l job r month rates reserved
              ((rw e at whole) reserved) em ((rw e at is_usd) reserved) in
          let rest = settle_cost-held k called calc now l job r month rates in
          rw settled (
            omega (arith, row, rest, ap (held k job.user_id) e, bound),
            settle_cost_user called calc now l job r month rates,
          )
    ]
