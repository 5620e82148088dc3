-- ===== src/Reservations/Held.antt =====
-- What a job holds of a row, and what the row has reserved: settling moves both alike.
use nektron_moments.Base.{
  ◌∙◌, ℕ, ◌+◌, ◌-◌, ◌≤◌, String, ◌≡◌, ◌⊎◌, refl, ap, Bool, true, Option, none, some, arith,
  if◌then◌else◌, or_else, truthy, inl, inr, Bool-cases, Option-cases,
}
use nektron_moments.Clock.{DateTime, Month}
use nektron_moments.Records.{UnitType, UsageKey, Usage, Reservation, is_reserved, ProcessingJob}
use nektron_moments.Ledger.{Ledger, same_key, get, touch}
use nektron_moments.Ledger.Laws.{get-touch}
use nektron_moments.Reservations.{
  key_of, settle_units, drop_usage_reservation, settle_reserved, settle_provider_reservation,
}

abbrev pub reserved_of : Option Usage → ℕ
reserved_of none = 0
reserved_of (some u) = u.reserved_units

-- The units that a row has reserved; a row that is not there has none.
abbrev pub reserved_at : UsageKey → Ledger → ℕ
reserved_at k l = reserved_of (get k l)

abbrev counts_for : UsageKey → Option UsageKey → ℕ → ℕ
counts_for k none n = 0
counts_for k (some j) n = if same_key k j then n else 0

-- The units of the row `k` that a reservation of `user` holds.
abbrev pub held : UsageKey → ℕ → Option Reservation → ℕ
held k user none = 0
held k user (some r) =
    if is_reserved r.state then counts_for k (key_of user r) (or_else r.units 0) else 0

-- The units of the row `k` that a job holds.
abbrev pub job_held : UsageKey → ProcessingJob → ℕ
job_held k job =
    held k job.user_id job.request.usage_reservation
    + held k job.user_id job.request.cost_reservation

-- A reservation that is held is written whole: each part is there, and the provider has a name.
abbrev pub WholeParts : Option Month → Option String → Option UnitType → Option ℕ → Type 0
WholeParts (some m) (some p) (some t) (some n) = truthy p ≡ true
WholeParts _ _ _ _ = ⊥

abbrev pub IsWhole : Option Reservation → Type 0
IsWhole none = Unit
IsWhole (some r) =
    is_reserved r.state ≡ true → WholeParts r.usage_month r.provider r.unit_type r.units

pub reserved_at-settle :
    (j k : UsageKey) (consumed : Bool) (n : ℕ) (now : DateTime) (l : Ledger)
    → reserved_at j (touch k (settle_units consumed n now) l)
      ≡ reserved_at j l - (if same_key j k then n else 0)
unfolding settle_units
reserved_at-settle j k consumed n now l =
    ground (arith, get-touch j k (settle_units consumed n now) l)

pub whole_parts :
    (month : Option Month) (provider : Option String) (unit : Option UnitType) (units : Option ℕ)
    → WholeParts month provider unit units
    → (m : Month) × (p : String) × (t : UnitType) × (n : ℕ) × (month ≡ some m)
      × (provider ≡ some p)
      × (unit ≡ some t)
      × (units ≡ some n)
      × (truthy p ≡ true)
whole_parts (some m) (some p) (some t) (some n) h = (m, p, t, n, refl, refl, refl, refl, h)
whole_parts _ _ _ _ h = absurd h

-- What a held reservation with all its parts counts for.
pub held_lem :
    (k : UsageKey) (user : ℕ) (r : Reservation) (m : Month) (p : String) (t : UnitType) (n : ℕ)
    → is_reserved r.state ≡ true
    → r.usage_month ≡ some m
    → r.provider ≡ some p
    → r.unit_type ≡ some t
    → r.units ≡ some n
    → held k user (some r) ≡ (
        if same_key k (record { user_id = user; provider = p; usage_month = m; unit_type = t })
        then n
        else 0)
unfolding key_of
held_lem k user r m p t n reserved em ep et en = rw (em, ep, et, en, reserved, key_of)

-- What settling a whole reservation does to the row it is part of.
settle_reserved_balance :
    (k : UsageKey) (consumed : Bool) (now : DateTime) (l : Ledger) (job : ProcessingJob)
    (r : Reservation)
    → is_reserved r.state ≡ true
    → WholeParts r.usage_month r.provider r.unit_type r.units
    → reserved_at k (settle_reserved consumed now l job r).0
      ≡ reserved_at k l - held k job.user_id (some r)
unfolding settle_reserved key_of
settle_reserved_balance k consumed now l job r reserved whole =
    let (m, p, t, n, em, ep, et, en, named) =
      whole_parts r.usage_month r.provider r.unit_type r.units whole in
    let j : UsageKey = record {
      user_id = job.user_id;
      provider = p;
      usage_month = m;
      unit_type = t;
    } in
    rw (em, ep, et, en, reserved, key_of) (reserved_at-settle k j consumed n now l)

-- A step from one table and job to others moved what the row has reserved and what the job holds of
-- it by the same amount.
abbrev pub Balanced : UsageKey → Ledger → ProcessingJob → Ledger × ProcessingJob → Type 0
Balanced k l job (l', job') =
    (reserved_at k l' + job_held k job ≡ reserved_at k l + job_held k job')
    × (job'.user_id ≡ job.user_id)

settle_reserved_job :
    (consumed : Bool) (now : DateTime) (l : Ledger) (job : ProcessingJob) (r : Reservation)
    → (settle_reserved consumed now l job r).1 ≡ drop_usage_reservation job
unfolding settle_reserved
settle_reserved_job consumed now l job r = ground arith

settle_provider_cases :
    (consumed : Bool) (now : DateTime) (l : Ledger) (job : ProcessingJob)
    → (settle_provider_reservation consumed now l job ≡ (l, job))
      ⊎ ((r : Reservation) × (job.request.usage_reservation ≡ some r)
          × (is_reserved r.state ≡ true)
          × (settle_provider_reservation consumed now l job ≡ settle_reserved consumed now l job r))
unfolding settle_provider_reservation
settle_provider_cases consumed now l job = elim (Option-cases job.request.usage_reservation) [
  | inl empty ↦ inl (ground arith)
  | inr (r, e) ↦ elim (Bool-cases (is_reserved r.state)) [
    | inl reserved ↦ inr (r, e, reserved, ground arith)
    | inr idle ↦ inl (ground arith)
  ]
]

-- Settling leaves the job as it is, or drops the reservation of its request.
pub settle_provider_job :
    (consumed : Bool) (now : DateTime) (l : Ledger) (job : ProcessingJob)
    → ((settle_provider_reservation consumed now l job).1 ≡ job)
      ⊎ ((settle_provider_reservation consumed now l job).1
          ≡ record job { request = record job.request { usage_reservation = none } })
unfolding drop_usage_reservation
settle_provider_job consumed now l job = elim (settle_provider_cases consumed now l job) [
  | inl same ↦ inl (ap (λ (p : Ledger × ProcessingJob). p.1) same)
  | inr (r, _, _, e) ↦
      inr (ap (λ (p : Ledger × ProcessingJob). p.1) e ∙ settle_reserved_job consumed now l job r)
]

-- Settling a whole request that the row can cover moves the row's reserved units by what the job no
-- longer holds of it, consumed or not.
pub settle_provider-Balanced :
    (k : UsageKey) (consumed : Bool) (now : DateTime) (l : Ledger) (job : ProcessingJob)
    → IsWhole job.request.usage_reservation
    → job_held k job ≤ reserved_at k l
    → Balanced k l job (settle_provider_reservation consumed now l job)
unfolding drop_usage_reservation
settle_provider-Balanced k consumed now l job whole bound =
    elim (settle_provider_cases consumed now l job) [
      | inl same ↦ rw same (refl, refl)
      | inr (r, e, reserved, settled) ↦
          let dropped = settle_reserved_job consumed now l job r in
          let row =
            settle_reserved_balance k consumed now l job r reserved ((rw e at whole) reserved) in
          rw (settled, dropped) (omega (arith, ap (held k job.user_id) e, row, bound), refl)
    ]

-- Settling leaves the job's user and dollars alone, and takes away a request that was held.
pub settle_provider_drops :
    (consumed : Bool) (now : DateTime) (l : Ledger) (job : ProcessingJob)
    → let job' = (settle_provider_reservation consumed now l job).1 in
      (job'.user_id ≡ job.user_id)
      × (job'.request.cost_reservation ≡ job.request.cost_reservation)
      × ((k : UsageKey) → held k job'.user_id job'.request.usage_reservation ≡ 0)
unfolding drop_usage_reservation settle_provider_reservation
settle_provider_drops consumed now l job = elim (Option-cases job.request.usage_reservation) [
  | inl empty ↦ (ground arith, ground arith, λ k. ground arith)
  | inr (r, e) ↦ elim (Bool-cases (is_reserved r.state)) [
    | inr idle ↦ (ground arith, ground arith, λ k. ground arith)
    | inl reserved ↦
        let dropped = settle_reserved_job consumed now l job r in
        (ground (arith, dropped), ground (arith, dropped), λ k. ground (arith, dropped))
  ]
]

-- Settling keeps the job's identity, and what it still holds is whole.
pub settle_provider-IsWhole :
    (consumed : Bool) (now : DateTime) (l : Ledger) (job : ProcessingJob)
    → IsWhole job.request.usage_reservation
    → let job' = (settle_provider_reservation consumed now l job).1 in
      (job'.id ≡ job.id) × IsWhole job'.request.usage_reservation
unfolding drop_usage_reservation
settle_provider-IsWhole consumed now l job whole = elim (settle_provider_cases consumed now l job) [
  | inl same ↦ rw same (refl, whole)
  | inr (r, e, reserved, settled) ↦
      rw (settled, settle_reserved_job consumed now l job r) (refl, tt)
]
