-- ===== src/Quota/Limits.antt =====
-- What a reservation leaves in the usage table: a grant stays within both limits, a refusal reserves
-- nothing, and an open circuit refuses.
use nektron_moments.Base.{
  ℕ, ◌+◌, ◌*◌, ◌≤◌, max, String, ◌≡◌, refl, ap, false, ◌&&◌, some, arith, if◌then◌else◌, inl, inr,
  Bool-cases,
}
use nektron_moments.Clock.{DateTime, Month, month_of}
use nektron_moments.Records.{UnitType, UsageKey, Usage, ProcessingJob}
use nektron_moments.Settings.{one_unit}
use nektron_moments.Ledger.{Ledger, same_key, get, put, get_or_create}
use nektron_moments.Ledger.Laws.{
  get-put, get-get_or_create, same_key→eq, same_key_sym, new_or_found, new_usage_empty,
}
use nektron_moments.Reservations.Held.{reserved_of, reserved_at}
use nektron_moments.Reservations.Committed.{committed_of, committed_at}
use nektron_moments.Quota.{
  Terms, row_key, limited, add_reserved, exhausted, reserve_request, reserve_rows, reserve_pair,
}

-- The row that is there, or the new one, as the table had it.
get_or_create_row :
    (k : UsageKey) (limit : ℕ) (now : DateTime) (l : Ledger)
    → let u = (get_or_create k limit now l).0 in
      (u.reserved_units ≡ reserved_at k l)
      × (u.processed_units + u.reserved_units ≡ committed_at k l)
get_or_create_row k limit now l = elim (new_or_found k limit now l) [
  | inl (missing, e) ↦
      rw (missing, e) ((new_usage_empty limit now).0, omega (arith, new_usage_empty limit now))
  | inr (u, found, e) ↦ rw (found, e) (refl, refl)
]

-- A fresh geocode reservation adds one request to its row if it is granted and nothing if it is
-- refused, and never takes a row past the larger of its limit and what it had committed.
pub reserve_request_rows :
    (j : UsageKey) (provider : String) (n : ℕ) (now : DateTime) (l : Ledger) (job : ProcessingJob)
    → let k = row_key job.user_id provider (month_of now) UnitType.request in
      let (granted, l', job') = reserve_request provider n now l job in
      (reserved_at j l' ≡ reserved_at j l + (if granted && same_key j k then one_unit else 0))
      × (committed_at j l' ≤ max (committed_at j l) (if same_key j k then n * one_unit else 0))
unfolding reserve_request limited add_reserved exhausted
reserve_request_rows j provider n now l job =
    let k = row_key job.user_id provider (month_of now) UnitType.request in
    let limit = n * one_unit in
    let row = get_or_create_row k limit now l in
    let made = get_or_create k limit now l in
    ground (
      arith,
      row,
      get-get_or_create j k limit now l,
      same_key→eq j k,
      get-put j k (limited limit now made.0) made.1,
      get-put j k (add_reserved one_unit (limited limit now made.0)) made.1,
    )

pub row_keys_differ :
    (user : ℕ) (provider : String) (m : Month)
    → same_key (row_key user provider m UnitType.request) (row_key user provider m UnitType.usd)
      ≡ false
unfolding row_key
row_keys_differ user provider m =
    elim (Bool-cases (
      same_key (row_key user provider m UnitType.request) (row_key user provider m UnitType.usd))) [
        | inl same ↦ cc (ap (λ (k : UsageKey). k.unit_type) (same_key→eq _ _ same))
        | inr differ ↦ differ
      ]

-- Both rows, from what they are with their limits set.
reserve_rows_effect :
    (j rk ck : UsageKey) (t : Terms) (now : DateTime) (request cost : Usage) (l : Ledger)
    (job : ProcessingJob)
    → let (granted, l', job') = reserve_rows t now rk ck request cost l job in
      let before =
        if same_key j ck then some cost else if same_key j rk then some request else get j l in
      (reserved_at j l'
        ≡ reserved_of before
          + (if granted
              then (if same_key j ck then t.reserved_usd else if same_key j rk then one_unit else 0)
              else 0))
      × (committed_at j l'
          ≤ max (committed_of before) (
              if same_key j ck
              then t.usd_limit
              else if same_key j rk
              then t.request_limit * one_unit
              else 0))
unfolding reserve_rows add_reserved exhausted
reserve_rows_effect j rk ck t now request cost l job = ground (
  arith,
  get-put j ck cost (put rk request l),
  get-put j rk request l,
  get-put j ck (add_reserved t.reserved_usd cost) (put rk (add_reserved one_unit request) l),
  get-put j rk (add_reserved one_unit request) l,
)

-- A fresh pair of reservations adds one request and the dollars to their rows if it is granted and
-- nothing if it is refused, and never takes a row past the larger of its limit and what it had.
pub reserve_pair_rows :
    (j : UsageKey) (t : Terms) (user : ℕ) (now : DateTime) (l : Ledger) (job : ProcessingJob)
    → let rk = row_key user t.provider (month_of now) UnitType.request in
      let ck = row_key user t.provider (month_of now) UnitType.usd in
      let (granted, l', job') = reserve_pair t user now l job in
      (reserved_at j l'
        ≡ reserved_at j l
          + (if granted
              then (if same_key j ck then t.reserved_usd else if same_key j rk then one_unit else 0)
              else 0))
      × (committed_at j l'
          ≤ max (committed_at j l) (
              if same_key j ck
              then t.usd_limit
              else if same_key j rk
              then t.request_limit * one_unit
              else 0))
unfolding reserve_pair limited
reserve_pair_rows j t user now l job =
    let rk = row_key user t.provider (month_of now) UnitType.request in
    let ck = row_key user t.provider (month_of now) UnitType.usd in
    let limit = t.request_limit * one_unit in
    let request = get_or_create rk limit now l in
    let cost = get_or_create ck t.usd_limit now request.1 in
    ground (
      arith,
      row_keys_differ user t.provider (month_of now),
      same_key_sym rk ck,
      same_key→eq j ck,
      same_key→eq j rk,
      get_or_create_row rk limit now l,
      get_or_create_row ck t.usd_limit now request.1,
      get-get_or_create j rk limit now l,
      get-get_or_create ck rk limit now l,
      get-get_or_create j ck t.usd_limit now request.1,
      reserve_rows_effect j rk ck t now (limited limit now request.0)
          (limited t.usd_limit now cost.0) cost.1 job,
    )
