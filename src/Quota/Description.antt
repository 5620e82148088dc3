-- ===== src/Quota/Description.antt =====
-- The whole of `_reserve_description_usage`: the monthly limits bind, and the rows and the job's
-- reservations stay in step, except where a reservation of another month is replaced.
use nektron_moments.Base.{
  ℕ, ◌+◌, ◌*◌, ◌≤◌, max, String, ◌≡◌, ◌≢◌, ◌⊎◌, refl, sym, subst, ap, ◌∙◌, Bool, true, false, ◌||◌,
  some, arith, if◌then◌else◌, inl, inr, Bool-cases, Option-cases,
}
use nektron_moments.Clock.{DateTime, Month, month_of}
use nektron_moments.Records.{UnitType, UsageKey, Usage, ProcessingJob}
use nektron_moments.Settings.{one_unit}
use nektron_moments.Ledger.{Ledger, same_key, get}
use nektron_moments.Ledger.Laws.{same_key→eq}
use nektron_moments.Reservations.{release_description_request}
use nektron_moments.Reservations.Held.{reserved_at, held, job_held, held_lem, IsWhole, Balanced}
use nektron_moments.Reservations.Releases.{
  release_description-Balanced, release_description_holds_nothing,
}
use nektron_moments.Reservations.Committed.{committed_at, committed_at-release}
use nektron_moments.Quota.{
  Terms, row_key, new_reservation, matches, reuse_request, block, unblock, held_pair, reserve_rows,
  reserve_pair, reserve_description_usage,
}
use nektron_moments.Quota.Limits.{reserve_pair_rows, row_keys_differ}

-- Whether the job's reservation of requests, or of dollars, is the one that the call asks for.
abbrev pub request_matches : Terms → DateTime → ProcessingJob → Bool
request_matches t now job =
    matches t.provider (month_of now) UnitType.request one_unit job.request.usage_reservation

abbrev pub cost_matches : Terms → DateTime → ProcessingJob → Bool
cost_matches t now job =
    matches t.provider (month_of now) UnitType.usd t.reserved_usd job.request.cost_reservation

abbrev SameReservations : ProcessingJob → ProcessingJob → Type 0
SameReservations job job' =
    (job'.user_id ≡ job.user_id)
    × (job'.request.usage_reservation ≡ job.request.usage_reservation)
    × (job'.request.cost_reservation ≡ job.request.cost_reservation)

reuse_same :
    (now : DateTime) (u : Usage) (l : Ledger) (job : ProcessingJob)
    → ((reuse_request now (some u) l job).1 ≡ l)
      × SameReservations job (reuse_request now (some u) l job).2
unfolding reuse_request block unblock
reuse_same now u l job = ground arith

reserve_description_cases :
    (t : Terms) (user : ℕ) (now : DateTime) (l : Ledger) (job : ProcessingJob)
    → let result = reserve_description_usage t user now l job in
      (((request_matches t now job || cost_matches t now job) ≡ true)
        × (result.1 ≡ l)
        × SameReservations job result.2)
      ⊎ (((request_matches t now job || cost_matches t now job) ≡ true)
          × (result
              ≡ reserve_pair t user now
                  (release_description_request now l job).0
                  (release_description_request now l job).1))
      ⊎ (((request_matches t now job || cost_matches t now job) ≡ false)
          × (result ≡ reserve_pair t user now l job))
unfolding reserve_description_usage
reserve_description_cases t user now l job = elim (Bool-cases (request_matches t now job)) [
  | inl r ↦ elim (Bool-cases (cost_matches t now job)) [
    | inl c ↦
        elim (Option-cases (
          held_pair (get (row_key user t.provider (month_of now) UnitType.request) l)
            (get (row_key user t.provider (month_of now) UnitType.usd) l))) [
              | inl missing ↦ inr (inl (rw r, rw (r, c, missing, reserve_description_usage)))
              | inr (u, found) ↦ inl (
                rw r,
                rw (r, c, found, reserve_description_usage) (reuse_same now u l job).0,
                rw (r, c, found, reserve_description_usage) (reuse_same now u l job).1,
              )
            ]
    | inr c ↦ inr (inl (simp r, simp (r, c, reserve_description_usage)))
  ]
  | inr r ↦ elim (Bool-cases (cost_matches t now job)) [
    | inl c ↦ inr (inl (simp (r, c), simp (r, c, reserve_description_usage)))
    | inr c ↦ inr (inr (simp (r, c), simp (r, c, reserve_description_usage)))
  ]
]

-- Whatever a description asks for and holds, no row ever has more committed, processed and reserved
-- together, than the larger of what it had before and the monthly limit of the call for that row.
pub reserve_description_within_limits :
    (j : UsageKey) (t : Terms) (user : ℕ) (now : DateTime) (l : Ledger) (job : ProcessingJob)
    → committed_at j (reserve_description_usage t user now l job).1
      ≤ max (committed_at j l) (
          if same_key j (row_key user t.provider (month_of now) UnitType.usd)
          then t.usd_limit
          else if same_key j (row_key user t.provider (month_of now) UnitType.request)
          then t.request_limit * one_unit
          else 0)
reserve_description_within_limits j t user now l job =
    let released = release_description_request now l job in
    elim (reserve_description_cases t user now l job) [
      | inl (matched, same, kept) ↦ rw same (omega arith)
      | inr (inl (matched, e)) ↦ rw e (
          omega (
            arith,
            reserve_pair_rows j t user now released.0 released.1,
            committed_at-release j now l job,
          ))
      | inr (inr (unmatched, e)) ↦ rw e (omega (arith, reserve_pair_rows j t user now l job))
    ]

held_new :
    (k : UsageKey) (user : ℕ) (p : String) (m : Month) (t : UnitType) (n : ℕ)
    → held k user (some (new_reservation p m t n))
      ≡ (if same_key k (row_key user p m t) then n else 0)
unfolding new_reservation row_key
held_new k user p m t n = held_lem k user (new_reservation p m t n) m p t n refl refl refl refl refl

-- What the job of a fresh pair of reservations holds afterwards.
reserve_pair_job :
    (k : UsageKey) (t : Terms) (now : DateTime) (l : Ledger) (job : ProcessingJob)
    → let rk = row_key job.user_id t.provider (month_of now) UnitType.request in
      let ck = row_key job.user_id t.provider (month_of now) UnitType.usd in
      let (granted, l', job') = reserve_pair t job.user_id now l job in
      (job'.user_id ≡ job.user_id)
      × (job_held k job' ≡ (
          if granted
          then (if same_key k rk then one_unit else 0)
            + (if same_key k ck then t.reserved_usd else 0)
          else job_held k job))
unfolding reserve_pair reserve_rows
reserve_pair_job k t now l job =
    let m = month_of now in
    ground (
      arith,
      held_new k job.user_id t.provider m UnitType.request one_unit,
      held_new k job.user_id t.provider m UnitType.usd t.reserved_usd,
    )

-- A row is not at once the row of requests and the row of dollars.
keys_exclusive :
    (k : UsageKey) (user : ℕ) (p : String) (m : Month)
    → same_key k (row_key user p m UnitType.request) ≡ true
    → same_key k (row_key user p m UnitType.usd) ≡ false
keys_exclusive k user p m h =
    rw (same_key→eq k (row_key user p m UnitType.request) h) (row_keys_differ user p m)

reserve_pair-Balanced :
    (k : UsageKey) (t : Terms) (now : DateTime) (l : Ledger) (job : ProcessingJob)
    → job_held k job ≡ 0
    → let (granted, l', job') = reserve_pair t job.user_id now l job in Balanced k l job (l', job')
reserve_pair-Balanced k t now l job empty =
    let row = reserve_pair_rows k t job.user_id now l job in
    let holder = reserve_pair_job k t now l job in
    (
      ground
          (arith, row.0, holder.1, empty, keys_exclusive k job.user_id t.provider (month_of now)),
      holder.0,
    )

reserve_pair-Balanced_for :
    (k : UsageKey) (t : Terms) (user : ℕ) (now : DateTime) (l : Ledger) (job : ProcessingJob)
    → job.user_id ≡ user
    → job_held k job ≡ 0
    → let (granted, l', job') = reserve_pair t user now l job in Balanced k l job (l', job')
reserve_pair-Balanced_for k t user now l job e empty =
    subst (λ u. let (granted, l', job') = reserve_pair t u now l job in Balanced k l job (l', job'))
      e (reserve_pair-Balanced k t now l job empty)

-- A job whose held reservations are whole, and that holds at most the units reserved in a row, keeps
-- in step with that row through `_reserve_description_usage`, granted or refused, if it holds nothing
-- of the row yet or if one of its reservations is for this provider, month and amount: the units
-- reserved in the row and the units that the job holds of it change by the same amount.
pub reserve_description-Balanced :
    (k : UsageKey) (t : Terms) (now : DateTime) (l : Ledger) (job : ProcessingJob)
    → IsWhole job.request.usage_reservation
    → IsWhole job.request.cost_reservation
    → job_held k job ≤ reserved_at k l
    → ((request_matches t now job || cost_matches t now job) ≡ true) ⊎ (job_held k job ≡ 0)
    → let (granted, l', job') = reserve_description_usage t job.user_id now l job in
      Balanced k l job (l', job')
reserve_description-Balanced k t now l job whole whole' bound current =
    let released = release_description_request now l job in
    elim (reserve_description_cases t job.user_id now l job) [
      | inl (matched, same, kept) ↦ rw (same, kept.0, kept.1, kept.2) (refl, refl)
      | inr (inl (matched, e)) ↦
          let first = release_description-Balanced k now l job whole whole' bound in
          let nothing = release_description_holds_nothing k now l job whole whole' in
          let second =
            reserve_pair-Balanced_for k t job.user_id now released.0 released.1 first.1 nothing in
          rw e (omega (arith, first.0, second.0), second.1 ∙ first.1)
      | inr (inr (unmatched, e)) ↦ rw e (
          reserve_pair-Balanced k t now l job
            (elim current [ inl m ↦ absurd (cc (sym m ∙ unmatched)) | inr none_held ↦ none_held ]))
    ]

other_month :
    (k : UsageKey) (user : ℕ) (p : String) (m : Month) (t : UnitType)
    → k.usage_month ≢ m
    → same_key k (row_key user p m t) ≡ false
unfolding row_key
other_month k user p m t other = elim (Bool-cases (same_key k (row_key user p m t))) [
  | inl same ↦ absurd (other (ap (λ (j : UsageKey). j.usage_month) (same_key→eq _ _ same)))
  | inr differ ↦ differ
]

-- When neither of the job's reservations is for this provider, month and amount and the call is
-- granted, the job afterwards holds nothing of any row of another month, and each such row still has
-- reserved what it had.
pub reserve_description_strands_reservation :
    (k : UsageKey) (t : Terms) (now : DateTime) (l : Ledger) (job : ProcessingJob)
    → k.usage_month ≢ month_of now
    → (request_matches t now job || cost_matches t now job) ≡ false
    → (reserve_description_usage t job.user_id now l job).0 ≡ true
    → let (granted, l', job') = reserve_description_usage t job.user_id now l job in
      (reserved_at k l' ≡ reserved_at k l) × (job_held k job' ≡ 0)
reserve_description_strands_reservation k t now l job other unmatched granted =
    let month = month_of now in
    let not_request = other_month k job.user_id t.provider month UnitType.request other in
    let not_dollars = other_month k job.user_id t.provider month UnitType.usd other in
    elim (reserve_description_cases t job.user_id now l job) [
      | inl (matched, same, kept) ↦ cc (sym matched ∙ unmatched)
      | inr (inl (matched, e)) ↦ cc (sym matched ∙ unmatched)
      | inr (inr (_, e)) ↦
          let row = reserve_pair_rows k t job.user_id now l job in
          let holder = reserve_pair_job k t now l job in
          let won = rw e at granted in
          rw e (
            ground (arith, row.0, not_request, not_dollars),
            ground (arith, holder.1, not_request, not_dollars),
          )
    ]
