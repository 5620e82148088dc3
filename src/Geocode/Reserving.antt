-- ===== src/Geocode/Reserving.antt =====
-- Reserving a provider call keeps the books, in the database as a whole.
use nektron_moments.Base.{
  ℕ, String, ◌≡◌, ◌∙◌, Bool, true, false, Option, some, arith, if◌then◌else◌, inl, inr, Bool-cases,
  truthy,
}
use nektron_moments.Platform.{Platform}
use nektron_moments.Clock.{DateTime, month_of}
use nektron_moments.Records.{UnitType, Reservation, ProcessingJob, GeocodeJob}
use nektron_moments.Settings.{one_unit}
use nektron_moments.Ledger.{Ledger}
use nektron_moments.Reservations.{settle_provider_reservation}
use nektron_moments.Reservations.Held.{IsWhole, settle_provider_drops, settle_provider-IsWhole}
use nektron_moments.Quota.{new_reservation, block, reserve_request, reserve_geocode_usage}
use nektron_moments.Quota.Geocode.{reserve_geocode_cases, reserve_geocode-Balanced}
use nektron_moments.Store.{Database}
use nektron_moments.Store.Laws.{All-first}
use nektron_moments.Leases.{same_text}
use nektron_moments.Soundness.{IsSound, IsWholeJob, held-le-reserved, save-IsSound}
use nektron_moments.Geocode.Claim.{claimed_geocode_job, is_claimed_row}
use nektron_moments.Geocode.Calls.{bad_provider, store_reservation, reserve_provider_call}
use nektron_moments.Geocode.Books.{claimed-IsSound, KeepsBooks}

reserve_request_writes :
    (provider : String) (n : ℕ) (now : DateTime) (l : Ledger) (job : ProcessingJob)
    → let (granted, l', job') = reserve_request provider n now l job in
      (job'.id ≡ job.id)
      × (job'.request.cost_reservation ≡ job.request.cost_reservation)
      × (job'.request.usage_reservation ≡ (
          if granted
          then some (new_reservation provider (month_of now) UnitType.request one_unit)
          else job.request.usage_reservation))
unfolding reserve_request block
reserve_request_writes provider n now l job = ground arith

new_reservation-IsWhole :
    (provider : String) (m : ℕ) (unit : UnitType) (n : ℕ)
    → truthy provider ≡ true
    → IsWhole (some (new_reservation provider m unit n))
unfolding new_reservation
new_reservation-IsWhole provider m unit n named reserved = named

IsWhole-if :
    (granted : Bool) (r : Reservation) (o o' : Option Reservation)
    → o' ≡ (if granted then some r else o)
    → IsWhole (some r)
    → IsWhole o
    → IsWhole o'
IsWhole-if true r o o' e new old = rw e new
IsWhole-if false r o o' e new old = rw e old

-- What `reserve_geocode_usage` leaves in the job: its identity and its dollars, and a request that
-- is whole.
reserve_geocode_whole :
    (provider : String) (n : ℕ) (now : DateTime) (l : Ledger) (job : ProcessingJob)
    → truthy provider ≡ true
    → IsWholeJob job
    → let result = reserve_geocode_usage provider n now l job in
      (result.2.id ≡ job.id) × IsWholeJob result.2
reserve_geocode_whole provider n now l job named whole =
    let drops = settle_provider_drops false now l job in
    let kept = settle_provider-IsWhole false now l job whole.usage_whole in
    let settled = settle_provider_reservation false now l job in
    elim (reserve_geocode_cases provider n now l job) [
      | inl same ↦ (
        same.4,
        record {
          usage_whole = rw same.2 whole.usage_whole;
          cost_whole = rw same.3 whole.cost_whole;
          cost_usd = rw same.3 whole.cost_usd;
        },
      )
      | inr e ↦
          let writes = reserve_request_writes provider n now settled.0 settled.1 in
          rw e (
            writes.0 ∙ kept.0,
            record {
              usage_whole =
                  IsWhole-if (reserve_request provider n now settled.0 settled.1).0 _ _ _ writes.2
                    (new_reservation-IsWhole provider (month_of now) UnitType.request one_unit
                      named)
                    kept.1;
              cost_whole = rw (writes.1 ∙ drops.1) whole.cost_whole;
              cost_usd = rw (writes.1 ∙ drops.1) whole.cost_usd;
            },
          )
    ]

good_provider : (provider : String) → bad_provider provider ≡ false → truthy provider ≡ true
unfolding bad_provider
good_provider provider good = ground arith

-- Reserving a call for a claimed job keeps the books sound, granted, refused, or raised.
pub reserve_provider_call-IsSound :
    (p : Platform) (claim : GeocodeJob) (provider : String) (limit : ℕ) (checked now : DateTime)
    (db : Database)
    → IsSound db
    → KeepsBooks db (reserve_provider_call p claim provider limit checked now db)
unfolding reserve_provider_call store_reservation bad_provider
reserve_provider_call-IsSound p claim provider limit checked now db sound =
    let (sound₁, found) = claimed-IsSound p claim checked db sound in
    let db₁ = (claimed_geocode_job p claim checked db).1 in
    elim (Bool-cases (bad_provider provider)) [
      | inl bad ↦ simp (bad, reserve_provider_call) sound
      | inr good ↦ elim found [
        | inl nothing ↦ simp (good, nothing, reserve_provider_call) sound₁
        | inr (job, row, e, selected) ↦ elim (Bool-cases (same_text job.provider provider)) [
          | inr other ↦ simp (good, e, other, reserve_provider_call) sound
          | inl same ↦
              let whole : IsWholeJob job =
                All-first IsWholeJob (is_claimed_row claim) db₁.jobs job selected sound₁.whole in
              let kept =
                reserve_geocode_whole provider limit now db₁.usage job (good_provider provider good)
                  whole in
              let result = reserve_geocode_usage provider limit now db₁.usage job in
              simp (good, e, same, reserve_provider_call)
                (save-IsSound db₁ (is_claimed_row claim) job result.2 result.1 sound₁ selected
                  kept.0 kept.1
                  λ k.
                    reserve_geocode-Balanced k provider limit now db₁.usage job whole.usage_whole
                      (held-le-reserved db₁ (is_claimed_row claim) job sound₁ selected k))
        ]
      ]
    ]
