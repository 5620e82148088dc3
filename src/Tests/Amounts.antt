-- ===== src/Tests/Amounts.antt =====
-- The theorems about quotas, settlements and prices, and about two further transactions of a
-- description, applied to sample rows.
use nektron_moments.Base.{
  [], ◌∷◌, ◌*◌, ◌≤◌, max, ◌≡◌, refl, true, false, none, some, arith, if◌then◌else◌, or_else, inl,
}
use nektron_moments.Numbers.{pos, finite}
use nektron_moments.Clock.{month_of}
use nektron_moments.Settings.{one_unit}
use nektron_moments.Records.{Reservation, UnitType, ProcessingJob}
use nektron_moments.Ledger.{Ledger, same_key, get, put, get_or_create}
use nektron_moments.Cost.{
  integer, RawUsage, safe_fields, unavailable, scene_description_cost, maximum_cost,
  usage_within_bounds,
}
use nektron_moments.Cost.Bounds.{cost-le-maximum, Kept, safe_fields-Kept, cost_out_of_bounds}
use nektron_moments.Reservations.{settle_provider_reservation}
use nektron_moments.Reservations.Held.{reserved_at, job_held, Balanced, settle_provider-Balanced}
use nektron_moments.Charges.{charge_basis, settle_description_cost}
use nektron_moments.Charges.Settlement.{charge_basis-le, settle_cost-Balanced}
use nektron_moments.CircuitBreaker.{provider_circuit_is_open, close_provider_circuit}
use nektron_moments.CircuitBreaker.Laws.{close_circuit_closes}
use nektron_moments.Reservations.Committed.{committed_at}
use nektron_moments.Quota.{
  Terms, matches, row_key, reserve_geocode_usage, reserve_description_usage,
}
use nektron_moments.Quota.Description.{
  reserve_description_strands_reservation, reserve_description_within_limits,
  reserve_description-Balanced,
}
use nektron_moments.Quota.Geocode.{reserve_geocode_within_limits}
use nektron_moments.Description.Claim.{claim_description_job}
use nektron_moments.Soundness.{IsSound}
use nektron_moments.Geocode.Books.{KeepsBooks}
use nektron_moments.Description.Calls.{consume_description_provider_call}
use nektron_moments.Description.Consuming.{consume_description-IsSound}
use nektron_moments.Description.Claiming.{claim_description_job-IsSound}
use nektron_moments.Tests.Samples.{
  reservation_of, row_of, noon, platform, settings, key, geocoding, geocode_rows, describing,
  description_rows, description_database, description_claim, tokens, description_database-IsSound,
  description_balanced,
}

abbrev terms : Terms
terms = record {
  provider = "OpenAI";
  request_limit = 5;
  usd_limit = 230000000;
  reserved_usd = 20000;
}

reserve_description_within_limits_example :
    committed_at
      (key "OpenAI" UnitType.usd)
      (reserve_description_usage terms 7 noon description_rows describing).1
    ≤ max (committed_at (key "OpenAI" UnitType.usd) description_rows) (
        if same_key (key "OpenAI" UnitType.usd) (row_key 7 "OpenAI" (month_of noon) UnitType.usd)
        then 230000000
        else if same_key
            (key "OpenAI" UnitType.usd)
            (row_key 7 "OpenAI" (month_of noon) UnitType.request)
        then 5 * one_unit
        else 0)
reserve_description_within_limits_example =
    reserve_description_within_limits (key "OpenAI" UnitType.usd) terms 7 noon description_rows
      describing

reserve_geocode_within_limits_example :
    committed_at
      (key "Amazon" UnitType.request)
      (reserve_geocode_usage "Amazon" 5 noon geocode_rows geocoding).1
    ≤ max (committed_at (key "Amazon" UnitType.request) geocode_rows) (
        if same_key
          (key "Amazon" UnitType.request)
          (row_key 7 "Amazon" (month_of noon) UnitType.request)
        then 5 * one_unit
        else 0)
reserve_geocode_within_limits_example =
    reserve_geocode_within_limits (key "Amazon" UnitType.request) "Amazon" 5 noon geocode_rows
      geocoding

reserve_description-Balanced_example :
    Balanced (key "OpenAI" UnitType.usd) description_rows describing (
      (reserve_description_usage terms 7 noon description_rows describing).1,
      (reserve_description_usage terms 7 noon description_rows describing).2,
    )
unfolding matches month_of
reserve_description-Balanced_example =
    reserve_description-Balanced (key "OpenAI" UnitType.usd) terms noon description_rows describing
      (λ held. refl) (λ held. refl)
      (omega (arith, description_balanced (key "OpenAI" UnitType.usd))) (inl refl)

settle_cost-Balanced_example :
    Balanced
      (key "OpenAI" UnitType.usd)
      description_rows
      describing
      (settle_description_cost settings false unavailable noon description_rows describing)
settle_cost-Balanced_example =
    settle_cost-Balanced (key "OpenAI" UnitType.usd) settings false unavailable noon
      description_rows describing (λ held. refl) (λ held. refl)
      (omega (arith, description_balanced (key "OpenAI" UnitType.usd)))

settle_provider-Balanced_example :
    Balanced
      (key "OpenAI" UnitType.request)
      description_rows
      describing
      (settle_provider_reservation true noon description_rows describing)
settle_provider-Balanced_example =
    settle_provider-Balanced (key "OpenAI" UnitType.request) true noon description_rows describing
      (λ held. refl) (omega (arith, description_balanced (key "OpenAI" UnitType.request)))

charge_basis-le_example : (charge_basis true 10000 unavailable).0 ≤ 10000
charge_basis-le_example = charge_basis-le true 10000 unavailable

-- 1,000 plain and 500 cached input tokens and 40 output tokens: 2,580 millionths of a dollar
cost-le-maximum_example : 2580 ≤ maximum_cost 2000000 200000 12000000
unfolding scene_description_cost
cost-le-maximum_example =
    cost-le-maximum (some tokens) 2000000 200000 12000000 2580 (safe_fields tokens) refl

abbrev flood : RawUsage
flood = record tokens { output_tokens = integer (pos 101) }

cost_out_of_bounds_example :
    scene_description_cost
      (some flood)
      (finite (pos 2000000))
      (finite (pos 200000))
      (finite (pos 12000000))
    ≡ unavailable
unfolding usage_within_bounds
cost_out_of_bounds_example =
    cost_out_of_bounds (some flood) (finite (pos 2000000)) (finite (pos 200000))
      (finite (pos 12000000)) refl

safe_fields-Kept_example :
    Kept flood.input_tokens (safe_fields flood).input_tokens
    × Kept flood.output_tokens (safe_fields flood).output_tokens
    × Kept flood.total_tokens (safe_fields flood).total_tokens
    × Kept
        (or_else flood.input_details flood.cached_input_tokens)
        (safe_fields flood).cached_input_tokens
    × Kept
        (or_else flood.output_details flood.reasoning_output_tokens)
        (safe_fields flood).reasoning_output_tokens
safe_fields-Kept_example = safe_fields-Kept flood

close_circuit_closes_example :
    provider_circuit_is_open noon (close_provider_circuit noon geocode_rows geocoding) geocoding
    ≡ false
close_circuit_closes_example = close_circuit_closes noon geocode_rows geocoding

-- A job whose request is of the month before, granted a call in January.
abbrev december_request : Reservation
december_request = reservation_of "OpenAI" UnitType.request 1000000

abbrev december_rows : Ledger
december_rows =
    (record (key "OpenAI" UnitType.request) { usage_month = 24311 }, row_of 0 1000000) ∷ []

abbrev december_job : ProcessingJob
december_job = record describing {
  request = record describing.request {
    usage_reservation = some (record december_request { usage_month = some 24311 });
    cost_reservation = none;
  };
}

reserve_description_strands_reservation_example :
    let k = record (key "OpenAI" UnitType.request) { usage_month = 24311 } in
    let result = reserve_description_usage terms 7 noon december_rows december_job in
    (reserved_at k result.1 ≡ reserved_at k december_rows) × (job_held k result.2 ≡ 0)
unfolding reserve_description_usage matches month_of get_or_create get same_key put
reserve_description_strands_reservation_example =
    reserve_description_strands_reservation
      (record (key "OpenAI" UnitType.request) { usage_month = 24311 }) terms noon december_rows
      december_job (λ e. omega (arith, e)) refl refl

consume_description-IsSound_example : KeepsBooks description_database (
    consume_description_provider_call platform settings description_claim "OpenAI" noon noon
      description_database)
consume_description-IsSound_example =
    consume_description-IsSound platform settings description_claim "OpenAI" noon noon
      description_database description_database-IsSound

-- The message that holds the job asks again; its payload is refused, and what it holds is released.
claim_description_job-IsSound_example :
    IsSound (claim_description_job platform settings 11 "message" noon description_database).1
claim_description_job-IsSound_example =
    claim_description_job-IsSound platform settings 11 "message" noon description_database
      description_database-IsSound
