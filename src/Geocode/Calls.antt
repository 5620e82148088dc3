-- ===== src/Geocode/Calls.antt =====
-- The transactions of a claimed geocode job: reserving and consuming a provider call, completing,
-- failing, and deferring to the next month. `checked` is the time that the claim is checked at, and
-- `now` the later reading of the clock in the same transaction.
use nektron_moments.Base.{
  ℕ, String, Bool, true, false, not, ◌&&◌, ◌||◌, Option, none, some, [], ◌∷◌, ◌++◌, ltb,
  if◌then◌else◌, truthy, text_length, text_prefix,
}
use nektron_moments.Platform.{Platform}
use nektron_moments.Clock.{DateTime, first_of_next_month}
use nektron_moments.Records.{
  Status, opens_circuit, Reservation, is_reserved, ProcessingJob, EntityType, ChangeType,
  JobFailure, GeocodeJob, MediaLocation, GeocodeResult,
}
use nektron_moments.Ledger.{Ledger}
use nektron_moments.Reservations.{settle_provider_reservation}
use nektron_moments.CircuitBreaker.{open_provider_circuit}
use nektron_moments.Quota.{reserve_geocode_usage, circuit_open_reason}
use nektron_moments.Store.{
  Database, value_error, Outcome, done, raised, save, add_job_change, replace_location,
}
use nektron_moments.Leases.{same_text, settle_job}
use nektron_moments.Geocode.Claim.{claimed_geocode_job}
use nektron_moments.Geocode.Result.{apply_geocode_result, apply_geocode_timezone}

-- `not provider or len(provider) > 64`
unfoldable pub bad_provider : String → Bool
bad_provider provider = not (truthy provider) || ltb 64 (text_length provider)

unfoldable pub store_reservation : Bool × Ledger × ProcessingJob → Database → Outcome Bool
store_reservation (granted, l, job) db = done granted (save (l, job) db)

-- `reserve_provider_call`
unfoldable pub reserve_provider_call :
    Platform → GeocodeJob → String → ℕ → DateTime → DateTime → Database → Outcome Bool
unfolding bad_provider store_reservation
reserve_provider_call p claim provider monthly_limit checked now db =
    if bad_provider provider
    then raised value_error
    else (let (found, db₁) = claimed_geocode_job p claim checked db in
        elim found [
          | none ↦ done false db₁
          | some (job, row) ↦
              if same_text job.provider provider
              then store_reservation
                  (reserve_geocode_usage provider monthly_limit now db₁.usage job) db₁
              else raised value_error
        ])

-- The reservation is held, and for this provider.
unfoldable pub is_held_for : String → Option Reservation → Bool
is_held_for provider none = false
is_held_for provider (some r) = is_reserved r.state && same_text r.provider provider

unfoldable pub touch_job : DateTime → Ledger × ProcessingJob → Ledger × ProcessingJob
touch_job now (l, job) = (l, record job { updated_at = now })

-- `consume_provider_call`
unfoldable pub consume_provider_call :
    Platform → GeocodeJob → String → DateTime → DateTime → Database → Outcome Bool
unfolding is_held_for touch_job
consume_provider_call p claim provider checked now db =
    let (found, db₁) = claimed_geocode_job p claim checked db in
    elim found [
      | none ↦ done false db₁
      | some (job, row) ↦
          if same_text job.provider provider
          then (if is_held_for provider job.request.usage_reservation
              then done true
                  (save (touch_job now (settle_provider_reservation true now db₁.usage job)) db₁)
              else done false db₁)
          else raised value_error
    ]

-- `_finish_geocode_job`
unfoldable pub finish_geocode_job : Status → DateTime → ProcessingJob → ProcessingJob
unfolding settle_job
finish_geocode_job status now job = settle_job status none none none none (some now) now job

-- `_add_geocode_changes`
unfoldable pub add_geocode_changes : DateTime → ProcessingJob → MediaLocation → Database → Database
add_geocode_changes now job row db = add_job_change now job (record db {
  changes =
      db.changes
      ++ record {
        user_id = job.user_id;
        device_id = none;
        source_id = job.media_source_id;
        asset_id = some job.media_asset_id;
        occurrence_id = none;
        change_type = ChangeType.upsert;
        entity_type = EntityType.media_location;
        entity_id = row.id;
        entity_public_id = row.public_id;
        created_at = now;
      }
        ∷ [];
})

-- `complete_geocode`
unfoldable pub complete_geocode :
    Platform
    → GeocodeJob
    → GeocodeResult
    → Bool
    → DateTime
    → DateTime
    → Database
    → Outcome (Unit {0})
unfolding finish_geocode_job add_geocode_changes
complete_geocode p claim result reused checked now db =
    let (found, db₁) = claimed_geocode_job p claim checked db in
    elim found [
      | none ↦ done tt db₁
      | some (job, row) ↦
          let row' = record (apply_geocode_result result now row) { updated_at = now } in
          let db₂ =
            apply_geocode_timezone p job.user_id job.media_asset_id result now
              (record db₁ { locations = replace_location row' db₁.locations }) in
          let (l, settled) = settle_provider_reservation (not reused) now db₂.usage job in
          let job' = finish_geocode_job Status.succeeded now settled in
          done tt (add_geocode_changes now job' row' (save (l, job') db₂))
    ]

-- `failure.retryable and attempt_count < max_attempts`
unfoldable pub should_retry : JobFailure → ProcessingJob → Bool
should_retry failure job = failure.retryable && ltb job.attempt_count job.max_attempts

-- The assignments of a failed attempt.
unfoldable pub fail_attempt : JobFailure → DateTime → ProcessingJob → ProcessingJob
unfolding should_retry settle_job
fail_attempt failure now job =
    if should_retry failure job
    then settle_job Status.queued (some now) (some failure.failure_class)
        (some (text_prefix 64 failure.code)) (some failure.user_message) none now job
    else settle_job Status.failed none (some failure.failure_class)
        (some (text_prefix 64 failure.code)) (some failure.user_message) (some now) now job

-- `fail_geocode`
unfoldable pub fail_geocode :
    Platform → GeocodeJob → JobFailure → DateTime → DateTime → Database → Outcome Bool
unfolding fail_attempt
fail_geocode p claim failure checked now db =
    let (found, db₁) = claimed_geocode_job p claim checked db in
    elim found [
      | none ↦ done false db₁
      | some (job, row) ↦
          let (l, settled) = settle_provider_reservation true now db₁.usage job in
          let l' =
            if opens_circuit failure.failure_class
            then open_provider_circuit now failure.code l settled
            else l in
          let job' = fail_attempt failure now settled in
          done (should_retry failure settled) (add_job_change now job' (save (l', job') db₁))
    ]

-- `not provider_called and request.get("quotaBlockReason") == "CircuitOpen"`
unfoldable pub blocked_by_circuit : Bool → ProcessingJob → Bool
blocked_by_circuit provider_called job =
    not provider_called && same_text job.request.quota_block_reason circuit_open_reason

-- The assignments of a deferral, with the message for an open circuit.
unfoldable pub defer_job : Bool → String → JobFailure → DateTime → ProcessingJob → ProcessingJob
unfolding settle_job
defer_job circuit_open paused failure now job =
    if circuit_open
    then settle_job Status.deferred_quota (some (first_of_next_month now))
        (some failure.failure_class) (some "ProviderCircuitOpen") (some paused) none now job
    else settle_job Status.deferred_quota (some (first_of_next_month now))
        (some failure.failure_class) (some (text_prefix 64 failure.code))
        (some failure.user_message) none now job

-- `defer_geocode_quota`
unfoldable pub defer_geocode_quota :
    Platform → GeocodeJob → JobFailure → Bool → DateTime → DateTime → Database → Outcome (Unit {0})
unfolding defer_job blocked_by_circuit
defer_geocode_quota p claim failure provider_called checked now db =
    let (found, db₁) = claimed_geocode_job p claim checked db in
    elim found [
      | none ↦ done tt db₁
      | some (job, row) ↦
          let (l, settled) = settle_provider_reservation provider_called now db₁.usage job in
          let l' =
            if provider_called then open_provider_circuit now failure.code l settled else l in
          let job' =
            defer_job (blocked_by_circuit provider_called settled)
              "Location enrichment is paused after a provider credential or quota failure." failure
              now settled in
          done tt (add_job_change now job' (save (l', job') db₁))
    ]
