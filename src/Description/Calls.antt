-- ===== src/Description/Calls.antt =====
-- Reserving and consuming the provider call of a claimed description job. `checked` is the time that the claim is checked at, and
-- `now` the later reading of the clock in the same transaction.
use nektron_moments.Base.{ℕ, String, Bool, true, false, Option, none, some, if◌then◌else◌, or_else}
use nektron_moments.Numbers.{ℤ, pos, negsuc}
use nektron_moments.Platform.{Platform}
use nektron_moments.Clock.{DateTime}
use nektron_moments.Settings.{Settings, one_unit}
use nektron_moments.Records.{Reservation, Consumption, ConsumptionState, ProcessingJob}
use nektron_moments.Cost.{RawUsage}
use nektron_moments.Reservations.{settle_provider_reservation}
use nektron_moments.Quota.{Terms, reserve_description_usage}
use nektron_moments.Store.{Database, value_error, Outcome, done, raised, save}
use nektron_moments.Leases.{same_text}
use nektron_moments.Geocode.Calls.{bad_provider, is_held_for}
use nektron_moments.Description.Payload.{DescriptionJob}
use nektron_moments.Description.Claimed.{claimed_description_job}

-- `DescriptionCleanupDecision`
pub data Cleanup : Type 0 where
  retain delete : Cleanup

-- `SceneDescriptionResult`
pub record SceneResult : Type 0 where
  pub description : String
  pub provider : String
  pub model : String
  pub prompt_version : String
  pub usage : Option RawUsage

-- The identifiers that the database gives a new description.
pub record NewRow : Type 0 where
  pub id : ℕ
  pub public_id : ℕ

grant_description : DescriptionJob → String → ℕ → DateTime → Database → ProcessingJob → Outcome Bool
grant_description claim provider limit now db job =
    let terms : Terms = record {
      provider = provider;
      request_limit = limit;
      usd_limit = claim.monthly_usd_limit;
      reserved_usd = claim.reserved_usd;
    } in
    let (granted, l, job') = reserve_description_usage terms job.user_id now db.usage job in
    done granted (save (l, job') db)

unfoldable pub reserve_claimed :
    Platform
    → Settings
    → DescriptionJob
    → String
    → ℕ
    → DateTime
    → DateTime
    → Database
    → Outcome Bool
unfolding grant_description
reserve_claimed p cfg claim provider limit checked now db =
    elim (claimed_description_job p cfg claim checked db) [
      | none ↦ done false db
      | some (job, asset) ↦
          if same_text job.provider provider
          then grant_description claim provider limit now db job
          else raised value_error
    ]

-- `reserve_description_provider_call`
unfoldable pub reserve_description_provider_call :
    Platform
    → Settings
    → DescriptionJob
    → String
    → ℤ
    → DateTime
    → DateTime
    → Database
    → Outcome Bool
unfolding reserve_claimed
reserve_description_provider_call p cfg claim provider (negsuc n) checked now db =
    raised value_error
reserve_description_provider_call p cfg claim provider (pos n) checked now db =
    if bad_provider provider
    then raised value_error
    else reserve_claimed p cfg claim provider n checked now db

-- `consumption`
unfoldable pub consumption_of : String → DateTime → Option Reservation → Option Consumption
consumption_of provider now none = none
consumption_of provider now (some r) = some (record {
  provider = some provider;
  usage_month = r.usage_month;
  units = some (or_else r.units one_unit);
  state = ConsumptionState.consumed;
  consumed_at = now;
  reversed_at = none;
})

-- `consume_description_provider_call`
unfoldable pub consume_description_provider_call :
    Platform → Settings → DescriptionJob → String → DateTime → DateTime → Database → Outcome Bool
unfolding consumption_of
consume_description_provider_call p cfg claim provider checked now db =
    elim (claimed_description_job p cfg claim checked db) [
      | none ↦ done false db
      | some (job, asset) ↦
          if same_text job.provider provider
          then (if is_held_for provider job.request.usage_reservation
              then (let (l, settled) = settle_provider_reservation true now db.usage job in
                  let job' = record settled {
                    request = record settled.request {
                      consumption = consumption_of provider now job.request.usage_reservation;
                    };
                    updated_at = now;
                  } in
                  done true (save (l, job') db))
              else done false db)
          else raised value_error
    ]
