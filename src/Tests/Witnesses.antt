-- ===== src/Tests/Witnesses.antt =====
-- Each theorem applied to sample rows that meet its hypotheses.
use nektron_moments.Base.{◌+◌, ◌≡◌, refl, true, false, none, arith}
use nektron_moments.Numbers.{pos}
use nektron_moments.Store.{committed, first}
use nektron_moments.Leases.{same_active_lease, same_text, unexpired}
use nektron_moments.Description.Claimed.{is_claimed_description}
use nektron_moments.Soundness.{IsSound}
use nektron_moments.Geocode.Books.{KeepsBooks}
use nektron_moments.Geocode.Claim.{claim_geocode_job, take_lease, is_claimed_row, lease_hash}
use nektron_moments.Geocode.Calls.{
  reserve_provider_call, consume_provider_call, complete_geocode, fail_geocode, defer_geocode_quota,
}
use nektron_moments.Geocode.Fence.{lost_lease_changes_nothing}
use nektron_moments.Geocode.Leasing.{IsGranted, take_lease-IsGranted, claim_geocode_job-IsSound}
use nektron_moments.Geocode.Reuse.{ReuseSearch, find_reusable_location}
use nektron_moments.Geocode.Reserving.{reserve_provider_call-IsSound}
use nektron_moments.Geocode.Endings.{
  fail_geocode-IsSound, defer_geocode-IsSound, consume_provider_call-IsSound,
  complete_geocode-IsSound,
}
use nektron_moments.Description.Calls.{
  reserve_description_provider_call, consume_description_provider_call,
}
use nektron_moments.Description.Results.{
  complete_description, fail_description, defer_description_quota,
}
use nektron_moments.Description.Endings.{
  lost_description_lease_changes_nothing, fail_description-IsSound, defer_description-IsSound,
}
use nektron_moments.Description.Completing.{complete_description-IsSound}
use nektron_moments.Tests.Samples.{
  noon, platform, settings, geocoding, geocode_database, geocode_claim, geocode_result, denied,
  describing, description_database, description_claim, scene_result, new_row,
  geocode_database-IsSound, description_database-IsSound,
}

-- No location nearby.
abbrev nowhere : ReuseSearch
nowhere = record {
  resolved_nearby = λ rows user latitude longitude radius asset. none;
  reverse_geocode_result = λ row. geocode_result;
  can_reuse = λ resolution. true;
}

reserve_provider_call-IsSound_example :
    KeepsBooks geocode_database
      (reserve_provider_call platform geocode_claim "Amazon" 5 noon noon geocode_database)
reserve_provider_call-IsSound_example =
    reserve_provider_call-IsSound platform geocode_claim "Amazon" 5 noon noon geocode_database
      geocode_database-IsSound

consume_provider_call-IsSound_example :
    KeepsBooks geocode_database
      (consume_provider_call platform geocode_claim "Amazon" noon noon geocode_database)
consume_provider_call-IsSound_example =
    consume_provider_call-IsSound platform geocode_claim "Amazon" noon noon geocode_database
      geocode_database-IsSound

complete_geocode-IsSound_example :
    KeepsBooks geocode_database
      (complete_geocode platform geocode_claim geocode_result false noon noon geocode_database)
complete_geocode-IsSound_example =
    complete_geocode-IsSound platform geocode_claim geocode_result false noon noon geocode_database
      geocode_database-IsSound

fail_geocode-IsSound_example :
    KeepsBooks geocode_database
      (fail_geocode platform geocode_claim denied noon noon geocode_database)
fail_geocode-IsSound_example =
    fail_geocode-IsSound platform geocode_claim denied noon noon geocode_database
      geocode_database-IsSound

defer_geocode-IsSound_example :
    KeepsBooks geocode_database
      (defer_geocode_quota platform geocode_claim denied false noon noon geocode_database)
defer_geocode-IsSound_example =
    defer_geocode-IsSound platform geocode_claim denied false noon noon geocode_database
      geocode_database-IsSound

claim_geocode_job-IsSound_example :
    IsSound
      (committed geocode_database (claim_geocode_job platform 11 "message" noon geocode_database))
claim_geocode_job-IsSound_example =
    claim_geocode_job-IsSound platform 11 "message" noon geocode_database geocode_database-IsSound

fail_description-IsSound_example : KeepsBooks description_database (
    fail_description platform settings description_claim denied true noon noon description_database)
fail_description-IsSound_example =
    fail_description-IsSound platform settings description_claim denied true noon noon
      description_database description_database-IsSound

defer_description-IsSound_example : KeepsBooks description_database (
    defer_description_quota platform settings description_claim denied false noon noon
      description_database)
defer_description-IsSound_example =
    defer_description-IsSound platform settings description_claim denied false noon noon
      description_database description_database-IsSound

complete_description-IsSound_example : KeepsBooks description_database (
    complete_description platform settings description_claim scene_result new_row noon noon
      description_database)
complete_description-IsSound_example =
    complete_description-IsSound platform settings description_claim scene_result new_row noon noon
      description_database description_database-IsSound

-- Two seconds later the lease has expired.
lost_lease_changes_nothing_example :
    let late = noon + 2000000 in
    (committed geocode_database (
        find_reusable_location platform nowhere
          (pos 5000000)
          geocode_claim
          late
          late
          geocode_database)
      ≡ geocode_database)
    × (committed geocode_database
          (reserve_provider_call platform geocode_claim "Amazon" 5 late late geocode_database)
        ≡ geocode_database)
    × (committed geocode_database
          (consume_provider_call platform geocode_claim "Amazon" late late geocode_database)
        ≡ geocode_database)
    × (committed geocode_database
          (complete_geocode platform geocode_claim geocode_result false late late geocode_database)
        ≡ geocode_database)
    × (committed geocode_database
          (fail_geocode platform geocode_claim denied late late geocode_database)
        ≡ geocode_database)
    × (committed geocode_database
          (defer_geocode_quota platform geocode_claim denied false late late geocode_database)
        ≡ geocode_database)
unfolding first is_claimed_row same_active_lease same_text lease_hash unexpired
lost_lease_changes_nothing_example =
    lost_lease_changes_nothing platform geocode_claim geocode_database geocoding (noon + 2000000)
      (noon + 2000000) "Amazon" 5 geocode_result false denied nowhere (pos 5000000) refl refl

lost_description_lease_changes_nothing_example :
    let late = noon + 2000000 in
    (committed description_database (
        reserve_description_provider_call platform settings description_claim "OpenAI"
          (pos 5)
          late
          late
          description_database)
      ≡ description_database)
    × (committed description_database (
          consume_description_provider_call platform settings description_claim "OpenAI" late late
            description_database)
        ≡ description_database)
    × (committed description_database (
          complete_description platform settings description_claim scene_result new_row late late
            description_database)
        ≡ description_database)
    × (committed description_database (
          fail_description platform settings description_claim denied true late late
            description_database)
        ≡ description_database)
    × (committed description_database (
          defer_description_quota platform settings description_claim denied true late late
            description_database)
        ≡ description_database)
unfolding first is_claimed_description same_active_lease same_text lease_hash unexpired
lost_description_lease_changes_nothing_example =
    lost_description_lease_changes_nothing platform settings description_claim description_database
      describing (noon + 2000000) (noon + 2000000) "OpenAI" (pos 5) scene_result new_row true denied
      refl refl

take_lease-IsGranted_example :
    IsGranted "other"
      (noon + 2000000)
      (take_lease 300 "spent" "other" (noon + 2000000) geocoding geocode_database).0
take_lease-IsGranted_example =
    take_lease-IsGranted 300 "spent" "other" (noon + 2000000) geocoding geocode_database
      (omega arith) (omega arith)
