-- ===== src/Geocode/Result.antt =====
-- `_apply_geocode_result` and `_apply_geocode_timezone`: what a result writes to the location and,
-- where nothing is known yet, to the asset's time zone.
use nektron_moments.Base.{
  ℕ, String, Bool, true, not, ◌||◌, Option, none, some, if◌then◌else◌, truthy, is_some,
}
use nektron_moments.Numbers.{ℤ}
use nektron_moments.Platform.{Platform}
use nektron_moments.Clock.{DateTime}
use nektron_moments.Records.{MediaAsset, MediaLocation, Address, Resolution, GeocodeResult}
use nektron_moments.Store.{Database, asset_by_id, replace_asset}

abbrev pub no_address : Address
no_address = record {
  display_name = none;
  street_address = none;
  original_street_number = none;
  neighborhood = none;
  city = none;
  county = none;
  state = none;
  postal_code = none;
  country = none;
  country_code = none;
  provider_place_id = none;
  normalization_rule_version = none;
}

or_now : DateTime → Option DateTime → DateTime
or_now now none = now
or_now now (some t) = t

resolved_address : Option Resolution → Address
resolved_address none = no_address
resolved_address (some r) = r.address

resolved_provider : String → Option Resolution → String
resolved_provider provider none = provider
resolved_provider provider (some r) = r.provider

-- `_apply_geocode_result`
unfoldable pub apply_geocode_result : GeocodeResult → DateTime → MediaLocation → MediaLocation
unfolding or_now resolved_address resolved_provider
apply_geocode_result result now row = record row {
  address = resolved_address result.resolution;
  confidence = none;
  provider = some (resolved_provider result.provider result.resolution);
  provider_updated_at = some (or_now now result.provider_updated_at);
  raw_provider_json = some result.raw_provider_json;
}

-- `not asset.time_zone`
unset : Option String → Bool
unset none = true
unset (some z) = not (truthy z)

-- `asset.time_zone = resolution.time_zone_id` where there is none.
choose_zone : String → Option String → String
choose_zone zone none = zone
choose_zone zone (some z) = if truthy z then z else zone

keep_or {ℓ} : {A : Type ℓ} → Option A → A → Option A
keep_or none a = some a
keep_or (some b) a = some b

-- The offset and the UTC time of a capture whose zone has been chosen.
fill_times : Option (ℤ × DateTime) → DateTime → Bool → MediaAsset → MediaAsset
unfolding keep_or
fill_times none now changed asset = if changed then record asset { updated_at = now } else asset
fill_times (some (offset, utc)) now changed asset =
    let changed' =
      changed || (not (is_some asset.utc_offset_minutes) || not (is_some asset.capture_utc)) in
    let asset' = record asset {
      utc_offset_minutes = keep_or asset.utc_offset_minutes offset;
      capture_utc = keep_or asset.capture_utc utc;
    } in
    if changed' then record asset' { updated_at = now } else asset'

capture_times : Platform → String → Option DateTime → Option (ℤ × DateTime)
capture_times p zone none = none
capture_times p zone (some local) = p.local_to_utc zone local

apply_zone : Platform → String → DateTime → MediaAsset → MediaAsset
unfolding unset choose_zone fill_times capture_times
apply_zone p zone now asset =
    let chosen = choose_zone zone asset.time_zone in
    fill_times (capture_times p chosen asset.capture_local) now (unset asset.time_zone)
      (record asset { time_zone = some chosen })

unfoldable pub zone_of : Option Resolution → Option String
zone_of none = none
zone_of (some r) = elim r.time_zone_id [ none ↦ none | some z ↦ if truthy z then some z else none ]

-- `_apply_geocode_timezone`
unfoldable pub apply_geocode_timezone :
    Platform → ℕ → ℕ → GeocodeResult → DateTime → Database → Database
unfolding apply_zone zone_of
apply_geocode_timezone p user asset_id result now db = elim (zone_of result.resolution) [
  | none ↦ db
  | some zone ↦ elim (asset_by_id user asset_id db) [
    | none ↦ db
    | some asset ↦ record db { assets = replace_asset (apply_zone p zone now asset) db.assets }
  ]
]
