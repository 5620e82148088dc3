-- ===== src/Geocode/Reuse.antt =====
-- `find_reusable_location`: an address that was resolved nearby, before the provider is asked. The
-- search on floating-point distances and the reading of a stored row are passed in.
use nektron_moments.Base.{ℕ, not, ◌&&◌, Option, none, some, List, Bool, true, if◌then◌else◌}
use nektron_moments.Numbers.{ℤ, pos, leb_ℤ}
use nektron_moments.Platform.{Platform}
use nektron_moments.Clock.{DateTime}
use nektron_moments.Records.{ProcessingJob, GeocodeJob, MediaLocation, Resolution, GeocodeResult}
use nektron_moments.Store.{Database, Outcome, done, raised, value_error, save}
use nektron_moments.Geocode.Claim.{claimed_geocode_job}

-- `LocationRepository.resolved_nearby` on the stored locations, for a user, a place, a radius and an
-- asset that is left out; `_reverse_geocode_result`; and the normalizer's `can_reuse`.
pub record ReuseSearch : Type 0 where
  pub resolved_nearby : List MediaLocation → ℕ → Option ℤ → Option ℤ → ℤ → ℕ → Option MediaLocation
  pub reverse_geocode_result : MediaLocation → GeocodeResult
  pub can_reuse : Resolution → Bool

-- The radius, in millionths of a metre, is below 0 or above 100 metres.
unfoldable pub bad_radius : ℤ → Bool
bad_radius radius = not (leb_ℤ (pos 0) radius && leb_ℤ radius (pos 100000000))

-- `reusable_result.resolution is not None and not ...can_reuse(...)`, negated
unfoldable pub is_reusable : ReuseSearch → GeocodeResult → Bool
is_reusable near_by result = elim result.resolution [
  | none ↦ true
  | some resolution ↦ near_by.can_reuse resolution
]

-- The location is written down in the request of the job.
unfoldable pub note_reuse : DateTime → MediaLocation → ProcessingJob → ProcessingJob
note_reuse now reusable job = record job {
  request = record job.request { reuse_location = some reusable.public_id };
  updated_at = now;
}

-- After the search.
unfoldable pub reuse_found :
    ReuseSearch
    → DateTime
    → ProcessingJob
    → Database
    → Option MediaLocation
    → Outcome (Option GeocodeResult)
unfolding is_reusable note_reuse
reuse_found near_by now job db none = done none db
reuse_found near_by now job db (some reusable) =
    let result = near_by.reverse_geocode_result reusable in
    if is_reusable near_by result
    then done (some result) (save (db.usage, note_reuse now reusable job) db)
    else done none db

-- `find_reusable_location`
unfoldable pub find_reusable_location :
    Platform
    → ReuseSearch
    → ℤ
    → GeocodeJob
    → DateTime
    → DateTime
    → Database
    → Outcome (Option GeocodeResult)
unfolding bad_radius reuse_found
find_reusable_location p near_by radius claim checked now db =
    if bad_radius radius
    then raised value_error
    else (let (found, db₁) = claimed_geocode_job p claim checked db in
        elim found [
          | none ↦ done none db₁
          | some (job, row) ↦ reuse_found near_by now job db₁ (
              near_by.resolved_nearby db₁.locations job.user_id row.latitude row.longitude radius
                job.media_asset_id)
        ])
