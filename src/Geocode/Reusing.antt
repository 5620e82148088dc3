-- ===== src/Geocode/Reusing.antt =====
-- The books through `find_reusable_location`.
use nektron_moments.Base.{◌≡◌, refl, Bool, Option, none, some, inl, inr, Bool-cases}
use nektron_moments.Numbers.{ℤ}
use nektron_moments.Platform.{Platform}
use nektron_moments.Clock.{DateTime}
use nektron_moments.Records.{ProcessingJob, GeocodeJob, MediaLocation}
use nektron_moments.Store.{Database, first}
use nektron_moments.Soundness.{IsSound}
use nektron_moments.Geocode.Books.{same-IsSound, claimed-IsSound, KeepsBooks}
use nektron_moments.Geocode.Claim.{is_claimed_row, claimed_geocode_job}
use nektron_moments.Geocode.Reuse.{
  ReuseSearch, bad_radius, is_reusable, note_reuse, reuse_found, find_reusable_location,
}

reuse_found-IsSound :
    (near_by : ReuseSearch) (now : DateTime) (test : ProcessingJob → Bool) (job : ProcessingJob)
    (before db : Database) (near : Option MediaLocation)
    → IsSound db
    → first test db.jobs ≡ some job
    → KeepsBooks before (reuse_found near_by now job db near)
unfolding reuse_found note_reuse
reuse_found-IsSound near_by now test job before db none sound selected = sound
reuse_found-IsSound near_by now test job before db (some reusable) sound selected =
    elim (Bool-cases (is_reusable near_by (near_by.reverse_geocode_result reusable))) [
      | inl good ↦ rw good (same-IsSound db test job _ sound selected (refl, refl, refl, refl))
      | inr bad ↦ rw bad sound
    ]

-- Looking for an address nearby keeps the books sound, whatever the search finds.
pub find_reusable_location-IsSound :
    (p : Platform) (near_by : ReuseSearch) (radius : ℤ) (claim : GeocodeJob)
    (checked now : DateTime) (db : Database)
    → IsSound db
    → KeepsBooks db (find_reusable_location p near_by radius claim checked now db)
unfolding find_reusable_location
find_reusable_location-IsSound p near_by radius claim checked now db sound =
    let (sound₁, found) = claimed-IsSound p claim checked db sound in
    let db₁ = (claimed_geocode_job p claim checked db).1 in
    elim (Bool-cases (bad_radius radius)) [
      | inl bad ↦ rw (bad, find_reusable_location) sound
      | inr good ↦ elim found [
        | inl nothing ↦ rw (good, nothing, find_reusable_location) sound₁
        | inr (job, row, e, selected) ↦
            rw (good, e, find_reusable_location)
              (reuse_found-IsSound near_by now (is_claimed_row claim) job db db₁ _ sound₁ selected)
      ]
    ]
