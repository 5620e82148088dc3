-- ===== src/Worker/Domain.antt =====
-- `Phase1DomainService` as the repository of the geocode processor: the transactions of Geocode, each
-- with its readings of the clock, and the law that they keep the books.
use nektron_moments.Base.{ℕ}
use nektron_moments.Numbers.{ℤ}
use nektron_moments.Platform.{Platform}
use nektron_moments.Clock.{DateTime}
use nektron_moments.Geocode.Claim.{claim_geocode_job}
use nektron_moments.Geocode.Calls.{
  reserve_provider_call, consume_provider_call, complete_geocode, fail_geocode, defer_geocode_quota,
}
use nektron_moments.Geocode.Reuse.{ReuseSearch, find_reusable_location}
use nektron_moments.Geocode.Reusing.{find_reusable_location-IsSound}
use nektron_moments.Geocode.Leasing.{claim_geocode_job-IsSound}
use nektron_moments.Geocode.Reserving.{reserve_provider_call-IsSound}
use nektron_moments.Geocode.Endings.{
  consume_provider_call-IsSound, complete_geocode-IsSound, fail_geocode-IsSound,
  defer_geocode-IsSound,
}
use nektron_moments.Worker.Repository.{GeocodeJobRepository, IsLawful}

-- When the n-th transaction checks its claim, and when it reads the clock again.
pub record Clock : Type 0 where
  pub checked : ℕ → DateTime
  pub now : ℕ → DateTime

unfoldable pub domain_repository : Platform → Clock → ReuseSearch → ℤ → GeocodeJobRepository
domain_repository p clock near_by radius = record {
  claim = λ id message n db. claim_geocode_job p id message (clock.now n) db;
  find_reusable =
      λ job n db. find_reusable_location p near_by radius job (clock.checked n) (clock.now n) db;
  reserve = λ job provider limit n db.
      reserve_provider_call p job provider limit (clock.checked n) (clock.now n) db;
  consume =
      λ job provider n db. consume_provider_call p job provider (clock.checked n) (clock.now n) db;
  complete = λ job found reused n db.
      complete_geocode p job found reused (clock.checked n) (clock.now n) db;
  fail = λ job failure n db. fail_geocode p job failure (clock.checked n) (clock.now n) db;
  defer = λ job failure called n db.
      defer_geocode_quota p job failure called (clock.checked n) (clock.now n) db;
}

-- The service keeps what the processor relies on.
pub domain_repository-IsLawful :
    (p : Platform) (clock : Clock) (near_by : ReuseSearch) (radius : ℤ)
    → IsLawful (domain_repository p clock near_by radius)
unfolding domain_repository
domain_repository-IsLawful p clock near_by radius = record {
  claim_keeps =
      λ id message n db sound. claim_geocode_job-IsSound p id message (clock.now n) db sound;
  find_keeps = λ job n db sound.
      find_reusable_location-IsSound p near_by radius job (clock.checked n) (clock.now n) db sound;
  reserve_keeps = λ job provider limit n db sound.
      reserve_provider_call-IsSound p job provider limit (clock.checked n) (clock.now n) db sound;
  consume_keeps = λ job provider n db sound.
      consume_provider_call-IsSound p job provider (clock.checked n) (clock.now n) db sound;
  complete_keeps = λ job found reused n db sound.
      complete_geocode-IsSound p job found reused (clock.checked n) (clock.now n) db sound;
  fail_keeps = λ job failure n db sound.
      fail_geocode-IsSound p job failure (clock.checked n) (clock.now n) db sound;
  defer_keeps = λ job failure called n db sound.
      defer_geocode-IsSound p job failure called (clock.checked n) (clock.now n) db sound;
}
