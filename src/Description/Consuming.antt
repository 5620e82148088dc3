-- ===== src/Description/Consuming.antt =====
-- Charging a description's request before the network call keeps the books.
use nektron_moments.Base.{true, String, refl, inl, inr, Bool-cases}
use nektron_moments.Platform.{Platform}
use nektron_moments.Clock.{DateTime}
use nektron_moments.Settings.{Settings}
use nektron_moments.Reservations.{settle_provider_reservation}
use nektron_moments.Store.{Database}
use nektron_moments.Leases.{same_text}
use nektron_moments.Soundness.{IsSound}
use nektron_moments.Geocode.Books.{KeepsBooks, settled-IsSound}
use nektron_moments.Geocode.Calls.{is_held_for}
use nektron_moments.Description.Payload.{DescriptionJob}
use nektron_moments.Description.Claimed.{is_claimed_description}
use nektron_moments.Description.Calls.{consumption_of, consume_description_provider_call}
use nektron_moments.Description.Endings.{claimed_description_cases}

-- Consuming the reserved call of a description, with the record of what was consumed, keeps the books
-- sound, also when nothing is held for the provider and when it raises.
pub consume_description-IsSound :
    (p : Platform) (cfg : Settings) (claim : DescriptionJob) (provider : String)
    (checked now : DateTime) (db : Database)
    → IsSound db
    → KeepsBooks db (consume_description_provider_call p cfg claim provider checked now db)
unfolding consume_description_provider_call
consume_description-IsSound p cfg claim provider checked now db sound =
    elim (claimed_description_cases p cfg claim checked db) [
      | inl nothing ↦ rw (nothing, consume_description_provider_call) sound
      | inr (job, asset, selected, held, e) ↦
          let settled = settle_provider_reservation true now db.usage job in
          let job' = record settled.1 {
            request = record settled.1.request {
              consumption = consumption_of provider now job.request.usage_reservation;
            };
            updated_at = now;
          } in
          elim (Bool-cases (same_text job.provider provider)) [
            | inr other ↦ simp (e, other, consume_description_provider_call) sound
            | inl same ↦ elim (Bool-cases (is_held_for provider job.request.usage_reservation)) [
              | inr nothing_held ↦
                  simp (e, same, nothing_held, consume_description_provider_call) sound
              | inl is_held ↦
                  simp (e, same, is_held, consume_description_provider_call)
                    (settled-IsSound db (is_claimed_description claim) job job' settled.0 true now
                      sound selected (refl, refl, refl, refl) (λ k. refl))
            ]
          ]
    ]
