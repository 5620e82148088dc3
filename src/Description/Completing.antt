-- ===== src/Description/Completing.antt =====
-- Completing a description keeps the books: with a result that is accepted, one that is refused, and
-- one whose cost cannot be computed.
use nektron_moments.Base.{◌≡◌, refl, Bool, true, some, inl, inr, Bool-cases}
use nektron_moments.Platform.{Platform}
use nektron_moments.Clock.{DateTime}
use nektron_moments.Settings.{Settings}
use nektron_moments.Records.{ProcessingJob, MediaAsset, Status}
use nektron_moments.Cost.{Calculation, raises, unavailable, charge}
use nektron_moments.Charges.{cost_calculation}
use nektron_moments.Store.{Database, first, save, add_job_change}
use nektron_moments.Soundness.{IsSound, add_job_change-IsSound}
use nektron_moments.Leases.{settle_job}
use nektron_moments.Geocode.Books.{KeepsBooks}
use nektron_moments.Geocode.Endings.{rows-IsSound}
use nektron_moments.Description.Payload.{DescriptionJob}
use nektron_moments.Description.Claim.{finish_description_job}
use nektron_moments.Description.Claimed.{is_claimed_description}
use nektron_moments.Description.Calls.{SceneResult, NewRow}
use nektron_moments.Description.Results.{
  settle_both, refuse_result, accept_result, add_description_change, complete_with,
  complete_description, is_valid_result,
}
use nektron_moments.Description.Books.{settled_both-IsSound}
use nektron_moments.Description.Endings.{claimed_description_cases}

refuse_result-IsSound :
    (cfg : Settings) (now : DateTime) (test : ProcessingJob → Bool) (job : ProcessingJob)
    (db : Database)
    → IsSound db
    → first test db.jobs ≡ some job
    → IsSound (refuse_result cfg now job db)
unfolding refuse_result settle_job
refuse_result-IsSound cfg now test job db sound e = add_job_change-IsSound now _ _ (
    settled_both-IsSound cfg db test job _ _ true true unavailable now sound e
      (refl, refl, refl, refl) (λ k. refl))

accept_result-IsSound :
    (cfg : Settings) (row : NewRow) (calc : Calculation) (now : DateTime)
    (test : ProcessingJob → Bool) (job : ProcessingJob) (asset : MediaAsset) (result : SceneResult)
    (db : Database)
    → IsSound db
    → first test db.jobs ≡ some job
    → IsSound (accept_result cfg row calc now job asset result db)
unfolding accept_result add_description_change finish_description_job settle_job add_job_change save
accept_result-IsSound cfg row calc now test job asset result db sound e =
    let (l, settled) = settle_both cfg true true calc now db.usage job in
    let job' = finish_description_job Status.succeeded now settled in
    let sound' : IsSound (save (l, job') db) =
      settled_both-IsSound cfg db test job job' l true true calc now sound e
        (refl, refl, refl, refl) (λ k. refl) in
    add_job_change-IsSound now job' _ (rows-IsSound (save (l, job') db) _ refl refl sound')

complete_with-IsSound :
    (cfg : Settings) (row : NewRow) (calc : Calculation) (now : DateTime)
    (test : ProcessingJob → Bool) (job : ProcessingJob) (asset : MediaAsset) (result : SceneResult)
    (db : Database)
    → IsSound db
    → first test db.jobs ≡ some job
    → KeepsBooks db (complete_with cfg row calc now job asset result db)
unfolding complete_with
complete_with-IsSound cfg row raises now test job asset result db sound e = sound
complete_with-IsSound cfg row unavailable now test job asset result db sound e =
    accept_result-IsSound cfg row unavailable now test job asset result db sound e
complete_with-IsSound cfg row (charge c u) now test job asset result db sound e =
    accept_result-IsSound cfg row (charge c u) now test job asset result db sound e

-- Completing a description keeps the books sound, whether the result is accepted, refused as invalid,
-- or raises.
pub complete_description-IsSound :
    (p : Platform) (cfg : Settings) (claim : DescriptionJob) (result : SceneResult) (row : NewRow)
    (checked now : DateTime) (db : Database)
    → IsSound db
    → KeepsBooks db (complete_description p cfg claim result row checked now db)
unfolding complete_description
complete_description-IsSound p cfg claim result row checked now db sound =
    elim (claimed_description_cases p cfg claim checked db) [
      | inl nothing ↦ rw (nothing, complete_description) sound
      | inr (job, asset, selected, held, e) ↦
          elim (Bool-cases (is_valid_result p claim job result)) [
            | inl good ↦
                simp (e, good, complete_description)
                  (complete_with-IsSound cfg row (cost_calculation cfg result.usage job) now
                    (is_claimed_description claim) job asset result db sound selected)
            | inr bad ↦
                simp (e, bad, complete_description)
                  (refuse_result-IsSound cfg now (is_claimed_description claim) job db sound
                    selected)
          ]
    ]
