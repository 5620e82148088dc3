-- ===== src/Description/Claimed.antt =====
-- `_claimed_description_job`: the check that every later transaction of a claim makes.
use nektron_moments.Base.{
  ℕ, Bool, false, not, ◌&&◌, Option, none, some, ◌==◌, str_eq, if◌then◌else◌, is_some,
}
use nektron_moments.Numbers.{pos, Decimal, finite, not_finite, eq_ℤ}
use nektron_moments.Platform.{Platform}
use nektron_moments.Clock.{DateTime}
use nektron_moments.Settings.{Settings}
use nektron_moments.Records.{
  is_description, ProcessingJob, MediaAsset, is_active, is_local_only, UploadSession, is_completed,
}
use nektron_moments.Store.{Database, first, asset_by_id}
use nektron_moments.Leases.{same_active_lease}
use nektron_moments.Geocode.Claim.{lease_hash}
use nektron_moments.Description.Payload.{DescriptionJob, Payload, read_payload, normalized_mime}
use nektron_moments.Description.Claim.{upload_by_public_id}

-- The `where` clause of `_claimed_description_job`.
unfoldable pub is_claimed_description : DescriptionJob → ProcessingJob → Bool
is_claimed_description claim job =
    (job.public_id == claim.job_id)
    && ((job.user_id == claim.user_id)
        && ((job.media_asset_id == claim.media_asset_id) && is_description job.job_type))

same_amount : Decimal → ℕ → Bool
same_amount (finite x) n = eq_ℤ x (pos n)
same_amount not_finite n = false

-- `request_values == claim_values`
unfoldable pub same_payload : Platform → DescriptionJob → Payload → Bool
unfolding same_amount
same_payload p claim q =
    str_eq q.texts.asset_revision claim.asset_revision
    && (str_eq q.texts.bucket claim.staging_bucket
        && (str_eq q.texts.object_key claim.staging_object_key
            && (str_eq q.texts.preview_sha256 claim.preview_sha256
                && (eq_ℤ q.byte_size (pos claim.preview_byte_size)
                    && (str_eq (normalized_mime p q.texts.mime_type)
                          (normalized_mime p claim.preview_mime_type)
                        && (str_eq q.texts.model claim.model
                            && (str_eq q.texts.prompt_version claim.prompt_version
                                && (str_eq q.texts.detail claim.detail
                                    && (str_eq q.texts.service_tier claim.service_tier
                                        && (eq_ℤ q.max_words (pos claim.max_words)
                                            && (eq_ℤ q.monthly_call_limit
                                                  (pos claim.monthly_call_limit)
                                                && (same_amount q.amounts.monthly_usd_limit
                                                      claim.monthly_usd_limit
                                                    && (same_amount q.amounts.reserved_usd
                                                          claim.reserved_usd
                                                        && (same_amount q.amounts.input_rate
                                                            claim.input_rate
                                                            && (same_amount
                                                            q.amounts.cached_input_rate
                                                            claim.cached_input_rate
                                                            && same_amount q.amounts.output_rate
                                                            claim.output_rate)))))))))))))))

-- The asset and the upload that the claim still stands on.
unfoldable pub still_staged : Platform → DescriptionJob → MediaAsset → UploadSession → Bool
still_staged p claim asset upload =
    (str_eq asset.content_sha256 claim.asset_revision
      && (is_active asset.lifecycle_state
          && (is_local_only asset.storage_state
              && (not (is_some asset.s3_bucket)
                  && (not (is_some asset.original_s3_object_key)
                      && not (is_some asset.preview_s3_object_key))))))
    && ((upload.media_asset_id == claim.media_asset_id)
        && (upload.is_temporary
            && (upload.is_single_part
                && (is_completed upload.status
                    && (str_eq upload.s3_bucket claim.staging_bucket
                        && (str_eq upload.s3_object_key claim.staging_object_key
                            && (str_eq (p.lower upload.checksum_sha256) claim.preview_sha256
                                && (upload.expected_byte_size == claim.preview_byte_size))))))))

unfoldable pub staged_rows :
    Platform
    → DescriptionJob
    → ProcessingJob
    → Option MediaAsset
    → Option UploadSession
    → Option (ProcessingJob × MediaAsset)
unfolding still_staged
staged_rows p claim job (some asset) (some upload) =
    if still_staged p claim asset upload then some (job, asset) else none
staged_rows p claim job _ _ = none

-- `_claimed_description_job`; the upload that it returns is not used by its callers.
unfoldable pub claimed_description_job :
    Platform → Settings → DescriptionJob → DateTime → Database → Option (ProcessingJob × MediaAsset)
unfolding staged_rows same_payload
claimed_description_job p cfg claim now db = elim (first (is_claimed_description claim) db.jobs) [
  | none ↦ none
  | some job ↦
      if same_active_lease (lease_hash p claim.lease_owner) now job
      then elim (read_payload p cfg job.request) [
        | none ↦ none
        | some q ↦
            if same_payload p claim q
            then staged_rows p claim job (asset_by_id job.user_id job.media_asset_id db)
                (upload_by_public_id job.user_id q.upload db)
            else none
      ]
      else none
]
