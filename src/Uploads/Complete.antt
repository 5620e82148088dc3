-- ===== src/Uploads/Complete.antt =====
-- `complete_upload`: the preview is there, so its job is queued.
use nektron_moments.Base.{
  ℕ, String, Bool, true, false, not, ◌&&◌, ◌||◌, Option, none, some, ◌==◌, leb, str_eq,
  if◌then◌else◌, is_some,
}
use nektron_moments.Numbers.{pos}
use nektron_moments.Platform.{Platform}
use nektron_moments.Clock.{DateTime}
use nektron_moments.Records.{
  Status, is_preparing, ProcessingJob, MediaAsset, StorageState, is_local_only, UploadStatus,
  is_completed, UploadSession,
}
use nektron_moments.Leases.{same_text}
use nektron_moments.Store.{
  Database, Error, not_found, conflict, Outcome, done, raised, save, add_job_change, asset_by_id,
}
use nektron_moments.Description.Claim.{upload_by_public_id}
use nektron_moments.Description.Payload.{is_sha256, normalized_mime, scene_preview_mime_type}
use nektron_moments.Jobs.Sweep.{reset_job}
use nektron_moments.Uploads.{is_supported, job_for_upload, write_upload, is_leased}

-- What `head_object` finds
pub record ObjectHead : Type 0 where
  pub byte_size : ℕ
  pub content_type : String
  pub checksum_sha256_hex : String

-- `UploadCompleteCommand`: whether it has parts, and the digest
pub record CompleteCommand : Type 0 where
  pub has_parts : Bool
  pub object_sha256 : String

-- `UploadCompleteRecord` and the job to dispatch, if there is one
pub record Completed : Type 0 where
  pub media_asset_id : ℕ
  pub storage_state : StorageState
  pub processing_job : ℕ
  pub dispatch : Option ℕ

-- `_assert_local_asset_has_no_remote_locator` does not raise.
unfoldable pub has_no_remote : MediaAsset → Bool
has_no_remote asset =
    is_local_only asset.storage_state
    && not (
        is_some asset.s3_bucket
        || (is_some asset.original_s3_object_key
            || (is_some asset.preview_s3_object_key || asset.has_object_details)))

-- The object that was found is the preview that was planned, or why it is not.
unfoldable pub object_refusal : Platform → UploadSession → Option ObjectHead → Option Error
object_refusal p upload none = some (conflict "UploadedObjectNotFound")
object_refusal p upload (some head) =
    if not (head.byte_size == upload.expected_byte_size)
    then some (conflict "UploadedObjectSizeMismatch")
    else if not (str_eq (normalized_mime p head.content_type) scene_preview_mime_type)
    then some (conflict "UploadedObjectTypeMismatch")
    else if not (str_eq (p.lower head.checksum_sha256_hex) (p.lower upload.checksum_sha256))
    then some (conflict "UploadedObjectChecksumMismatch")
    else none

unfoldable pub is_uploading : UploadStatus → Bool
is_uploading UploadStatus.uploading = true
is_uploading _ = false

-- Why an upload whose asset and job are known may not be completed now.
unfoldable pub complete_refusal :
    Platform
    → DateTime
    → UploadSession
    → MediaAsset
    → ProcessingJob
    → Option ObjectHead
    → Option Error
unfolding is_uploading is_leased object_refusal has_no_remote
complete_refusal p now upload asset job head =
    if not (is_uploading upload.status && is_leased upload)
    then some (conflict "UploadNotCompletable")
    else if leb upload.expires_at now
    then some (conflict "UploadLeaseExpired")
    else if same_text job.provider "OpenAI-BYOK"
    then some (conflict "ByokRequiresDirectProcessing")
    else if not (is_preparing job.status)
    then some (conflict "ProcessingJobNotPreparing")
    else (elim (object_refusal p upload head) [
      | some e ↦ some e
      | none ↦
          if has_no_remote asset then none else some (conflict "LocalAssetRemoteLocatorUnexpected")
    ])

-- The assignments to the upload.
unfoldable pub completed_upload : DateTime → ℕ → UploadSession → UploadSession
completed_upload now byte_size upload = record upload {
  status = UploadStatus.completed;
  active_lease_marker = none;
  uploaded_byte_size = byte_size;
  completed_at = some now;
  failure_code = none;
  updated_at = now;
}

-- `request_json.update`; `sourceId`, which the worker does not read, is left out.
unfoldable pub staged_job : Platform → UploadSession → MediaAsset → ProcessingJob → ProcessingJob
staged_job p upload asset job = record job {
  request = record job.request {
    scene = record job.request.scene { asset_revision = some (p.lower asset.content_sha256) };
    staging = record {
      bucket = some upload.s3_bucket;
      object_key = some upload.s3_object_key;
      preview_sha256 = some (p.lower upload.checksum_sha256);
      preview_checksum_sha256 = upload.s3_checksum_value;
      preview_byte_size = some (pos upload.expected_byte_size);
      preview_mime_type = some scene_preview_mime_type;
      upload_session_id = some upload.public_id;
      occurrence_id = upload.occurrence;
    };
  };
}

-- The job is staged, queued and due.
unfoldable pub queue_staged :
    Platform → DateTime → UploadSession → MediaAsset → ProcessingJob → ProcessingJob
unfolding staged_job reset_job
queue_staged p now upload asset job = record (reset_job now (staged_job p upload asset job)) {
  status = Status.queued;
  next_attempt_at = some now;
  started_at = none;
}

-- From the check of the upload's status on.
unfoldable pub complete_with :
    Platform
    → DateTime
    → UploadSession
    → MediaAsset
    → ProcessingJob
    → Option ObjectHead
    → Database
    → Outcome Completed
unfolding complete_refusal completed_upload queue_staged write_upload
complete_with p now upload asset job head db =
    if is_completed upload.status
    then done
        (record {
          media_asset_id = asset.public_id;
          storage_state = asset.storage_state;
          processing_job = job.public_id;
          dispatch = none;
        })
        db
    else (elim (complete_refusal p now upload asset job head) [
      | some e ↦ raised e
      | none ↦
          let job' = queue_staged p now upload asset job in
          done
            (record {
              media_asset_id = asset.public_id;
              storage_state = StorageState.local_only;
              processing_job = job.public_id;
              dispatch = some job.public_id;
            })
            (add_job_change now job' (
              save (db.usage, job')
                (write_upload (completed_upload now upload.expected_byte_size upload) db)))
    ])

-- Why a command is refused before the job is looked for.
unfoldable pub command_refusal : Platform → CompleteCommand → UploadSession → Option Error
unfolding is_supported
command_refusal p command upload =
    if not (is_supported upload)
    then some (conflict "UploadSessionNotSupported")
    else if command.has_parts
    then some (conflict "MultipartNotSupported")
    else if not (is_sha256 (p.lower command.object_sha256))
    then some (conflict "InvalidObjectHash")
    else if not (str_eq (p.lower command.object_sha256) (p.lower upload.checksum_sha256))
    then some (conflict "ObjectHashMismatch")
    else none

unfoldable pub complete_found :
    Platform
    → ℕ
    → DateTime
    → CompleteCommand
    → Option ObjectHead
    → UploadSession
    → Database
    → Outcome Completed
unfolding command_refusal job_for_upload complete_with
complete_found p user now command head upload db = elim (command_refusal p command upload) [
  | some e ↦ raised e
  | none ↦ elim (asset_by_id user upload.media_asset_id db) [
    | none ↦ raised (not_found "MediaNotFound")
    | some asset ↦ elim (job_for_upload user upload db) [
      | raised e ↦ raised e
      | done job db' ↦ complete_with p now upload asset job head db'
    ]
  ]
]

-- The `action` of `complete_upload`; `head` is what the store finds at the upload's place.
unfoldable pub complete_upload :
    Platform → ℕ → ℕ → DateTime → CompleteCommand → Option ObjectHead → Database → Outcome Completed
unfolding complete_found
complete_upload p user id now command head db = elim (upload_by_public_id user id db) [
  | none ↦ raised (not_found "UploadSessionNotFound")
  | some upload ↦ complete_found p user now command head upload db
]
