-- ===== src/Description/Payload.antt =====
-- The payload of a scene-description job: reading it, checking it, and the claim that the worker
-- gets (services/domain/service.py, services/worker/contracts.py).
use nektron_moments.Base.{
  before, only_of, ◌>>=◌, ℕ, String, Bool, true, false, ◌&&◌, ◌||◌, Option, none, some, ltb, leb,
  ◌==◌, str_eq, if◌then◌else◌, truthy, text_length,
}
use nektron_moments.Numbers.{ℤ, pos, negsuc, Decimal, Field, absent, present}
use nektron_moments.Platform.{Platform}
use nektron_moments.Settings.{Settings}
use nektron_moments.Records.{Request, Scene, Staging, ProcessingJob}
use nektron_moments.Cost.{rate_value}
use nektron_moments.Charges.{rate_field}

-- `DescriptionJob`; amounts are millionths of a dollar.
pub record DescriptionJob : Type 0 where
  pub job_id : ℕ
  pub user_id : ℕ
  pub media_asset_id : ℕ
  pub asset_revision : String
  pub staging_bucket : String
  pub staging_object_key : String
  pub preview_sha256 : String
  pub preview_byte_size : ℕ
  pub preview_mime_type : String
  pub model : String
  pub prompt_version : String
  pub detail : String
  pub service_tier : String
  pub max_words : ℕ
  pub monthly_call_limit : ℕ
  pub lease_owner : String
  pub attempt_count : ℕ
  pub max_attempts : ℕ
  pub monthly_usd_limit : ℕ
  pub reserved_usd : ℕ
  pub input_rate : ℕ
  pub cached_input_rate : ℕ
  pub output_rate : ℕ

-- The texts of a payload.
pub record Texts : Type 0 where
  pub asset_revision : String
  pub bucket : String
  pub object_key : String
  pub preview_sha256 : String
  pub mime_type : String
  pub model : String
  pub prompt_version : String
  pub detail : String
  pub service_tier : String

-- The amounts of a payload, each with its setting where the key is missing.
pub record Amounts : Type 0 where
  pub monthly_usd_limit : Decimal
  pub reserved_usd : Decimal
  pub input_rate : Decimal
  pub cached_input_rate : Decimal
  pub output_rate : Decimal

pub record Payload : Type 0 where
  pub texts : Texts
  pub upload : ℕ
  pub byte_size : ℤ
  pub max_words : ℤ
  pub monthly_call_limit : ℤ
  pub amounts : Amounts

read_texts : Platform → Scene → Staging → Option Texts
read_texts p scene staging = do
  revision ← scene.asset_revision
  bucket ← staging.bucket
  object_key ← staging.object_key
  sha256 ← staging.preview_sha256
  mime_type ← staging.preview_mime_type
  model ← scene.model
  prompt_version ← scene.prompt_version
  detail ← scene.detail
  service_tier ← scene.service_tier
  some (record {
    asset_revision = p.lower revision;
    bucket = bucket;
    object_key = object_key;
    preview_sha256 = p.lower sha256;
    mime_type = mime_type;
    model = model;
    prompt_version = prompt_version;
    detail = detail;
    service_tier = service_tier;
  })

read_amounts : Settings → Scene → Option Amounts
unfolding rate_field
read_amounts cfg scene = do
  limit ← rate_field scene.monthly_usd_limit cfg.monthly_usd_limit
  reserved ← rate_field scene.reserved_usd cfg.reserved_usd
  input ← rate_field scene.input_rate cfg.input_rate
  cached ← rate_field scene.cached_input_rate cfg.cached_input_rate
  output ← rate_field scene.output_rate cfg.output_rate
  some (record {
    monthly_usd_limit = limit;
    reserved_usd = reserved;
    input_rate = input;
    cached_input_rate = cached;
    output_rate = output;
  })

-- The `try` block; `none` is any of the four exceptions that it catches.
unfoldable pub read_payload : Platform → Settings → Request → Option Payload
unfolding read_texts read_amounts
read_payload p cfg q = do
  texts ← read_texts p q.scene q.staging
  upload ← q.staging.upload_session_id
  byte_size ← q.staging.preview_byte_size
  max_words ← q.scene.max_words
  limit ← q.scene.monthly_call_limit
  amounts ← read_amounts cfg q.scene
  some (record {
    texts = texts;
    upload = upload;
    byte_size = byte_size;
    max_words = max_words;
    monthly_call_limit = limit;
    amounts = amounts;
  })

-- `HEX_SHA256.fullmatch`
unfoldable pub is_sha256 : String → Bool
unfolding text_length only_of
is_sha256 s = (text_length s == 64) && only_of "0123456789abcdef" s

-- `not s or len(s) > n` fails
unfoldable pub fits : ℕ → String → Bool
fits n s = truthy s && leb (text_length s) n

-- `_normalized_mime`
unfoldable pub normalized_mime : Platform → String → String
unfolding before
normalized_mime p value = p.casefold (p.strip (before ";" value))

-- `SCENE_PREVIEW_MIME_TYPE` and `SCENE_PREVIEW_MAX_BYTES`
abbrev pub scene_preview_mime_type : String
scene_preview_mime_type = "image/jpeg"

abbrev pub scene_preview_max_bytes : ℕ
scene_preview_max_bytes = 26214400

texts_are_valid : Platform → Texts → Bool
unfolding is_sha256 fits normalized_mime
texts_are_valid p t =
    is_sha256 t.asset_revision
    && (is_sha256 t.preview_sha256
        && (fits 63 t.bucket
            && (fits 1024 t.object_key
                && (str_eq (normalized_mime p t.mime_type) scene_preview_mime_type
                    && (fits 128 t.model
                        && (fits 64 t.prompt_version
                            && ((str_eq t.detail "low" || str_eq t.detail "high")
                                && (str_eq t.service_tier "auto"
                                    || (str_eq t.service_tier "default"
                                        || str_eq t.service_tier "flex")))))))))

-- A count of the payload that the checks leave non-negative.
unfoldable pub natural : ℤ → Option ℕ
natural (pos n) = some n
natural (negsuc n) = none

unfoldable pub between : ℕ → ℕ → ℤ → Option ℕ
between low high (pos n) = if leb low n && leb n high then some n else none
between low high (negsuc n) = none

-- `reserved_usd_per_request <= 0` and its bound by a limit that is not zero
reserved_is_valid : ℕ → ℕ → Bool
reserved_is_valid limit reserved = ltb 0 reserved && ((limit == 0) || leb reserved limit)

-- The claim for a payload that passes every check, or none.
unfoldable pub checked_claim : Platform → String → ProcessingJob → Payload → Option DescriptionJob
unfolding texts_are_valid between natural reserved_is_valid rate_value
checked_claim p message job q = do
  byte_size ← between 1 scene_preview_max_bytes q.byte_size
  max_words ← between 8 24 q.max_words
  calls ← natural q.monthly_call_limit
  limit ← rate_value q.amounts.monthly_usd_limit
  reserved ← rate_value q.amounts.reserved_usd
  input ← rate_value q.amounts.input_rate
  cached ← rate_value q.amounts.cached_input_rate
  output ← rate_value q.amounts.output_rate
  if texts_are_valid p q.texts && reserved_is_valid limit reserved
      then some (record {
        job_id = job.public_id;
        user_id = job.user_id;
        media_asset_id = job.media_asset_id;
        asset_revision = q.texts.asset_revision;
        staging_bucket = q.texts.bucket;
        staging_object_key = q.texts.object_key;
        preview_sha256 = q.texts.preview_sha256;
        preview_byte_size = byte_size;
        preview_mime_type = scene_preview_mime_type;
        model = q.texts.model;
        prompt_version = q.texts.prompt_version;
        detail = q.texts.detail;
        service_tier = q.texts.service_tier;
        max_words = max_words;
        monthly_call_limit = calls;
        lease_owner = message;
        attempt_count = job.attempt_count;
        max_attempts = job.max_attempts;
        monthly_usd_limit = limit;
        reserved_usd = reserved;
        input_rate = input;
        cached_input_rate = cached;
        output_rate = output;
      })
      else none

-- The five amounts written back where a key is missing. A value that is there is taken to be spelled
-- as `str` spells it.
is_absent : Field Decimal → Bool
is_absent absent = true
is_absent _ = false

unfoldable pub pin_amounts : ℕ → Amounts → ProcessingJob → ProcessingJob
unfolding is_absent
pin_amounts now a job =
    let s = job.request.scene in
    if is_absent s.monthly_usd_limit
      || (is_absent s.reserved_usd
          || (is_absent s.input_rate || (is_absent s.cached_input_rate || is_absent s.output_rate)))
    then record job {
      request = record job.request {
        scene = record s {
          monthly_usd_limit = present a.monthly_usd_limit;
          reserved_usd = present a.reserved_usd;
          input_rate = present a.input_rate;
          cached_input_rate = present a.cached_input_rate;
          output_rate = present a.output_rate;
        };
      };
      updated_at = now;
    }
    else job
