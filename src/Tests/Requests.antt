-- ===== src/Tests/Requests.antt =====
-- The theorems about requests of the API, applied to sample requests.
use nektron_moments.Base.{
  ℕ, suc, ◌+◌, ◌≡◌, refl, true, false, none, some, List, [], ◌∷◌, arith, text_length, only_of,
  has_character,
}
use nektron_moments.Records.{Status, UploadStatus}
use nektron_moments.Store.{Database, first}
use nektron_moments.Soundness.{IsSound}
use nektron_moments.Description.Payload.{is_sha256}
use nektron_moments.Mutations.{
  MutationContext, IdempotencyRecord, MutationResult, Tried, returned, mutation, is_valid_context,
  is_record_of, reserve, fresh_record, run_action, put_record,
}
use nektron_moments.Mutations.Replays.{mutation_replays}
use nektron_moments.Geocode.Books.{KeepsBooks}
use nektron_moments.Uploads.{cancel_upload, expire_temporary_uploads}
use nektron_moments.Uploads.Complete.{ObjectHead, CompleteCommand, complete_upload}
use nektron_moments.Uploads.Books.{uploads_keep_books}
use nektron_moments.Tests.Samples.{
  noon, platform, description_database, describing, description_balanced, upload,
}

abbrev context : MutationContext
context = record {
  idempotency_key = "k";
  request_hash = "0123456789abcdef0123456789abcdef0123456789abcdef0123456789abcdef";
  operation = "POST";
  target = "/v1/jobs/retry";
}

-- A counter that the action raises.
abbrev raise : ℕ → Tried (ℕ × ℕ) ℕ
raise n = returned (n, 202) (suc n)

abbrev answer : MutationResult ℕ
answer = record { value = 4; status_code = 202; replayed = false }

abbrev kept : List (IdempotencyRecord ℕ)
kept =
    record {
      user_id = 7;
      idempotency_key = "k";
      http_method = "POST";
      route_pattern = "/v1/jobs/retry";
      request_sha256 = "0123456789abcdef0123456789abcdef0123456789abcdef0123456789abcdef";
      response_status = some 202;
      response_value = some 4;
      expires_at = noon + 1000;
      created_at = noon;
      updated_at = noon;
    }
    ∷ []

first_run :
    mutation platform 1000 (λ n. n) (λ n. n) 7 context noon raise (4, [])
    ≡ returned answer (5, kept)
unfolding mutation is_valid_context is_sha256 text_length only_of has_character reserve first
    fresh_record run_action put_record
first_run = refl

-- Another user's record has come in between.
abbrev later : List (IdempotencyRecord ℕ)
later =
    record {
      user_id = 8;
      idempotency_key = "k";
      http_method = "POST";
      route_pattern = "/v1/jobs/cancel";
      request_sha256 = "0123456789abcdef0123456789abcdef0123456789abcdef0123456789abcdef";
      response_status = none;
      response_value = none;
      expires_at = noon + 1500;
      created_at = noon + 500;
      updated_at = noon + 500;
    }
    ∷ kept

mutation_replays_example :
    mutation platform 1000 (λ n. n) (λ n. n) 7 context (noon + 999) raise (9, later)
    ≡ returned (record answer { replayed = true }) (9, later)
unfolding first is_record_of
mutation_replays_example =
    mutation_replays platform 1000 (λ n. n) (λ n. n) 7 context noon (noon + 999) raise raise 4 5 9
      [] kept later answer (λ n. refl) first_run refl (omega arith) refl

abbrev preview : ObjectHead
preview = record {
  byte_size = 9;
  content_type = "image/jpeg";
  checksum_sha256_hex = "0123456789abcdef0123456789abcdef0123456789abcdef0123456789abcdef";
}

abbrev command : CompleteCommand
command = record {
  has_parts = false;
  object_sha256 = "0123456789abcdef0123456789abcdef0123456789abcdef0123456789abcdef";
}

-- An upload that is under way, of a description that waits for it.
abbrev uploading_database : Database
uploading_database = record description_database {
  jobs = record describing { status = Status.preparing } ∷ [];
  uploads =
      record upload {
        status = UploadStatus.uploading;
        active_lease_marker = some 1;
        checksum_sha256 = "0123456789abcdef0123456789abcdef0123456789abcdef0123456789abcdef";
        expires_at = noon + 1000;
      }
      ∷ [];
}

uploading_database-IsSound : IsSound uploading_database
uploading_database-IsSound = record {
  distinct = (tt, tt);
  whole = (
    record { usage_whole = λ held. refl; cost_whole = λ held. refl; cost_usd = λ held. refl },
    tt,
  );
  balanced = λ k. omega (arith, description_balanced k);
}

uploads_keep_books_example :
    KeepsBooks uploading_database
      (complete_upload platform 7 21 noon command (some preview) uploading_database)
    × KeepsBooks uploading_database (cancel_upload 7 21 noon uploading_database)
    × KeepsBooks uploading_database (expire_temporary_uploads 7 noon uploading_database)
uploads_keep_books_example =
    uploads_keep_books platform 7 21 noon command (some preview) uploading_database
      uploading_database-IsSound
