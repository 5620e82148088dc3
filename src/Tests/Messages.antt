-- ===== src/Tests/Messages.antt =====
-- The theorems about the queue worker, applied to sample messages.
use nektron_moments.Base.{ℕ, suc, String, ◌≡◌, ◌↔◌, true, none, some, List, [], ◌∷◌}
use nektron_moments.Worker.Message.{Body, object, disposed, retry}
use nektron_moments.Worker.Domain.{Clock, domain_repository}
use nektron_moments.Worker.GeocodeProcessor.{Answer, Setting}
use nektron_moments.Geocode.Reuse.{ReuseSearch}
use nektron_moments.Numbers.{pos}
use nektron_moments.Worker.Handler.{QueueRecord, message, Processor, handler, is_seen}
use nektron_moments.Worker.Batches.{NoRepeats}
use nektron_moments.Worker.Redelivery.{IsDeliveredAgain, handler_answers}
use nektron_moments.Worker.SceneRepository.{domain_scene_repository, domain_scene-KeepsPreviews}
use nektron_moments.Worker.SceneProcessor.{
  SceneAnswer, SceneProvider, SceneSetting, process_scene_message,
}
use nektron_moments.Worker.Previews.{KeepsPreview, process_scene_message_keeps}
use nektron_moments.Tests.Samples.{
  noon, platform, settings, geocode_result, denied, description_database, new_row,
}

-- A clock that stands still.
abbrev clock : Clock
clock = record { checked = λ n. noon; now = λ n. noon }

-- No location nearby.
abbrev nowhere : ReuseSearch
nowhere = record {
  resolved_nearby = λ rows user latitude longitude radius asset. none;
  reverse_geocode_result = λ row. geocode_result;
  can_reuse = λ resolution. true;
}

-- Nothing to use again, a provider that resolves, and no other transactions.
abbrev geocoder : Setting
geocoder = record {
  repository = domain_repository platform clock nowhere (pos 5000000);
  provider = "Amazon";
  reverse_geocode = λ latitude longitude. Answer.resolves geocode_result;
  platform = platform;
  rules = record { rules = []; version = "none" };
  monthly_call_limit = 5;
  others = λ n db. db;
}

abbrev scene_provider : SceneProvider
scene_provider = record {
  provider = "OpenAI";
  model = "m";
  prompt_version = "v";
  detail = "high";
  service_tier = "flex";
  max_words = 20;
  describe = λ url. SceneAnswer.refuses denied true;
}

-- A provider that is denied access after the call.
abbrev describer : SceneSetting
describer = record {
  repository = domain_scene_repository platform settings clock (λ n. new_row);
  provider = scene_provider;
  model_providers = λ model. none;
  preview_url = λ bucket object_key. "https";
  preview_failure = λ bucket object_key. none;
  monthly_call_limit = 100000;
  monthly_usd_limit = 230000000;
  rates = record { input = 2000000; cached_input = 200000; output = 12000000; reservation = 10000 };
  others = λ n db. db;
}

process_scene_message_keeps_example : KeepsPreview (
    process_scene_message describer "message"
      (object (some "Description") (some 11))
      description_database)
process_scene_message_keeps_example =
    process_scene_message_keeps describer
      (domain_scene-KeepsPreviews platform settings clock (λ n. new_row)) "message"
      (object (some "Description") (some 11)) description_database

-- A processor that wants every message again, and counts them.
abbrev refusing : Processor ℕ
refusing id body n = (disposed retry, suc n)

abbrev batch : List QueueRecord
batch =
    message (some "a") Body.malformed
    ∷ message (some "b") Body.malformed
    ∷ message (some "a") Body.malformed
    ∷ []

handler_answers_example :
    NoRepeats (handler platform refusing batch 0).0
    × ((x : String)
        → (is_seen x (handler platform refusing batch 0).0 ≡ true)
          ↔ IsDeliveredAgain platform refusing x batch 0)
handler_answers_example = handler_answers platform refusing batch 0
