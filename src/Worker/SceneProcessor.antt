-- ===== src/Worker/SceneProcessor.antt =====
-- `DescriptionMessageProcessor`: one message, as a sequence of transactions between which other
-- transactions of the service may run.
use nektron_moments.Base.{
  ℕ, String, Bool, true, false, ◌&&◌, Option, none, some, ◌==◌, str_eq, if◌then◌else◌,
}
use nektron_moments.Records.{FailureClass, is_quota, JobFailure}
use nektron_moments.Store.{Database, Outcome, done, raised}
use nektron_moments.Description.Payload.{DescriptionJob}
use nektron_moments.Description.Calls.{Cleanup, SceneResult}
use nektron_moments.Worker.Message.{
  Body, ack, retry, Ended, disposed, invalid_message, failed, job_id_from_body,
}
use nektron_moments.Worker.Repository.{Transaction}
use nektron_moments.Worker.SceneRepository.{DescriptionJobRepository}

-- What `describe` gives: a result, or the failure of a `SceneDescriptionProviderError`, with its
-- `provider_called`.
pub data SceneAnswer : Type 0 where
  describes : SceneResult → SceneAnswer
  refuses : JobFailure → Bool → SceneAnswer

-- `OpenAISceneDescriptionProvider`, for a preview's address
pub record SceneProvider : Type 0 where
  pub provider : String
  pub model : String
  pub prompt_version : String
  pub detail : String
  pub service_tier : String
  pub max_words : ℕ
  pub describe : String → SceneAnswer

-- The rates of a model and the reservation for a call, in millionths
pub record ModelRates : Type 0 where
  pub input : ℕ
  pub cached_input : ℕ
  pub output : ℕ
  pub reservation : ℕ

-- `SCENE_MODEL_RATES`
unfoldable pub scene_model_rates : String → Option ModelRates
scene_model_rates model =
    if str_eq model "gpt-5.6-terra"
    then some
        (record { input = 2000000; cached_input = 200000; output = 12000000; reservation = 10000 })
    else if str_eq model "gpt-5.6-luna"
    then some
        (record { input = 200000; cached_input = 20000; output = 1200000; reservation = 10000 })
    else if str_eq model "gpt-5.6-sol"
    then some
        (record { input = 4000000; cached_input = 400000; output = 20000000; reservation = 20000 })
    else none

-- The constructor's arguments. The preview store gives an address or the failure of a
-- `ScenePreviewStoreError`; whether it then deletes an object is not seen. `others` is what other
-- transactions make of the database before this processor's n-th.
pub record SceneSetting : Type 0 where
  pub repository : DescriptionJobRepository
  pub provider : SceneProvider
  pub model_providers : String → Option SceneProvider
  pub preview_url : String → String → String
  pub preview_failure : String → String → Option JobFailure
  pub monthly_call_limit : ℕ
  pub monthly_usd_limit : ℕ
  pub rates : ModelRates
  pub others : ℕ → Database → Database

-- How the processing ends, the database, and whether the preview's deletion was requested.
pub record SceneRun : Type 0 where
  pub ended : Ended
  pub database : Database
  pub deleted : Bool

unfoldable pub stop : Ended → Bool → Database → SceneRun
stop ended deleted db = record { ended = ended; database = db; deleted = deleted }

unfoldable pub proceed : {A : Type 0} → Database → Outcome A → (A → Database → SceneRun) → SceneRun
unfolding stop
proceed before (raised e) rest = stop (failed e) false before
proceed before (done a db) rest = rest a db

unfoldable pub transact :
    {A : Type 0}
    → SceneSetting
    → ℕ
    → Transaction A
    → Database
    → (A → Database → SceneRun)
    → SceneRun
unfolding proceed
transact s n t db rest = let before = s.others n db in proceed before (t n before) rest

-- `decision is DELETE`
unfoldable pub deletes : Cleanup → Bool
deletes Cleanup.delete = true
deletes Cleanup.retain = false

-- `_cleanup_if_safe` before the message is acknowledged.
unfoldable pub cleaned : Cleanup → Database → SceneRun
unfolding stop deletes
cleaned cleanup db = stop (disposed ack) (deletes cleanup) db

-- `failure_class in {AUTHENTICATION, INTERNAL}`
unfoldable pub cleans_up : FailureClass → Bool
cleans_up FailureClass.authentication = true
cleans_up FailureClass.internal = true
cleans_up _ = false

-- What `_handle_failure` returns for the outcome of `fail_description`.
unfoldable pub after_failing : JobFailure → Bool × Cleanup → Database → SceneRun
unfolding stop deletes cleans_up
after_failing failure (requested, cleanup) db =
    stop (disposed (if failure.retryable && requested then retry else ack))
      (cleans_up failure.failure_class && deletes cleanup) db

-- `_handle_failure`
unfoldable pub handle_failure :
    SceneSetting → ℕ → DescriptionJob → JobFailure → Bool → Database → SceneRun
unfolding transact cleaned after_failing
handle_failure s n job failure called db =
    if is_quota failure.failure_class
    then transact s n (s.repository.defer job failure called) db cleaned
    else transact s n (s.repository.fail job failure called) db (after_failing failure)

-- The job's model is another one that the processor has a provider and rates for.
unfoldable pub chosen_provider : SceneSetting → String → SceneProvider × ModelRates
unfolding scene_model_rates
chosen_provider s model =
    if str_eq model s.provider.model
    then (s.provider, s.rates)
    else (elim (s.model_providers model) [
      | none ↦ (s.provider, s.rates)
      | some provider ↦ elim (scene_model_rates model) [
        | none ↦ (s.provider, s.rates)
        | some rates ↦ (provider, rates)
      ]
    ])

-- No value of the claim differs from the configuration.
unfoldable pub same_configuration :
    SceneSetting → SceneProvider → ModelRates → DescriptionJob → Bool
same_configuration s provider rates job =
    str_eq job.model provider.model
    && (str_eq job.prompt_version provider.prompt_version
        && (str_eq job.detail provider.detail
            && (str_eq job.service_tier provider.service_tier
                && ((job.max_words == provider.max_words)
                    && ((job.monthly_call_limit == s.monthly_call_limit)
                        && ((job.monthly_usd_limit == s.monthly_usd_limit)
                            && ((job.reserved_usd == rates.reservation)
                                && ((job.input_rate == rates.input)
                                    && ((job.cached_input_rate == rates.cached_input)
                                        && (job.output_rate == rates.output))))))))))

abbrev pub configuration_failure : JobFailure
configuration_failure = record {
  failure_class = FailureClass.internal;
  code = "SceneDescriptionConfigurationChanged";
  user_message = "Scene description configuration changed; request it again.";
  retryable = false;
}

abbrev pub limit_failure : JobFailure
limit_failure = record {
  failure_class = FailureClass.quota;
  code = "MonthlySceneDescriptionLimitReached";
  user_message = "Scene description is waiting for the monthly provider quota.";
  retryable = false;
}

-- What follows the call of `describe`.
unfoldable pub after_describing : SceneSetting → DescriptionJob → SceneAnswer → Database → SceneRun
unfolding handle_failure transact cleaned
after_describing s job (refuses why called) db = handle_failure s 3 job why called db
after_describing s job (describes found) db =
    transact s 3 (s.repository.complete job found) db cleaned

unfoldable pub after_consuming :
    SceneSetting → DescriptionJob → SceneProvider → Bool → Database → SceneRun
unfolding after_describing stop
after_consuming s job provider true db =
    after_describing s job
      (provider.describe (s.preview_url job.staging_bucket job.staging_object_key)) db
after_consuming s job provider false db = stop (disposed ack) false db

unfoldable pub after_reserving :
    SceneSetting → DescriptionJob → SceneProvider → Bool → Database → SceneRun
unfolding after_consuming transact cleaned
after_reserving s job provider true db =
    transact s 2 (s.repository.consume job s.provider.provider) db (after_consuming s job provider)
after_reserving s job provider false db =
    transact s 2 (s.repository.defer job limit_failure false) db cleaned

-- From the address of the preview on.
unfoldable pub after_check : SceneSetting → DescriptionJob → SceneProvider → Database → SceneRun
unfolding after_reserving handle_failure transact
after_check s job provider db = elim (s.preview_failure job.staging_bucket job.staging_object_key) [
  | some why ↦ handle_failure s 1 job why false db
  | none ↦
      transact s 1 (s.repository.reserve job s.provider.provider s.monthly_call_limit) db
        (after_reserving s job provider)
]

-- The outcome's preview is cleaned up, and the message is acknowledged.
unfoldable pub acknowledge : Bool × Cleanup → Database → SceneRun
unfolding cleaned
acknowledge (requested, cleanup) db = cleaned cleanup db

unfoldable pub after_claim : SceneSetting → Option DescriptionJob → Database → SceneRun
unfolding chosen_provider same_configuration after_check transact acknowledge stop
after_claim s none db = stop (disposed ack) false db
after_claim s (some job) db =
    let (provider, rates) = chosen_provider s job.model in
    if same_configuration s provider rates job
    then after_check s job provider db
    else transact s 1 (s.repository.fail job configuration_failure false) db acknowledge

-- `process_message`
unfoldable pub process_scene_message : SceneSetting → String → Body → Database → SceneRun
unfolding after_claim transact stop
process_scene_message s message_id body db = elim (job_id_from_body "Description" body) [
  | none ↦ stop invalid_message false db
  | some id ↦ transact s 0 (s.repository.claim id message_id) db (after_claim s)
]
