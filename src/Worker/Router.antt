-- ===== src/Worker/Router.antt =====
-- Routing of the shared queue: `EnrichmentMessageRouter` and `DueJobMessageProcessor`
-- (services/worker/processor.py).
use nektron_moments.Base.{
  ℕ, String, Option, none, some, List, [], ◌∷◌, if◌then◌else◌, inl, inr, Bool-cases, Option-cases,
}
use nektron_moments.Platform.{Platform}
use nektron_moments.Settings.{Settings}
use nektron_moments.Clock.{DateTime}
use nektron_moments.Store.{Database, Outcome, done, raised, committed}
use nektron_moments.Soundness.{IsSound}
use nektron_moments.Jobs.Redispatch.{redispatch_due_jobs}
use nektron_moments.Jobs.Recovering.{redispatch_due_jobs-IsSound}
use nektron_moments.Worker.Message.{
  Body, malformed, object, Ended, disposed, invalid_message, failed, ack, is_type,
}
use nektron_moments.Worker.Handler.{
  QueueRecord, invalid, message, Processor, message_id_of, handle_message, handle_record,
  handle_records,
}

after_sweep : {A : Type 0} → Database → Outcome A → Ended × Database
after_sweep db (raised e) = (failed e, db)
after_sweep db (done a db') = (disposed ack, db')

-- `DueJobMessageProcessor.process_message`
unfoldable pub process_due_jobs : Settings → ℕ → DateTime → Processor Database
unfolding is_type after_sweep
process_due_jobs cfg limit now id malformed db = (invalid_message, db)
process_due_jobs cfg limit now id (object type job) db =
    if is_type "RetryDueJobs" type
    then after_sweep db (redispatch_due_jobs cfg limit now db)
    else (invalid_message, db)

-- The due-job processor of a router that may have none
unfoldable pub route_due : {S : Type 0} → Option (Processor S) → Processor S
route_due none id body s = (invalid_message, s)
route_due (some process) id body s = process id body s

-- `EnrichmentMessageRouter.process_message`
unfoldable pub route : {S : Type 0} → Processor S → Processor S → Option (Processor S) → Processor S
unfolding is_type route_due
route geocode description due id malformed s = (invalid_message, s)
route geocode description due id (object type job) s =
    if is_type "Geocode" type
    then geocode id (object type job) s
    else if is_type "Description" type
    then description id (object type job) s
    else if is_type "RetryDueJobs" type
    then route_due due id (object type job) s
    else (invalid_message, s)

-- Processing any message keeps a property of the state.
abbrev pub KeepsState : {S : Type 0} → (S → Type 0) → Processor S → Type 0
KeepsState {S = S} P process = (id : String) (body : Body) (s : S) → P s → P (process id body s).1

pub process_due_jobs-IsSound :
    (cfg : Settings) (limit : ℕ) (now : DateTime)
    → KeepsState IsSound (process_due_jobs cfg limit now)
unfolding process_due_jobs
process_due_jobs-IsSound cfg limit now id malformed db sound = sound
process_due_jobs-IsSound cfg limit now id (object type job) db sound =
    elim (Bool-cases (is_type "RetryDueJobs" type)) [
      | inl due ↦ rw due (
          swept (redispatch_due_jobs cfg limit now db)
            (redispatch_due_jobs-IsSound cfg limit now db sound))
      | inr other ↦ rw other sound
    ]
  where
    swept : {A : Type 0} (o : Outcome A) → IsSound (committed db o) → IsSound (after_sweep db o).1
    swept (raised e) h = h
    swept (done a db') h = h

module _ {S : Type 0} (P : S → Type 0) where
  pub route-KeepsState :
      (geocode description : Processor S) (due : Option (Processor S))
      → KeepsState P geocode
      → KeepsState P description
      → KeepsState P (route_due due)
      → KeepsState P (route geocode description due)
  unfolding route
  route-KeepsState geocode description due g d r id malformed s h = h
  route-KeepsState geocode description due g d r id (object type job) s h =
      elim (Bool-cases (is_type "Geocode" type)) [
        | inl place ↦ rw place (g id (object type job) s h)
        | inr not_place ↦ elim (Bool-cases (is_type "Description" type)) [
          | inl scene ↦ rw (not_place, scene) (d id (object type job) s h)
          | inr not_scene ↦ elim (Bool-cases (is_type "RetryDueJobs" type)) [
            | inl sweep ↦ rw (not_place, not_scene, sweep) (r id (object type job) s h)
            | inr other ↦ rw (not_place, not_scene, other) h
          ]
        ]
      ]

  -- A batch keeps what the processing of each of its messages keeps.
  pub handler_keeps :
      (p : Platform) (process : Processor S) (rs : List QueueRecord) (failures : List String)
      (s : S)
      → KeepsState P process
      → P s
      → P (handle_records p process rs (failures, s)).1
  unfolding handle_records handle_record handle_message
  handler_keeps p process [] failures s keeps h = h
  handler_keeps p process (invalid ∷ rs) failures s keeps h =
      handler_keeps p process rs failures s keeps h
  handler_keeps p process (message id body ∷ rs) failures s keeps h =
      elim (Option-cases (message_id_of p id)) [
        | inl nameless ↦
            rw (nameless, handle_records, handle_record)
              (handler_keeps p process rs failures s keeps h)
        | inr (name, named) ↦
            let after = handle_message process name body (failures, s) in
            rw (named, handle_records, handle_record)
              (handler_keeps p process rs after.0 after.1 keeps (keeps name body s h))
      ]
