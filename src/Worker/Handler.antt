-- ===== src/Worker/Handler.antt =====
-- `handler`: a batch of queue records, and the partial-batch response.
use nektron_moments.Base.{
  String, Bool, true, false, not, ◌&&◌, ◌||◌, Option, none, some, List, [], ◌∷◌, ◌++◌, str_eq,
  if◌then◌else◌, truthy,
}
use nektron_moments.Platform.{Platform}
use nektron_moments.Worker.Message.{Body, Ended, disposed, invalid_message, failed, ack, retry}

-- A record of the event: its `messageId`, if that is a text, and its body. `invalid` is no object.
pub data QueueRecord : Type 0 where
  invalid : QueueRecord
  message : Option String → Body → QueueRecord

-- The message id of a record that is processed.
unfoldable pub message_id_of : Platform → Option String → Option String
message_id_of p none = none
message_id_of p (some id) = if truthy (p.strip id) then some (p.strip id) else none

-- The disposition is `RETRY`, whether returned or for an unexpected exception.
unfoldable pub wants_retry : Ended → Bool
wants_retry (disposed ack) = false
wants_retry (disposed retry) = true
wants_retry invalid_message = false
wants_retry (failed e) = true

-- `message_id in seen_failures`
unfoldable pub is_seen : String → List String → Bool
is_seen id [] = false
is_seen id (x ∷ xs) = str_eq x id || is_seen id xs

-- A processor with the state that it changes.
abbrev pub Processor : Type 0 → Type 0
Processor S = String → Body → S → Ended × S

-- One message; `failures` are the item identifiers so far, which are the seen failures too.
unfoldable pub handle_message :
    {S : Type 0} → Processor S → String → Body → List String × S → List String × S
unfolding wants_retry is_seen
handle_message process id body (failures, s) =
    let (ended, s') = process id body s in
    (if wants_retry ended && not (is_seen id failures) then failures ++ id ∷ [] else failures, s')

unfoldable pub handle_record :
    {S : Type 0} → Platform → Processor S → QueueRecord → List String × S → List String × S
unfolding handle_message message_id_of
handle_record p process invalid state = state
handle_record p process (message id body) state = elim (message_id_of p id) [
  | none ↦ state
  | some id ↦ handle_message process id body state
]

-- The loop over the records.
unfoldable pub handle_records :
    {S : Type 0} → Platform → Processor S → List QueueRecord → List String × S → List String × S
unfolding handle_record
handle_records p process [] state = state
handle_records p process (r ∷ rs) state =
    handle_records p process rs (handle_record p process r state)

-- `handler`: the item identifiers of `batchItemFailures`, and the state.
unfoldable pub handler :
    {S : Type 0} → Platform → Processor S → List QueueRecord → S → List String × S
unfolding handle_records
handler p process records s = handle_records p process records ([], s)
