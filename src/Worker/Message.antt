-- ===== src/Worker/Message.antt =====
-- Messages of the processing queue, what becomes of one, and what its processing did.
use nektron_moments.Base.{ℕ, String, Bool, false, Option, none, some, str_eq, if◌then◌else◌}
use nektron_moments.Store.{Database, Error}

-- A message body: `malformed` if it is no JSON object; else its `jobType`, if that is a text, and its
-- `jobId`, if that reads as a UUID.
pub data Body : Type 0 where
  malformed : Body
  object : Option String → Option ℕ → Body

-- `MessageDisposition`
pub data Disposition : Type 0 where
  ack retry : Disposition

-- How `process_message` ends: with a disposition, with an `InvalidWorkerMessage`, or with another
-- exception.
pub data Ended : Type 0 where
  disposed : Disposition → Ended
  invalid_message : Ended
  failed : Error → Ended

unfoldable pub is_type : String → Option String → Bool
is_type expected none = false
is_type expected (some type) = str_eq type expected

-- `_job_id_from_body`, for the job type of the processor
unfoldable pub job_id_from_body : String → Body → Option ℕ
unfolding is_type
job_id_from_body expected malformed = none
job_id_from_body expected (object type id) = if is_type expected type then id else none

-- What processing a message leaves: its end, the database, and how often the provider was called.
pub record Run : Type 0 where
  pub ended : Ended
  pub database : Database
  pub calls : ℕ
