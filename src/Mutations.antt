-- ===== src/Mutations.antt =====
-- Idempotent mutations: `_mutation` (services/domain/service.py) over the records of
-- `IdempotencyRepository` (services/domain/repositories.py). The mutated state, the action and the
-- encoding of its value are arguments, as the action and the decoder are in the code.
pub mod Replays
use nektron_moments.Base.{
  ℕ, ◌+◌, String, Bool, true, false, not, ◌&&◌, ◌||◌, Option, none, some, List, [], ◌∷◌, ◌==◌,
  str_eq, ltb, leb, if◌then◌else◌, truthy, text_length,
}
use nektron_moments.Platform.{Platform}
use nektron_moments.Clock.{DateTime}
use nektron_moments.Store.{Error, conflict, first}
use nektron_moments.Description.Payload.{is_sha256}

-- `MutationContext`, without its request id
pub record MutationContext : Type 0 where
  pub idempotency_key : String
  pub request_hash : String
  pub operation : String
  pub target : String

-- `IdempotencyRecord`; `J` is the JSON of a stored value.
pub record IdempotencyRecord (J : Type 0) : Type 0 where
  pub user_id : ℕ
  pub idempotency_key : String
  pub http_method : String
  pub route_pattern : String
  pub request_sha256 : String
  pub response_status : Option ℕ
  pub response_value : Option J
  pub expires_at : DateTime
  pub created_at : DateTime
  pub updated_at : DateTime

-- `MutationResult`
pub record MutationResult (A : Type 0) : Type 0 where
  pub value : A
  pub status_code : ℕ
  pub replayed : Bool

-- A transaction returns a value and the new state, or raises.
pub data Tried (A S : Type 0) : Type 0 where
  returned : A → S → Tried A S
  refused : Error → Tried A S

-- The condition under which a context is refused, negated.
unfoldable pub is_valid_context : Platform → MutationContext → Bool
is_valid_context p context =
    truthy context.idempotency_key
    && (leb (text_length context.idempotency_key) 128
        && (is_sha256 (p.lower context.request_hash)
            && (truthy context.operation
                && (leb (text_length context.operation) 16
                    && (truthy context.target && leb (text_length context.target) 255)))))

module _ {J : Type 0} where
  -- The unique key of a record
  unfoldable pub is_record_of : ℕ → String → IdempotencyRecord J → Bool
  is_record_of user key row = (row.user_id == user) && str_eq row.idempotency_key key

  -- The record of this key is replaced, or added if there is none.
  unfoldable pub put_record :
      IdempotencyRecord J → List (IdempotencyRecord J) → List (IdempotencyRecord J)
  unfolding is_record_of
  put_record row [] = row ∷ []
  put_record row (x ∷ xs) =
      if is_record_of row.user_id row.idempotency_key x then row ∷ xs else x ∷ put_record row xs

  -- A new record, or an expired one for its new request; `created_at` is that of the old one.
  unfoldable pub fresh_record :
      Platform
      → ℕ
      → MutationContext
      → DateTime
      → ℕ
      → Option (IdempotencyRecord J)
      → IdempotencyRecord J
  fresh_record p user context now retention old = record {
    user_id = user;
    idempotency_key = context.idempotency_key;
    http_method = context.operation;
    route_pattern = context.target;
    request_sha256 = p.lower context.request_hash;
    response_status = none;
    response_value = none;
    expires_at = now + retention;
    created_at = elim old [ none ↦ now | some row ↦ row.created_at ];
    updated_at = now;
  }

  unfoldable pub same_request : Platform → MutationContext → IdempotencyRecord J → Bool
  same_request p context row =
      str_eq row.http_method context.operation
      && (str_eq row.route_pattern context.target
          && str_eq row.request_sha256 (p.lower context.request_hash))

-- What `reserve` finds: a record to be written, or one that may be replayed, or another request's.
pub data Reserved (J : Type 0) : Type 0 where
  writable : IdempotencyRecord J → Reserved J
  replayable : IdempotencyRecord J → Reserved J
  reused : Reserved J

-- `IdempotencyRepository.reserve`
unfoldable pub reserve :
    {J : Type 0}
    → Platform
    → ℕ
    → MutationContext
    → DateTime
    → ℕ
    → List (IdempotencyRecord J)
    → Reserved J
unfolding is_record_of fresh_record same_request
reserve p user context now retention rows =
    elim (first (is_record_of user context.idempotency_key) rows) [
      | none ↦ writable (fresh_record p user context now retention none)
      | some row ↦
          if leb row.expires_at now
          then writable (fresh_record p user context now retention (some row))
          else if same_request p context row
          then replayable row
          else reused
    ]

-- The answer from a record that is not writable.
unfoldable pub replay :
    {A J S : Type 0} → (J → A) → IdempotencyRecord J → S → Tried (MutationResult A) S
replay decode row state = elim row.response_status [
  | none ↦ refused (conflict "RequestInProgress")
  | some status ↦ elim row.response_value [
    | none ↦ refused (conflict "RequestInProgress")
    | some value ↦
        returned (record { value = decode value; status_code = status; replayed = true }) state
  ]
]

-- The action, and its answer stored in the record.
unfoldable pub run_action :
    {A J S : Type 0}
    → (A → J)
    → DateTime
    → (S → Tried (A × ℕ) S)
    → IdempotencyRecord J
    → List (IdempotencyRecord J)
    → S
    → Tried (MutationResult A) (S × List (IdempotencyRecord J))
unfolding put_record
run_action encode now action row rows state = elim (action state) [
  | refused e ↦ refused e
  | returned (value, status) state' ↦
      returned (record { value = value; status_code = status; replayed = false })
        (
          state',
          put_record
              (record row {
                response_status = some status;
                response_value = some (encode value);
                updated_at = now;
              })
              rows,
        )
]

-- `_mutation`
unfoldable pub mutation :
    {A J S : Type 0}
    → Platform
    → ℕ
    → (A → J)
    → (J → A)
    → ℕ
    → MutationContext
    → DateTime
    → (S → Tried (A × ℕ) S)
    → S × List (IdempotencyRecord J)
    → Tried (MutationResult A) (S × List (IdempotencyRecord J))
unfolding is_valid_context reserve replay run_action
mutation p retention encode decode user context now action (state, rows) =
    if is_valid_context p context
    then (elim (reserve p user context now retention rows) [
      | writable row ↦ run_action encode now action row rows state
      | replayable row ↦ replay decode row (state, rows)
      | reused ↦ refused (conflict "IdempotencyKeyReused")
    ])
    else refused (conflict "InvalidIdempotencyContext")
