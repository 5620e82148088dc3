-- ===== src/Mutations/Replays.antt =====
-- A mutation that is sent again is answered again, and is not run again.
use nektron_moments.Base.{
  ℕ, ◌+◌, ◌<◌, String, ◌≡◌, refl, ap, ◌∙◌, true, false, Option, none, some, List, [], ◌∷◌, str_eq,
  str_eq_iff, leb, inl, inr, Bool-cases, Option-cases, eqb_refl, ◌⊎◌, arith, subst,
}
use nektron_moments.Platform.{Platform}
use nektron_moments.Clock.{DateTime}
use nektron_moments.Store.{first}
use nektron_moments.Store.Laws.{some_inj}
use nektron_moments.Mutations.{
  MutationContext, IdempotencyRecord, MutationResult, Tried, returned, refused, is_valid_context,
  is_record_of, put_record, fresh_record, same_request, writable, replayable, reused, reserve,
  replay, run_action, mutation,
}

str_eq_refl : (s : String) → str_eq s s ≡ true
str_eq_refl s = (str_eq_iff s s).1 refl

module _ {J : Type 0} where
  own_record : (row : IdempotencyRecord J) → is_record_of row.user_id row.idempotency_key row ≡ true
  unfolding is_record_of
  own_record row = rw (eqb_refl row.user_id, str_eq_refl row.idempotency_key) refl

  -- A record that was put is found by its key.
  first-put_record :
      (row : IdempotencyRecord J) (rows : List (IdempotencyRecord J))
      → first (is_record_of row.user_id row.idempotency_key) (put_record row rows) ≡ some row
  unfolding first put_record
  first-put_record row [] = rw (own_record row) refl
  first-put_record row (x ∷ xs) =
      elim (Bool-cases (is_record_of row.user_id row.idempotency_key x)) [
        | inl hit ↦ rw (hit, own_record row) refl
        | inr miss ↦ rw (miss, miss) (first-put_record row xs)
      ]

  -- What `reserve` finds, with what a writable record holds.
  reserve_cases :
      (p : Platform) (user : ℕ) (context : MutationContext) (now : DateTime) (retention : ℕ)
      (rows : List (IdempotencyRecord J))
      → ((old : Option (IdempotencyRecord J)) × (reserve p user context now retention rows
            ≡ writable (fresh_record p user context now retention old)))
        ⊎ (((row : IdempotencyRecord J) × (reserve p user context now retention rows
                ≡ replayable row))
            ⊎ (reserve p user context now retention rows ≡ reused))
  unfolding reserve
  reserve_cases p user context now retention rows =
      elim (Option-cases (first (is_record_of user context.idempotency_key) rows)) [
        | inl nothing ↦ inl (none, rw (nothing, reserve) refl)
        | inr (row, found) ↦ elim (Bool-cases (leb row.expires_at now)) [
          | inl expired ↦ inl (some row, rw (found, expired, reserve) refl)
          | inr live ↦ elim (Bool-cases (same_request p context row)) [
            | inl same ↦ inr (inl (row, rw (found, live, same, reserve) refl))
            | inr differs ↦ inr (inr (rw (found, live, differs, reserve) refl))
          ]
        ]
      ]

result_of : {R T : Type 0} → Tried R T → Option (R × T)
result_of (returned r t) = some (r, t)
result_of (refused e) = none

-- The record of this request, live until `limit`, with its answer.
record IsRecorded {J : Type 0} (p : Platform) (user : ℕ) (context : MutationContext)
    (limit : DateTime) (status : ℕ) (json : J) (rows : List (IdempotencyRecord J)) : Type 0 where
  row : IdempotencyRecord J
  found : first (is_record_of user context.idempotency_key) rows ≡ some row
  expires : row.expires_at ≡ limit
  same : same_request p context row ≡ true
  status_kept : row.response_status ≡ some status
  value_kept : row.response_value ≡ some json

-- An answer that is no replay is not from a record.
replay_replays :
    {A J T : Type 0} (decode : J → A) (row : IdempotencyRecord J) (state state' : T)
    (answer : MutationResult A)
    → answer.replayed ≡ false
    → result_of (replay decode row state) ≡ some (answer, state')
    → ⊥
unfolding replay result_of
replay_replays {A = A} decode row state state' answer new e =
    elim (Option-cases row.response_status) [
      | inl unset ↦
          let bad : none ≡ some (answer, state') = rw (unset, replay, result_of) at e in cc
      | inr (status, s) ↦ elim (Option-cases row.response_value) [
        | inl empty ↦
            let bad : none ≡ some (answer, state') = rw (s, empty, replay, result_of) at e in cc
        | inr (value, v) ↦
            let replayed : MutationResult A = record {
              value = decode value;
              status_code = status;
              replayed = true;
            } in
            let same : some (replayed, state) ≡ some (answer, state') =
              rw (s, v, replay, result_of) at e in
            let flags : true ≡ answer.replayed =
              ap (λ t. t.0.replayed) (some_inj (replayed, state) (answer, state') same) in
            ground (arith, flags, new)
      ]
    ]

module _ {A J S : Type 0} (p : Platform) (retention : ℕ) (encode : A → J) (decode : J → A)
    (user : ℕ) (context : MutationContext) where
  -- A run that ends without a replay leaves its answer in the record.
  run_records :
      (now : DateTime) (action : S → Tried (A × ℕ) S) (old : Option (IdempotencyRecord J))
      (rows rows' : List (IdempotencyRecord J)) (state state' : S) (answer : MutationResult A)
      → result_of
          (run_action encode now action (fresh_record p user context now retention old) rows state)
        ≡ some (answer, (state', rows'))
      → IsRecorded p user context (now + retention) answer.status_code (encode answer.value) rows'
  unfolding run_action result_of fresh_record same_request
  run_records now action old rows rows' state state' answer e = go (action state) refl
    where
      go :
          (t : Tried (A × ℕ) S)
          → action state ≡ t
          → IsRecorded p user context
              (now + retention)
              answer.status_code
              (encode answer.value)
              rows'
      go (refused why) is =
          let bad : Path (Option (MutationResult A × (S × List (IdempotencyRecord J)))) none
              (some (answer, (state', rows'))) =
            rw (is, run_action, result_of) at e in
          absurd cc
      go (returned v end) is =
          let row : IdempotencyRecord J = record (fresh_record p user context now retention old) {
            response_status = some v.1;
            response_value = some (encode v.0);
            updated_at = now;
          } in
          let first_answer : MutationResult A = record {
            value = v.0;
            status_code = v.1;
            replayed = false;
          } in
          let same : some (first_answer, (end, put_record row rows))
              ≡ some (answer, (state', rows')) =
            rw (is, run_action, result_of) at e in
          subst
            (λ (t : MutationResult A × (S × List (IdempotencyRecord J))).
              IsRecorded p user context (now + retention) t.0.status_code (encode t.0.value) t.1.1)
            (some_inj (first_answer, (end, put_record row rows)) (answer, (state', rows')) same)
            (record {
              row = row;
              found = first-put_record row rows;
              expires = refl;
              same =
                  rw
                    (
                      str_eq_refl context.operation,
                      str_eq_refl context.target,
                      str_eq_refl (p.lower context.request_hash),
                    )
                    refl;
              status_kept = refl;
              value_kept = refl;
            })

  -- A mutation whose answer is recorded, and still live, replays it and changes nothing.
  recorded_replays :
      (status : ℕ) (json : J) (limit now : DateTime) (action : S → Tried (A × ℕ) S) (state : S)
      (rows : List (IdempotencyRecord J))
      → is_valid_context p context ≡ true
      → IsRecorded p user context limit status json rows
      → now < limit
      → mutation p retention encode decode user context now action (state, rows)
        ≡ returned
            (record { value = decode json; status_code = status; replayed = true })
            (state, rows)
  unfolding mutation reserve replay
  recorded_replays status json limit now action state rows valid kept before =
      let live : leb kept.row.expires_at now ≡ false = ground (arith, kept.expires, before) in
      rw
        (
          valid, kept.found, live, kept.same, kept.status_kept, kept.value_kept, mutation, reserve,
          replay,
        )
        refl

  -- Once a mutation has run, the same request, sent again before the record expires, is answered with
  -- the same value and status as a replay, whatever has become of the state and of the other records,
  -- if the record under this user and key is still the one that the run left; the action does not run
  -- and nothing is written. The stored value must decode to the value that was encoded.
  pub mutation_replays :
      (now now' : DateTime) (action action' : S → Tried (A × ℕ) S) (state state' other : S)
      (rows rows' later : List (IdempotencyRecord J)) (answer : MutationResult A)
      → ((a : A) → decode (encode a) ≡ a)
      → mutation p retention encode decode user context now action (state, rows)
        ≡ returned answer (state', rows')
      → answer.replayed ≡ false
      → now' < now + retention
      → first (is_record_of user context.idempotency_key) later
        ≡ first (is_record_of user context.idempotency_key) rows'
      → mutation p retention encode decode user context now' action' (other, later)
        ≡ returned (record answer { replayed = true }) (other, later)
  unfolding mutation result_of
  mutation_replays now now' action action' state state' other rows rows' later answer decodes ran
        new before left =
      let e : result_of (mutation p retention encode decode user context now action (state, rows))
          ≡ some (answer, (state', rows')) =
        ap result_of ran in
      elim (Bool-cases (is_valid_context p context)) [
        | inr bad ↦ absurd (ground (arith, rw (bad, mutation, result_of) at e))
        | inl valid ↦ recorded valid (elim (reserve_cases p user context now retention rows) [
          | inl (old, w) ↦
              run_records now action old rows rows' state state' answer
                (rw (valid, w, mutation) at e)
          | inr (inl (row, r)) ↦ absurd (
              replay_replays decode row (state, rows) (state', rows') answer new
                (rw (valid, r, mutation) at e))
          | inr (inr conflicts) ↦
              absurd (ground (arith, rw (valid, conflicts, mutation, result_of) at e))
        ])
      ]
    where
      recorded :
          is_valid_context p context ≡ true
          → IsRecorded p user context
              (now + retention)
              answer.status_code
              (encode answer.value)
              rows'
          → mutation p retention encode decode user context now' action' (other, later)
            ≡ returned (record answer { replayed = true }) (other, later)
      recorded valid kept =
          recorded_replays answer.status_code (encode answer.value) (now + retention) now' action'
            other later valid
            (record {
              row = kept.row;
              found = left ∙ kept.found;
              expires = kept.expires;
              same = kept.same;
              status_kept = kept.status_kept;
              value_kept = kept.value_kept;
            })
            before
          ∙ ap
              (λ value.
                returned
                  (record { value = value; status_code = answer.status_code; replayed = true })
                  (other, later))
              (decodes answer.value)
