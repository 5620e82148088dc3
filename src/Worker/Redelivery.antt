-- ===== src/Worker/Redelivery.antt =====
-- Which messages of a batch are delivered again, stated without the handler's own test.
use nektron_moments.Base.{
  String, ◌≡◌, refl, sym, ap, ◌∙◌, subst, Bool, true, false, ◌||◌, none, some, List, [], ◌∷◌, ◌⊎◌,
  ◌↔◌, inl, inr, Option-cases, str_eq, str_eq_iff, if◌then◌else◌, arith,
}
use nektron_moments.Platform.{Platform}
use nektron_moments.Store.{Error}
use nektron_moments.Store.Laws.{some_inj}
use nektron_moments.Worker.Message.{Ended, disposed, invalid_message, failed, ack, retry}
use nektron_moments.Worker.Handler.{
  QueueRecord, invalid, message, message_id_of, wants_retry, is_seen, Processor, handler,
}
use nektron_moments.Worker.Batches.{
  NoRepeats, retry_of, to_retry, is_seen-append, or_false, handler_collects,
}

-- A processing that returned `RETRY`, or raised something else than an invalid message.
abbrev pub Unfinished : Ended → Type 0
Unfinished ended = (ended ≡ disposed retry) ⊎ ((e : Error) × (ended ≡ failed e))

Unfinished-if : (ended : Ended) → wants_retry ended ≡ true → Unfinished ended
unfolding wants_retry
Unfinished-if (disposed ack) e = absurd (ground (arith, e))
Unfinished-if (disposed retry) e = inl refl
Unfinished-if invalid_message e = absurd (ground (arith, e))
Unfinished-if (failed why) e = inr (why, refl)

wants_if : (ended : Ended) → Unfinished ended → wants_retry ended ≡ true
unfolding wants_retry
wants_if ended (inl e) = rw e refl
wants_if ended (inr (why, e)) = rw e refl

or_cases : (a b : Bool) → (a || b) ≡ true → (a ≡ true) ⊎ (b ≡ true)
or_cases true b e = inl refl
or_cases false b e = inr e

or_right : (a b : Bool) → b ≡ true → (a || b) ≡ true
or_right true b e = refl
or_right false b e = e

none_not_some : (x : String) → none ≡ some x → ⊥
none_not_some x e = cc

-- A message of its own is seen just if it is the one, and is wanted.
seen_own :
    (x name : String) (wanted : Bool)
    → is_seen x (if wanted then name ∷ [] else []) ≡ true
    → (name ≡ x) × (wanted ≡ true)
unfolding is_seen
seen_own x name true seen = ((str_eq_iff name x).0 (sym (or_false (str_eq name x)) ∙ seen), refl)
seen_own x name false seen = absurd (ground (arith, seen))

own_seen :
    (x : String) (wanted : Bool) → wanted ≡ true → is_seen x (if wanted then x ∷ [] else []) ≡ true
unfolding is_seen
own_seen x true e = or_false (str_eq x x) ∙ (str_eq_iff x x).1 refl
own_seen x false e = absurd (ground (arith, e))

module _ {S : Type 0} (p : Platform) (process : Processor S) where
  -- The state after a record; a record without a message id is skipped.
  unfoldable pub state_after : QueueRecord → S → S
  state_after invalid s = s
  state_after (message id body) s = elim (message_id_of p id) [
    | none ↦ s
    | some name ↦ (process name body s).1
  ]

  -- The record is one of message `x`, whose processing from this state is unfinished.
  abbrev pub LeavesUnfinished : String → QueueRecord → S → Type 0
  LeavesUnfinished x invalid s = ⊥
  LeavesUnfinished x (message id body) s =
      (message_id_of p id ≡ some x) × Unfinished (process x body s).0

  -- One of the records, each processed from the state that those before it left, is one of message
  -- `x` and unfinished.
  abbrev pub IsDeliveredAgain : String → List QueueRecord → S → Type 0
  IsDeliveredAgain x [] s = ⊥
  IsDeliveredAgain x (r ∷ rs) s = LeavesUnfinished x r s ⊎ IsDeliveredAgain x rs (state_after r s)

  state_after-retry_of : (r : QueueRecord) (s : S) → (retry_of p process r s).1 ≡ state_after r s
  unfolding retry_of state_after
  state_after-retry_of invalid s = refl
  state_after-retry_of (message id body) s = elim (Option-cases (message_id_of p id)) [
    | inl nameless ↦ rw (nameless, retry_of, state_after) refl
    | inr (name, named) ↦ rw (named, retry_of, state_after) refl
  ]

  retry_of_means :
      (x : String) (r : QueueRecord) (s : S)
      → (is_seen x (retry_of p process r s).0 ≡ true) ↔ LeavesUnfinished x r s
  unfolding retry_of is_seen
  retry_of_means x invalid s = (λ e. absurd (ground (arith, e)), λ h. absurd h)
  retry_of_means x (message id body) s = elim (Option-cases (message_id_of p id)) [
    | inl nameless ↦
        rw (nameless, retry_of) (λ e. absurd (ground (arith, e)), λ h. absurd (none_not_some x h.0))
    | inr (name, named) ↦
        let ended = (process name body s).0 in
        rw (named, retry_of)
          (
            λ e.
                let own = seen_own x name (wants_retry ended) e in
                (
                  ap some own.0,
                  subst (λ n. Unfinished (process n body s).0) own.0 (Unfinished-if ended own.1),
                ),
            λ h.
                let same : name ≡ x = some_inj name x h.0 in
                subst
                  (λ n. is_seen x (if wants_retry (process n body s).0 then n ∷ [] else []) ≡ true)
                  (sym same)
                  (own_seen x (wants_retry (process x body s).0)
                    (wants_if (process x body s).0 h.1)),
          )
  ]

  to_retry_means :
      (x : String) (rs : List QueueRecord) (s : S)
      → (is_seen x (to_retry p process rs s) ≡ true) ↔ IsDeliveredAgain x rs s
  unfolding to_retry is_seen
  to_retry_means x [] s = (λ e. absurd (ground (arith, e)), λ h. absurd h)
  to_retry_means x (r ∷ rs) s =
      let own = retry_of p process r s in
      let next = state_after r s in
      let split : is_seen x (to_retry p process (r ∷ rs) s)
          ≡ (is_seen x own.0 || is_seen x (to_retry p process rs next)) =
        is_seen-append x own.0 (to_retry p process rs own.1)
        ∙ ap (λ t. is_seen x own.0 || is_seen x (to_retry p process rs t))
            (state_after-retry_of r s) in
      let here = retry_of_means x r s in
      let there = to_retry_means x rs next in
      (
        λ e.
            elim (or_cases (is_seen x own.0) (is_seen x (to_retry p process rs next))
              (sym split ∙ e)) [ inl first ↦ inl (here.0 first) | inr later ↦ inr (there.0 later) ],
        λ h. split ∙ elim h [
          | inl first ↦ rw (here.1 first) refl
          | inr later ↦ or_right (is_seen x own.0) _ (there.1 later)
        ],
      )

  -- The item failures that a batch is answered with name no message twice, and name a message just
  -- if one of its records, each processed from the state that those before it left, ended with
  -- `RETRY` or with an exception other than `InvalidWorkerMessage`.
  pub handler_answers :
      (rs : List QueueRecord) (s : S)
      → NoRepeats (handler p process rs s).0
        × ((x : String) → (is_seen x (handler p process rs s).0 ≡ true) ↔ IsDeliveredAgain x rs s)
  handler_answers rs s =
      let collected = handler_collects p process rs s in
      (
        collected.0,
        λ x.
            let means = to_retry_means x rs s in
            (λ e. means.0 (sym (collected.1 x) ∙ e), λ h. collected.1 x ∙ means.1 h),
      )
