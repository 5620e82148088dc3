-- ===== src/Worker/Batches.antt =====
-- The answer to a batch, as it is collected over the records: what it holds, and that it repeats
-- nothing.
use nektron_moments.Base.{
  String, ◌≡◌, refl, sym, ap, ◌∙◌, subst, Bool, true, false, ◌||◌, none, some, List, [], ◌∷◌, ◌++◌,
  inl, inr, Bool-cases, Option-cases, str_eq, str_eq_iff, if◌then◌else◌, arith,
}
use nektron_moments.Platform.{Platform}
use nektron_moments.Worker.Message.{Body}
use nektron_moments.Worker.Handler.{
  QueueRecord, invalid, message, message_id_of, wants_retry, is_seen, Processor, handle_message,
  handle_record, handle_records, handler,
}

-- The message of a record, if it is to be delivered again after it was processed, and the state.
unfoldable pub retry_of : {S : Type 0} → Platform → Processor S → QueueRecord → S → List String × S
retry_of p process invalid s = ([], s)
retry_of p process (message id body) s = elim (message_id_of p id) [
  | none ↦ ([], s)
  | some name ↦
      let (ended, s') = process name body s in (if wants_retry ended then name ∷ [] else [], s')
]

-- The messages to be delivered again, in the order of the records and as often as they occur, if
-- every record is processed one after another.
unfoldable pub to_retry : {S : Type 0} → Platform → Processor S → List QueueRecord → S → List String
unfolding retry_of
to_retry p process [] s = []
to_retry p process (r ∷ rs) s =
    let (own, s') = retry_of p process r s in own ++ to_retry p process rs s'

-- No text stands twice.
abbrev pub NoRepeats : List String → Type 0
NoRepeats [] = Unit
NoRepeats (x ∷ xs) = (is_seen x xs ≡ false) × NoRepeats xs

or_assoc : (a b c : Bool) → ((a || b) || c) ≡ (a || (b || c))
or_assoc true b c = refl
or_assoc false b c = refl

pub or_false : (a : Bool) → (a || false) ≡ a
or_false true = refl
or_false false = refl

pub is_seen-append :
    (x : String) (xs ys : List String) → is_seen x (xs ++ ys) ≡ (is_seen x xs || is_seen x ys)
unfolding is_seen
is_seen-append x [] ys = refl
is_seen-append x (z ∷ zs) ys =
    ap (λ b. str_eq z x || b) (is_seen-append x zs ys)
    ∙ sym (or_assoc (str_eq z x) (is_seen x zs) (is_seen x ys))

differs_back : (x y : String) → str_eq x y ≡ false → str_eq y x ≡ false
differs_back x y h = elim (Bool-cases (str_eq y x)) [
  | inl same ↦
      let back : str_eq x y ≡ true = (str_eq_iff x y).1 (sym ((str_eq_iff y x).0 same)) in
      absurd (ground arith)
  | inr differs ↦ differs
]

NoRepeats-append :
    (xs : List String) (y : String) → NoRepeats xs → is_seen y xs ≡ false → NoRepeats (xs ++ y ∷ [])
unfolding is_seen
NoRepeats-append [] y h new = (refl, tt)
NoRepeats-append (x ∷ xs) y h new =
    let apart : str_eq x y ≡ false = ground (arith, new) in
    let later : is_seen y xs ≡ false = ground (arith, new) in
    (
      is_seen-append x xs (y ∷ []) ∙ rw (h.0, differs_back x y apart) refl,
      NoRepeats-append xs y h.1 later,
    )

-- A text that is seen already adds nothing to what is seen.
seen_again :
    (x name : String) (failures : List String)
    → is_seen name failures ≡ true
    → is_seen x failures ≡ (is_seen x failures || (str_eq name x || false))
seen_again x name failures seen = elim (Bool-cases (str_eq name x)) [
  | inl same ↦
      let here : is_seen x failures ≡ true =
        subst (λ y. is_seen y failures ≡ true) ((str_eq_iff name x).0 same) seen in
      rw here refl
  | inr other ↦ rw other (sym (or_false (is_seen x failures)))
]

module _ {S : Type 0} (p : Platform) (process : Processor S) where
  -- What is to be retried of one message.
  once : String → Body → S → List String
  once name body s = if wants_retry (process name body s).0 then name ∷ [] else []

  handle_message_adds :
      (name : String) (body : Body) (failures : List String) (s : S)
      → NoRepeats failures
      → let (failures', _) = handle_message process name body (failures, s) in
        NoRepeats failures'
        × ((x : String)
            → is_seen x failures' ≡ (is_seen x failures || is_seen x (once name body s)))
  unfolding handle_message once is_seen
  handle_message_adds name body failures s apart =
      let ended = (process name body s).0 in
      elim (Bool-cases (wants_retry ended)) [
        | inr settled ↦ rw settled (apart, λ x. sym (or_false (is_seen x failures)))
        | inl again ↦ elim (Bool-cases (is_seen name failures)) [
          | inl seen ↦ rw (again, seen) (apart, λ x. seen_again x name failures seen)
          | inr new ↦
              rw (again, new)
                (
                  NoRepeats-append failures name apart new,
                  λ x. is_seen-append x failures (name ∷ []),
                )
        ]
      ]

  handle_record_adds :
      (r : QueueRecord) (failures : List String) (s : S)
      → NoRepeats failures
      → let (failures', s') = handle_record p process r (failures, s) in
        NoRepeats failures'
        × (s' ≡ (retry_of p process r s).1)
        × ((x : String)
            → is_seen x failures' ≡ (is_seen x failures || is_seen x (retry_of p process r s).0))
  unfolding handle_record retry_of is_seen once handle_message
  handle_record_adds invalid failures s apart =
      (apart, refl, λ x. sym (or_false (is_seen x failures)))
  handle_record_adds (message id body) failures s apart = elim (Option-cases (message_id_of p id)) [
    | inl nameless ↦
        rw (nameless, handle_record, retry_of)
          (apart, refl, λ x. sym (or_false (is_seen x failures)))
    | inr (name, e) ↦
        let one = handle_message_adds name body failures s apart in
        rw (e, handle_record, retry_of) (one.0, refl, one.1)
  ]

  records_add :
      (rs : List QueueRecord) (failures : List String) (s : S)
      → NoRepeats failures
      → let (failures', _) = handle_records p process rs (failures, s) in
        NoRepeats failures'
        × ((x : String)
            → is_seen x failures' ≡ (is_seen x failures || is_seen x (to_retry p process rs s)))
  unfolding handle_records to_retry is_seen
  records_add [] failures s apart = (apart, λ x. sym (or_false (is_seen x failures)))
  records_add (r ∷ rs) failures s apart =
      let after = handle_record p process r (failures, s) in
      let own = retry_of p process r s in
      let one = handle_record_adds r failures s apart in
      let rest = records_add rs after.0 after.1 one.0 in
      (
        rest.0,
        λ x.
            rest.1 x
            ∙ ap (λ b. b || is_seen x (to_retry p process rs after.1)) (one.2 x)
            ∙ ap
                (λ t.
                  (is_seen x failures || is_seen x own.0) || is_seen x (to_retry p process rs t))
                one.1
            ∙ or_assoc (is_seen x failures) (is_seen x own.0)
                (is_seen x (to_retry p process rs own.1))
            ∙ ap (λ b. is_seen x failures || b)
                (sym (is_seen-append x own.0 (to_retry p process rs own.1))),
      )

  -- The answer has the messages of `to_retry`, each once.
  pub handler_collects :
      (rs : List QueueRecord) (s : S)
      → NoRepeats (handler p process rs s).0
        × ((x : String)
            → is_seen x (handler p process rs s).0 ≡ is_seen x (to_retry p process rs s))
  unfolding handler is_seen
  handler_collects rs s = records_add rs [] s tt
