-- ===== src/Validator/Answers/Submission.antt =====
-- What a whole submission's validation returns, in terms of the validation of each question.
use mathlib.Core.List.{append_assoc, append-nil}
use form_respondent_role.Prelude.{
  sym, ap, All, All-of_In, ◌∙◌, ◌⊎◌, is_some, List-cases, Bool-cases, String, true, false, List, [],
  ◌∷◌, ◌++◌, Option, none, some, ok, err, ◌≡◌, ◌≢◌, refl, inl, inr, arith, str_eq, str_eq_iff, In,
  Result-cases,
}
use form_respondent_role.Json.{Value, Fields, obj, entries, Host}
use form_respondent_role.Json.Map.{lookup, lookup-insert}
use form_respondent_role.Models.Form.{Question, FormSchema, iter_questions}
use form_respondent_role.Validator.Answers.{
  Answer, FieldError, VerifiedAnswers, validate_kind, validate_from, record_answer, validate,
  finish,
}

module _ (h : Host) where
  open h use {Number}

  -- The answer of a question in what the browser sent, validated.
  abbrev pub answer_of : Fields Number → Question h → Answer h
  answer_of fields q = validate_kind h q.kind q (lookup q.id (entries fields))

  abbrev pub failure : String → Answer h → Option FieldError
  failure id (ok v) = none
  failure id (err e) = some (record { question_id = id; message = e })

  abbrev pub with_failure : Option FieldError → List FieldError → List FieldError
  with_failure none rest = rest
  with_failure (some e) rest = e ∷ rest

  -- The refusals, in the order of the questions.
  abbrev pub failures : Fields Number → List (Question h) → List FieldError
  failures fields [] = []
  failures fields (q ∷ qs) = with_failure (failure q.id (answer_of fields q)) (failures fields qs)

  -- Each question has an id of its own, as `sanity_check` asks.
  abbrev pub HasUniqueIds : List (Question h) → Type 0
  HasUniqueIds [] = Unit
  HasUniqueIds (q ∷ qs) = ((p : Question h) → In p qs → p.id ≢ q.id) × HasUniqueIds qs

  -- One turn of the loop, for any outcome of the question's validation.
  abbrev State : Type 0
  State = VerifiedAnswers h × List FieldError

  record_answer-errors :
      (id : String) (a : Answer h) (state : State) (rest : List FieldError)
      → (record_answer h id a state).1 ++ rest ≡ state.1 ++ with_failure (failure id a) rest
  record_answer-errors id (ok none) (out, errors) rest = refl
  record_answer-errors id (ok (some v)) (out, errors) rest = refl
  record_answer-errors id (err e) (out, errors) rest = append_assoc errors _ rest

  record_answer-other :
      (id k : String) (a : Answer h) (state : State)
      → id ≢ k
      → lookup k (record_answer h id a state).0 ≡ lookup k state.0
  record_answer-other id k (ok none) (out, errors) n = refl
  record_answer-other id k (ok (some v)) (out, errors) n =
      ground (arith, lookup-insert id k v out, str_eq_iff id k)
  record_answer-other id k (err e) (out, errors) n = refl

  record_answer-same :
      (id : String) (v : Option (Value Number)) (state : State)
      → lookup id state.0 ≡ none
      → lookup id (record_answer h id (ok v) state).0 ≡ v
  record_answer-same id none (out, errors) free = free
  record_answer-same id (some v) (out, errors) free =
      ground (arith, lookup-insert id id v out, str_eq_iff id id)

  module _ (fields : Fields Number) where
    abbrev run : List (Question h) → State → State
    run qs state = validate_from h (entries fields) qs state

    run-errors :
        (qs : List (Question h)) (state : State) → (run qs state).1 ≡ state.1 ++ failures fields qs
    unfolding validate_from
    run-errors [] state = sym (append-nil state.1)
    run-errors (q ∷ qs) state =
        run-errors qs (record_answer h q.id (answer_of fields q) state)
        ∙ record_answer-errors q.id (answer_of fields q) state (failures fields qs)

    run-other :
        (k : String) (qs : List (Question h)) (state : State)
        → ((q : Question h) → In q qs → q.id ≢ k)
        → lookup k (run qs state).0 ≡ lookup k state.0
    unfolding validate_from
    run-other k [] state n = refl
    run-other k (q ∷ qs) state n =
        run-other k qs (record_answer h q.id (answer_of fields q) state) (λ p i. n p (inr i))
        ∙ record_answer-other q.id k (answer_of fields q) state (n q (inl refl))

    run-same :
        (q : Question h) (v : Option (Value Number)) (qs : List (Question h)) (state : State)
        → HasUniqueIds qs
        → In q qs
        → answer_of fields q ≡ ok v
        → lookup q.id state.0 ≡ none
        → lookup q.id (run qs state).0 ≡ v
    unfolding validate_from
    run-same q v [] state u i e free = absurd i
    run-same q v (p ∷ qs) state (n, u) (inl i) e free =
        run-other q.id qs (record_answer h p.id (answer_of fields p) state)
          (λ r j. ground (arith, n r j))
        ∙ cc (record_answer-same q.id v state free)
    run-same q v (p ∷ qs) state (n, u) (inr i) e free =
        run-same q v qs (record_answer h p.id (answer_of fields p) state) u i e
          (record_answer-other p.id q.id (answer_of fields p) state (λ z. n q i (sym z)) ∙ free)

    failures_nil :
        (q : Question h) (qs : List (Question h))
        → failures fields qs ≡ []
        → In q qs
        → (v : Option (Value Number)) × (answer_of fields q ≡ ok v)
    failures_nil q [] none' i = absurd i
    failures_nil q (p ∷ qs) none' i = elim (Result-cases (answer_of fields p)) [
      | inl (v, e) ↦ elim i [ inl z ↦ (v, cc) | inr j ↦ failures_nil q qs (ground arith) j ]
      | inr (e, f) ↦ absurd (ground arith)
    ]

    run-known :
        (k : String) (qs : List (Question h)) (state : State)
        → is_some (lookup k (run qs state).0) ≡ true
        → (is_some (lookup k state.0) ≡ true) ⊎ ((q : Question h) × In q qs × (q.id ≡ k))
    unfolding validate_from
    run-known k [] state t = inl t
    run-known k (q ∷ qs) state t =
        elim (run-known k qs (record_answer h q.id (answer_of fields q) state) t) [
          | inl s ↦ elim (Bool-cases (str_eq q.id k)) [
            | inl same ↦ inr (q, inl refl, ground (arith, str_eq_iff q.id k))
            | inr other ↦ inl (
                ap is_some (
                  sym (
                    record_answer-other q.id k (answer_of fields q) state
                      (ground (arith, str_eq_iff q.id k))))
                ∙ s)
          ]
          | inr (p, i, e) ↦ inr (p, inr i, e)
        ]

  finish-none : (state : State) → state.1 ≡ [] → finish h state ≡ ok state.0
  finish-none (out, errors) e = ground arith

  finish-some :
      (state : State) (x : FieldError) (xs errors : List FieldError)
      → state.1 ≡ errors
      → errors ≡ x ∷ xs
      → finish h state ≡ err errors
  finish-some (out, es) x xs errors e f = ground arith

  -- What an accepted submission stores for the form.
  abbrev pub IsVerified : FormSchema h → Fields Number → VerifiedAnswers h → Type 0
  IsVerified form fields out =
      All (λ (q : Question h). answer_of fields q ≡ ok (lookup q.id out)) (iter_questions form)
      × ((k : String)
          → (is_some (lookup k out) ≡ false)
            ⊎ ((q : Question h) × In q (iter_questions form) × (q.id ≡ k)))

  -- On a form whose answerable questions have distinct ids, the validation of a JSON object either
  -- accepts, and then every answerable question's own validation succeeded with exactly the answer that is
  -- stored under its id, and nothing is stored under another id; or it refuses with the errors
  -- of the questions whose validation failed, in the order of the form, of which there is one.
  pub validate-answers :
      (form : FormSchema h) (fields : Fields Number)
      → HasUniqueIds (iter_questions form)
      → ((out : VerifiedAnswers h) × (validate h form (obj fields) ≡ ok out)
          × IsVerified form fields out)
        ⊎ ((validate h form (obj fields) ≡ err (failures fields (iter_questions form)))
            × (failures fields (iter_questions form) ≢ []))
  unfolding validate lookup
  validate-answers form fields u =
      let qs = iter_questions form in
      let e = run-errors fields qs ([], []) in
      elim (List-cases (failures fields qs)) [
        | inl none' ↦ inl (
          (run fields qs ([], [])).0,
          finish-none _ (e ∙ none'),
          (
            All-of_In (λ (q : Question h). answer_of fields q ≡ ok (lookup q.id _)) qs
                λ q i.
                  let (v, f) = failures_nil fields q qs none' i in
                  f ∙ ap ok (sym (run-same fields q v qs ([], []) u i f refl)),
            λ k. elim (Bool-cases (is_some (lookup k (run fields qs ([], [])).0))) [
              | inr free ↦ inl free
              | inl t ↦ elim (run-known fields k qs ([], []) t) [
                | inl z ↦ absurd (ground arith)
                | inr found ↦ inr found
              ]
            ],
          ),
        )
        | inr (x, xs, some') ↦ inr (finish-some _ x xs _ e some', λ none'. absurd (cc))
      ]
