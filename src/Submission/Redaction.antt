-- ===== src/Submission/Redaction.antt =====
-- routes/form_render.rs: `redact_answer_keys`, which takes the answer keys out of a schema before a
-- browser gets it.
use form_respondent_role.Prelude.{
  String, Bool, true, false, ◌||◌, List, [], ◌∷◌, map, none, some, and_then, map_or, str_eq,
  str_eq_iff, All, All-append, flat_map, if◌then◌else◌, ◌≡◌, refl, arith, Bool-cases, Option-cases,
  inl, inr, ap,
}
use form_respondent_role.Json.{
  Value, arr, obj, Items, nil, cons, Fields, end, field, items, entries, as_array, get,
}
use form_respondent_role.Json.Map.{lookup}

-- `obj.remove("correct")` and `obj.remove("points")`.
abbrev pub is_key : String → Bool
is_key name = str_eq name "correct" || str_eq name "points"

module _ {N : Type 0} where
  unfoldable pub without_keys : Fields N → Fields N
  without_keys end = end
  without_keys (field name v fields) =
      let rest = without_keys fields in if is_key name then rest else field name v rest

  unfoldable pub redact_question : Value N → Value N
  unfolding without_keys
  redact_question (obj fields) = obj (without_keys fields)
  redact_question v = v

  -- The loop over an array, where there is one.
  abbrev pub each_item : (Value N → Value N) → Items N → Items N
  each_item change nil = nil
  each_item change (cons v vs) = cons (change v) (each_item change vs)

  abbrev pub each : (Value N → Value N) → Value N → Value N
  each change (arr vs) = arr (each_item change vs)
  each change v = v

  -- `get_mut(name)` of an object.
  abbrev pub change_field : String → (Value N → Value N) → Fields N → Fields N
  change_field name change end = end
  change_field name change (field k v fields) =
      let rest = change_field name change fields in
      if str_eq k name then field k (change v) fields else field k v rest

  abbrev pub at_field : String → (Value N → Value N) → Value N → Value N
  at_field name change (obj fields) = obj (change_field name change fields)
  at_field name change v = v

  unfoldable pub redact_answer_keys : Value N → Value N
  unfolding redact_question
  redact_answer_keys schema =
      at_field "pages" (each (at_field "questions" (each redact_question))) schema

  -- The values in the array under a name.
  abbrev pub array_at : String → Value N → List (Value N)
  array_at name v = map_or [] (λ vs. vs) (and_then (get name v) as_array)

  abbrev pub questions_of : Value N → List (Value N)
  questions_of schema = flat_map (array_at "questions") (array_at "pages" schema)

  abbrev pub HasNoKey : Value N → Type 0
  HasNoKey q = (get "correct" q ≡ none) × (get "points" q ≡ none)

  lookup-change :
      (name : String) (change : Value N → Value N) (fields : Fields N)
      → lookup name (entries (change_field name change fields))
        ≡ map_or none (λ v. some (change v)) (lookup name (entries fields))
  unfolding lookup
  lookup-change name change end = refl
  lookup-change name change (field k v fields) = elim (Bool-cases (str_eq k name)) [
    | inl same ↦ rw (same, same) refl
    | inr other ↦ rw (other, other) (lookup-change name change fields)
  ]

  items-each :
      (change : Value N → Value N) (vs : Items N)
      → items (each_item change vs) ≡ map change (items vs)
  items-each change nil = refl
  items-each change (cons v vs) = ap (λ ws. change v ∷ ws) (items-each change vs)

  lookup-key :
      (name : String) (fields : Fields N)
      → is_key name ≡ true
      → lookup name (entries (without_keys fields)) ≡ none
  unfolding lookup without_keys
  lookup-key name end h = refl
  lookup-key name (field k v fields) h = elim (Bool-cases (is_key k)) [
    | inl key ↦ rw key (lookup-key name fields h)
    | inr kept ↦ rw kept (elim (Bool-cases (str_eq k name)) [
      | inl same ↦
          let one : k ≡ name = (str_eq_iff k name).0 same in
          let kept' : is_key name ≡ false = rw (← one) kept in absurd (ground arith)
      | inr other ↦ rw other (lookup-key name fields h)
    ])
  ]

  question_redacted : (q : Value N) → HasNoKey (redact_question q)
  unfolding redact_question
  question_redacted (obj fields) =
      (lookup-key "correct" fields refl, lookup-key "points" fields refl)
  question_redacted q = (refl, refl)

  each-listed :
      (change : Value N → Value N) (v : Value N)
      → map_or [] (λ vs. vs) (as_array (each change v))
        ≡ map change (map_or [] (λ vs. vs) (as_array v))
  each-listed change (arr vs) = items-each change vs
  each-listed change v = refl

  array_at-field :
      (name : String) (change : Value N → Value N) (v : Value N)
      → array_at name (at_field name (each change) v) ≡ map change (array_at name v)
  array_at-field name change (obj fields) =
      rw (lookup-change name (each change) fields)
        (elim (Option-cases (lookup name (entries fields))) [
          | inl absent ↦ rw absent refl
          | inr (v, there) ↦ rw there (each-listed change v)
        ])
  array_at-field name change v = refl

  items_redacted : (vs : List (Value N)) → All HasNoKey (map redact_question vs)
  items_redacted [] = tt
  items_redacted (v ∷ vs) = (question_redacted v, items_redacted vs)

  pages_redacted :
      (pages : List (Value N))
      → All HasNoKey (
          flat_map (array_at "questions") (map (at_field "questions" (each redact_question)) pages))
  pages_redacted [] = tt
  pages_redacted (p ∷ ps) =
      All-append HasNoKey _ _
        (rw (array_at-field "questions" redact_question p)
          (items_redacted (array_at "questions" p)))
        (pages_redacted ps)

  -- No question of a schema that was redacted has a `correct` or a `points`, whatever the schema.
  pub redact_answer_keys-HasNoKey :
      (schema : Value N) → All HasNoKey (questions_of (redact_answer_keys schema))
  unfolding redact_answer_keys
  redact_answer_keys-HasNoKey schema =
      rw (array_at-field "pages" (at_field "questions" (each redact_question)) schema)
        (pages_redacted (array_at "pages" schema))
