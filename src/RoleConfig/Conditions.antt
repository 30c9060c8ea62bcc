-- ===== src/RoleConfig/Conditions.antt =====
-- What a stored condition satisfies.
use form_respondent_role.Prelude.{
  List, [], ◌∷◌, In, is_some, map_or, refl, ◌≢◌, String, Bool, true, false, Option, none, some, ok,
  ◌≡◌, ◌⊎◌, inl, inr, arith, Bool-cases, Option-cases, str_eq,
}
use form_respondent_role.Text.{is_empty, trim}
use form_respondent_role.Json.{Value, as_str, Host}
use form_respondent_role.Models.Condition.{
  eq, neq, gt, gte, lt, lte, between, contains_all, contains_any, not_contains, regex,
  ConditionOperator, ConditionTarget, question, quiz_total_score, Condition, from_key,
}
use form_respondent_role.Models.Form.{multi_choice, Question, FormSchema, find_question}
use form_respondent_role.RoleConfig.{
  is_score_operator, is_checkbox_operator, is_bad_pattern, ConditionInput,
  normalize_condition_value, normalize_end, score_target, question_target, resolve_target,
  validate_condition, quiz_total_score_key,
}
use form_respondent_role.RoleConfig.Shapes.{
  HasShape, HasEnd, normalize-HasShape, normalize_end-HasEnd,
}

module _ (h : Host) where
  open h use {Number}

  module _ (bound_form : Option (FormSchema h)) (form_is_quiz : Bool) where
    -- The operators for the score, and for a question that takes several answers.
    abbrev pub score_operators : List ConditionOperator
    score_operators = eq ∷ neq ∷ gt ∷ gte ∷ lt ∷ lte ∷ between ∷ []

    abbrev pub checkbox_operators : List ConditionOperator
    checkbox_operators = contains_all ∷ contains_any ∷ not_contains ∷ eq ∷ neq ∷ []

    is_score_operator-In :
        (op : ConditionOperator) → is_score_operator op ≡ true → In op score_operators
    is_score_operator-In eq e = inl refl
    is_score_operator-In neq e = inr (inl refl)
    is_score_operator-In gt e = inr (inr (inl refl))
    is_score_operator-In gte e = inr (inr (inr (inl refl)))
    is_score_operator-In lt e = inr (inr (inr (inr (inl refl))))
    is_score_operator-In lte e = inr (inr (inr (inr (inr (inl refl)))))
    is_score_operator-In between e = inr (inr (inr (inr (inr (inr (inl refl))))))
    is_score_operator-In op e = cc

    is_checkbox_operator-In :
        (op : ConditionOperator) → is_checkbox_operator op ≡ true → In op checkbox_operators
    is_checkbox_operator-In contains_all e = inl refl
    is_checkbox_operator-In contains_any e = inr (inl refl)
    is_checkbox_operator-In not_contains e = inr (inr (inl refl))
    is_checkbox_operator-In eq e = inr (inr (inr (inl refl)))
    is_checkbox_operator-In neq e = inr (inr (inr (inr (inl refl))))
    is_checkbox_operator-In op e = cc

    -- A question of the bound form, with one of the five operators where it takes several answers.
    abbrev pub IsOnForm : Option (FormSchema h) → ConditionOperator → String → Type 0
    IsOnForm none op id = Unit
    IsOnForm (some form) op id =
        (q : Question h) × (find_question form id ≡ some q)
        × ((q.kind ≢ multi_choice) ⊎ In op checkbox_operators)

    abbrev pub HasTarget : ConditionOperator → ConditionTarget → Type 0
    HasTarget op (question id) = (is_empty id ≡ false) × IsOnForm bound_form op id
    HasTarget op quiz_total_score = (form_is_quiz ≡ true) × In op score_operators

    -- The pattern of the regex operator, the value where it is a text and else the empty text,
    -- compiles.
    abbrev pub HasPattern : ConditionOperator → Value Number → Type 0
    HasPattern regex v = is_some (h.regex (map_or "" (λ s. s) (as_str v))) ≡ true
    HasPattern _ v = Unit

    compiles-HasPattern :
        (op : ConditionOperator) (v : Value Number)
        → is_bad_pattern h op v ≡ false
        → HasPattern op v
    compiles-HasPattern regex v e = ground arith
    compiles-HasPattern op v e = tt

    -- What a stored condition satisfies.
    pub record IsSound (c : Condition Number) : Type 0 where
      pub targeted : HasTarget c.operator c.target
      pub shaped : HasShape h c.operator c.value
      pub ended : HasEnd h c.operator c.value_end
      pub compiles : HasPattern c.operator c.value

    question_target-IsOnForm :
        (form : Option (FormSchema h)) (id : String) (op : ConditionOperator) (t : ConditionTarget)
        → question_target h id op form ≡ ok t
        → IsOnForm form op id × (t ≡ question id)
    unfolding question_target
    question_target-IsOnForm none id op t e = (tt, ground arith)
    question_target-IsOnForm (some form) id op t e = elim (Option-cases (find_question form id)) [
      | inl missing ↦ absurd (ground arith)
      | inr (q, found) ↦ ((q, found, ground arith), ground arith)
    ]

    score_target-HasTarget :
        (op : ConditionOperator) (t : ConditionTarget)
        → score_target h op form_is_quiz ≡ ok t
        → HasTarget op t
    unfolding score_target
    score_target-HasTarget op (question id) e = absurd (ground arith)
    score_target-HasTarget op quiz_total_score e = ground arith

    resolve_target-HasTarget :
        (id : String) (op : ConditionOperator) (t : ConditionTarget)
        → is_empty id ≡ false
        → resolve_target h id op bound_form form_is_quiz ≡ ok t
        → HasTarget op t
    unfolding resolve_target
    resolve_target-HasTarget id op t present e =
        elim (Bool-cases (str_eq id quiz_total_score_key)) [
          | inl quiz ↦ score_target-HasTarget op t (rw quiz at e)
          | inr other ↦
              let (on_form, same) = question_target-IsOnForm bound_form id op t (rw other at e) in
              rw same (present, on_form)
        ]

    -- The calls that a validated condition went through.
    record Steps (raw : ConditionInput Number) (c : Condition Number) : Type 0 where
      present : is_empty (trim raw.target) ≡ false
      known : from_key (trim raw.operator) ≡ some c.operator
      aimed : resolve_target h (trim raw.target) c.operator bound_form form_is_quiz ≡ ok c.target
      valued : normalize_condition_value h c.operator raw.value ≡ ok c.value
      ended : normalize_end h c.operator raw.value_end ≡ ok c.value_end
      compiles : is_bad_pattern h c.operator c.value ≡ false

    validate_condition-Steps :
        (raw : ConditionInput Number) (c : Condition Number)
        → validate_condition h raw bound_form form_is_quiz ≡ ok c
        → Steps raw c
    unfolding validate_condition
    validate_condition-Steps raw c e = ground arith

    -- A condition that is accepted tests a question with an id, which is on the bound form where
    -- there is one, by one of five operators if it is a multiple choice there; or it tests the
    -- score, of a quiz, by one of seven operators. Its value is an integer for an operator of
    -- order; a list with an entry, and with no null and no empty text, for one of lists; a trimmed
    -- text that is not empty for `before` and `after`; and else not null and no number, and a text
    -- then has more than white space or is the text of a number. The end is there for `between`
    -- alone, an integer. The pattern of `regex`, its value where that is a text and else the empty
    -- one, compiles.
    pub validate_condition-IsSound :
        (raw : ConditionInput Number) (c : Condition Number)
        → validate_condition h raw bound_form form_is_quiz ≡ ok c
        → IsSound c
    validate_condition-IsSound raw c e =
        let s = validate_condition-Steps raw c e in
        record {
          targeted =
              resolve_target-HasTarget (trim raw.target) c.operator c.target s.present s.aimed;
          shaped = normalize-HasShape h c.operator raw.value c.value s.valued;
          ended = normalize_end-HasEnd h c.operator raw.value_end c.value_end s.ended;
          compiles = compiles-HasPattern c.operator c.value s.compiles;
        }
