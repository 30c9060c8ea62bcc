-- ===== src/Tests/Answers.antt =====
-- The theorems on submissions, quizzes and schemas, on a form of one question.
use form_respondent_role.Prelude.{
  true, [], ◌∷◌, some, ok, err, ◌≡◌, ◌≢◌, ◌↔◌, ◌⊎◌, refl, inl, In, All, is_some,
}
use form_respondent_role.Prelude.Int.{pos}
use form_respondent_role.Text.{trim}
use form_respondent_role.Json.{str, obj}
use form_respondent_role.Json.Map.{lookup, insert}
use form_respondent_role.Models.Form.{short_text, iter_questions}
use form_respondent_role.Validator.Answers.{VerifiedAnswers, validate, validate_kind}
use form_respondent_role.Validator.Answers.Shapes.{HasShape}
use form_respondent_role.Validator.Answers.Submission.{
  HasUniqueIds, IsVerified, failures, validate-answers,
}
use form_respondent_role.Validator.Accepted.{accepted-required, accepted-HasShape}
use form_respondent_role.Validator.Quiz.{compute_quiz_score, validate_quiz_keys}
use form_respondent_role.Validator.Quiz.Bounds.{clamp, total, compute_quiz_score-total}
use form_respondent_role.Validator.Quiz.Keys.{IsGradable, validate_quiz_keys_iff}
use form_respondent_role.Validator.Sanity.{sanity_check}
use form_respondent_role.Validator.Sanity.Unique.{IsSane, sanity_check-IsSane}
use form_respondent_role.Tests.Data.{whole_host, name_question, name_form, yes_fields}

abbrev yes_answers : VerifiedAnswers whole_host
yes_answers = ("q1", str "yes") ∷ []

name_form_unique : HasUniqueIds whole_host (iter_questions name_form)
unfolding iter_questions
name_form_unique = (λ p i e. i, tt)

name_form-asks : In name_question (iter_questions name_form)
unfolding iter_questions
name_form-asks = inl refl

yes-accepted : validate whole_host name_form (obj yes_fields) ≡ ok yes_answers
unfolding validate iter_questions validate_kind lookup trim insert
yes-accepted = refl

yes-stored : lookup "q1" yes_answers ≡ some (str "yes")
unfolding lookup
yes-stored = refl

name_form-passes : sanity_check whole_host name_form ≡ ok tt
unfolding sanity_check trim
name_form-passes = refl

validate-answers_example :
    ((out : VerifiedAnswers whole_host) × (validate whole_host name_form (obj yes_fields) ≡ ok out)
      × IsVerified whole_host name_form yes_fields out)
    ⊎ ((validate whole_host name_form (obj yes_fields)
          ≡ err (failures whole_host yes_fields (iter_questions name_form)))
        × (failures whole_host yes_fields (iter_questions name_form) ≢ []))
validate-answers_example = validate-answers whole_host name_form yes_fields name_form_unique

accepted-required_example : is_some (lookup "q1" yes_answers) ≡ true
accepted-required_example =
    accepted-required whole_host name_form yes_fields yes_answers name_question name_form-asks
      name_form_unique yes-accepted refl

accepted-HasShape_example : HasShape whole_host short_text name_question (str "yes")
accepted-HasShape_example =
    accepted-HasShape whole_host name_form yes_fields yes_answers name_question (str "yes")
      name_form-asks name_form_unique yes-accepted yes-stored

compute_quiz_score-total_example :
    compute_quiz_score whole_host name_form yes_answers
    ≡ pos (clamp (total whole_host yes_answers (iter_questions name_form)))
compute_quiz_score-total_example = compute_quiz_score-total whole_host name_form yes_answers

validate_quiz_keys_iff_example :
    (validate_quiz_keys whole_host name_form ≡ ok tt)
    ↔ All (IsGradable whole_host) (iter_questions name_form)
validate_quiz_keys_iff_example = validate_quiz_keys_iff whole_host name_form

sanity_check-IsSane_example : IsSane whole_host name_form
sanity_check-IsSane_example = sanity_check-IsSane whole_host name_form name_form-passes
