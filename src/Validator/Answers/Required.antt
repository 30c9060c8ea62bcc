-- ===== src/Validator/Answers/Required.antt =====
-- A required question is never left without an answer.
use form_respondent_role.Prelude.{true, Option, none, ok, ◌≡◌, ◌≢◌, arith}
use form_respondent_role.Json.{Value, Host}
use form_respondent_role.Models.Form.{
  QuestionKind, Question, is_answerable, short_text, long_text, single_choice, multi_choice,
  dropdown, scale, date, email, agreement, info, image, video,
}
use form_respondent_role.Validator.Answers.{
  Answer, validate_kind, check_text, check_number, check_single_choice, check_multi_choice,
  check_date, check_email, validate_agreement, require, unless_blank,
}

module _ (h : Host) where
  open h use {Number}

  check_text-answers : (q : Question h) (raw : Option (Value Number)) → check_text h q raw ≢ ok none
  unfolding check_text
  check_text-answers q raw e = ground arith

  check_number-answers :
      (q : Question h) (raw : Option (Value Number)) → check_number h q raw ≢ ok none
  unfolding check_number
  check_number-answers q raw e = ground arith

  check_single_choice-answers :
      (q : Question h) (raw : Option (Value Number)) → check_single_choice h q raw ≢ ok none
  unfolding check_single_choice
  check_single_choice-answers q raw e = ground arith

  check_multi_choice-answers :
      (q : Question h) (raw : Option (Value Number)) → check_multi_choice h q raw ≢ ok none
  unfolding check_multi_choice
  check_multi_choice-answers q raw e = ground arith

  check_date-answers : (q : Question h) (raw : Option (Value Number)) → check_date h q raw ≢ ok none
  unfolding check_date
  check_date-answers q raw e = ground arith

  check_email-answers :
      (q : Question h) (raw : Option (Value Number)) → check_email h q raw ≢ ok none
  unfolding check_email
  check_email-answers q raw e = ground arith

  unless_blank-required :
      (q : Question h) (raw : Option (Value Number)) (a : Answer h)
      → q.required ≡ true
      → a ≢ ok none
      → unless_blank h q raw a ≢ ok none
  unfolding require
  unless_blank-required q raw a r n e = ground (arith, n)

  validate_agreement-required :
      (q : Question h) (raw : Option (Value Number))
      → q.required ≡ true
      → validate_agreement h q raw ≢ ok none
  unfolding validate_agreement
  validate_agreement-required q raw r e = ground arith

  -- A required question that is answerable is never left without an answer.
  pub validate_kind-required :
      (k : QuestionKind) (q : Question h) (raw : Option (Value Number))
      → is_answerable k ≡ true
      → q.required ≡ true
      → validate_kind h k q raw ≢ ok none
  unfolding validate_kind
  validate_kind-required short_text q raw b r =
      unless_blank-required q raw _ r (check_text-answers q raw)
  validate_kind-required long_text q raw b r =
      unless_blank-required q raw _ r (check_text-answers q raw)
  validate_kind-required QuestionKind.number q raw b r =
      unless_blank-required q raw _ r (check_number-answers q raw)
  validate_kind-required scale q raw b r =
      unless_blank-required q raw _ r (check_number-answers q raw)
  validate_kind-required single_choice q raw b r =
      unless_blank-required q raw _ r (check_single_choice-answers q raw)
  validate_kind-required dropdown q raw b r =
      unless_blank-required q raw _ r (check_single_choice-answers q raw)
  validate_kind-required multi_choice q raw b r =
      unless_blank-required q raw _ r (check_multi_choice-answers q raw)
  validate_kind-required date q raw b r = unless_blank-required q raw _ r (check_date-answers q raw)
  validate_kind-required email q raw b r =
      unless_blank-required q raw _ r (check_email-answers q raw)
  validate_kind-required agreement q raw b r = validate_agreement-required q raw r
  validate_kind-required info q raw b r = absurd (ground arith)
  validate_kind-required image q raw b r = absurd (ground arith)
  validate_kind-required video q raw b r = absurd (ground arith)
