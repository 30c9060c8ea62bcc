-- ===== src/Validator/Accepted.antt =====
-- What a submission that `validate` accepts stores for each question of the form.
use form_respondent_role.Prelude.{
  true, some, ok, ◌≡◌, ◌∙◌, inl, inr, arith, ap, Option-cases, keep_iff, flat_map, In, In-of_All,
  is_some,
}
use form_respondent_role.Json.{Value, Fields, obj, Host}
use form_respondent_role.Json.Map.{lookup}
use form_respondent_role.Models.Form.{Question, Page, FormSchema, iter_questions, is_answerable}
use form_respondent_role.Validator.Answers.{VerifiedAnswers, validate}
use form_respondent_role.Validator.Answers.Shapes.{HasShape, validate_kind-HasShape}
use form_respondent_role.Validator.Answers.Required.{validate_kind-required}
use form_respondent_role.Validator.Answers.Submission.{
  HasUniqueIds, IsVerified, answer_of, validate-answers,
}

module _ (h : Host) (form : FormSchema h) (fields : Fields h.Number) (out : VerifiedAnswers h) where
  accepted :
      HasUniqueIds h (iter_questions form)
      → validate h form (obj fields) ≡ ok out
      → IsVerified h form fields out
  accepted u e = elim (validate-answers h form fields u) [
    | inl (o, f, v) ↦ let same : o ≡ out = ground arith in rw (← same) v
    | inr (f, n) ↦ absurd (ground arith)
  ]

  accepted-answer :
      (q : Question h)
      → In q (iter_questions form)
      → HasUniqueIds h (iter_questions form)
      → validate h form (obj fields) ≡ ok out
      → answer_of h fields q ≡ ok (lookup q.id out)
  accepted-answer q i u e = In-of_All _ q (iter_questions form) i (accepted u e).0

  answerable : (q : Question h) → In q (iter_questions form) → is_answerable q.kind ≡ true
  unfolding iter_questions
  answerable q i =
      ((keep_iff (λ q. is_answerable q.kind) q
          (flat_map (λ (p : Page h). p.questions) form.pages)).0
        i).1

  -- In a submission that `validate` accepts, on a form whose answerable questions have distinct
  -- ids, every required answerable question has a stored answer.
  pub accepted-required :
      (q : Question h)
      → In q (iter_questions form)
      → HasUniqueIds h (iter_questions form)
      → validate h form (obj fields) ≡ ok out
      → q.required ≡ true
      → is_some (lookup q.id out) ≡ true
  accepted-required q i u e r = elim (Option-cases (lookup q.id out)) [
    | inl missing ↦ absurd (
        validate_kind-required h q.kind q _ (answerable q i) r
          (accepted-answer q i u e ∙ ap ok missing))
    | inr (v, found) ↦ ap is_some found
  ]

  -- In a submission that `validate` accepts, on a form whose answerable questions have distinct
  -- ids, the answer stored for a question is of the question's kind: a trimmed text of at most the
  -- maximal length; the canonical text of a float that compares as neither below the minimum nor
  -- above the maximum, which holds of NaN too; ids of the question's options; a trimmed text that
  -- parses as a date or time, or that looks like an address; or "true".
  pub accepted-HasShape :
      (q : Question h) (v : Value h.Number)
      → In q (iter_questions form)
      → HasUniqueIds h (iter_questions form)
      → validate h form (obj fields) ≡ ok out
      → lookup q.id out ≡ some v
      → HasShape h q.kind q v
  accepted-HasShape q v i u e found =
      validate_kind-HasShape h q.kind q _ v (accepted-answer q i u e ∙ ap ok found)
