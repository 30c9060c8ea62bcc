-- ===== src/Validator/Quiz/Keys.antt =====
-- What `validate_quiz_keys` accepts.
use form_respondent_role.Prelude.{
  String, true, false, List, [], ◌∷◌, Option, none, some, ok, ◌≡◌, ◌⊎◌, ◌↔◌, refl, arith, inl, inr,
  is_nil, All, flat_map, Option-cases,
}
use form_respondent_role.Prelude.Int.{ℤ, pos, ◌≤ℤ◌}
use form_respondent_role.Json.{Value, Host}
use form_respondent_role.Models.Form.{Question, FormSchema, iter_questions}
use form_respondent_role.Validator.Quiz.{
  accepted_answers, key_errors, key_in_options, bad_points_of, dead_option_of, is_choice,
  validate_quiz_keys, max_question_points,
}

module _ (h : Host) where
  open h use {Number}

  -- The points are in range where there are any.
  abbrev pub IsPriced : Option ℤ → Type 0
  IsPriced none = Unit
  IsPriced (some points) = (pos 0 ≤ℤ points) × (points ≤ℤ pos max_question_points)

  -- Every accepted answer of a choice question is the id of one of its options.
  abbrev pub IsKeyed : Question h → Option (Value Number) → Type 0
  IsKeyed q none = Unit
  IsKeyed q (some c) =
      (is_choice q.kind ≡ false) ⊎ (key_in_options h q (accepted_answers h c) ≡ true)

  abbrev pub IsGradable : Question h → Type 0
  IsGradable q = IsPriced q.points × IsKeyed q q.correct

  bad_points_iff : (q : Question h) → (is_nil (bad_points_of h q) ≡ true) ↔ IsPriced q.points
  bad_points_iff q = elim (Option-cases q.points) [
    | inl none' ↦ rw none' (λ _. tt, λ _. refl)
    | inr (p, e) ↦ rw e ground arith
  ]

  dead_option_iff :
      (q : Question h) (accepted : List String)
      → (is_nil (dead_option_of h q accepted) ≡ true)
        ↔ ((is_choice q.kind ≡ false) ⊎ (key_in_options h q accepted ≡ true))
  dead_option_iff q [] = ground arith
  dead_option_iff q (a ∷ rest) = ground arith

  key_errors_iff : (q : Question h) → (is_nil (key_errors h q) ≡ true) ↔ IsGradable q
  unfolding key_errors
  key_errors_iff q = elim (Option-cases q.correct) [
    | inl none' ↦ ground (arith, bad_points_iff q)
    | inr (c, e) ↦ ground (arith, bad_points_iff q, dead_option_iff q (accepted_answers h c))
  ]

  flat_map_iff :
      (qs : List (Question h)) → (is_nil (flat_map (key_errors h) qs) ≡ true) ↔ All IsGradable qs
  flat_map_iff [] = (λ _. tt, λ _. refl)
  flat_map_iff (q ∷ qs) = ground (arith, key_errors_iff q, flat_map_iff qs)

  -- The answer keys of a form are accepted exactly when every answerable question has points from 0 to
  -- 1,000,000, if any, and, where it is a choice with a key, only ids of its own options as accepted answers.
  pub validate_quiz_keys_iff :
      (form : FormSchema h)
      → (validate_quiz_keys h form ≡ ok tt) ↔ All IsGradable (iter_questions form)
  unfolding validate_quiz_keys
  validate_quiz_keys_iff form = ground (arith, flat_map_iff (iter_questions form))
