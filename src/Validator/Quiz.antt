-- ===== src/Validator/Quiz.antt =====
-- services/form_validator.rs: the answer keys of a quiz and the score of a submission.
pub mod Bounds
pub mod Keys
use form_respondent_role.Prelude.{
  ℕ, String, Bool, true, false, not, ◌&&◌, ◌||◌, List, [], ◌∷◌, ◌++◌, map, Option, none, some,
  Result, ok, err, and_then, map_or, is_nil, any, all, keep, filter_map, flat_map, length, str_eq,
  if◌then◌else◌,
}
use form_respondent_role.Prelude.Int.{ℤ, pos, ltb_ℤ, leb_ℤ, saturating_add}
use form_respondent_role.Text.{is_empty, trim}
use form_respondent_role.Json.{Value, bool, number, str, arr, Host, items, as_str, as_array}
use form_respondent_role.Json.Map.{lookup}
use form_respondent_role.Models.Form.{
  QuestionKind, Question, FormSchema, iter_questions, short_text, long_text, single_choice,
  multi_choice, dropdown, scale, email,
}
use form_respondent_role.Eval.{bool_text, sole}
use form_respondent_role.Validator.Answers.{VerifiedAnswers, float_of, has_option}

abbrev pub max_question_points : ℕ
max_question_points = 1000000

-- `HashSet<String>`: the texts in any order, compared as sets.
abbrev pub listed_in : List String → String → Bool
listed_in xs s = any (λ x. str_eq x s) xs

abbrev pub same_set : List String → List String → Bool
same_set xs ys = all (listed_in ys) xs && all (listed_in xs) ys

-- The messages of `validate_quiz_keys`, with the label that they quote.
pub data KeyError : Type 0 where
  bad_points dead_option : String → KeyError

abbrev pub is_choice : QuestionKind → Bool
is_choice single_choice = true
is_choice multi_choice = true
is_choice dropdown = true
is_choice _ = false

module _ (h : Host) where
  open h use {Number, Float}

  -- One entry of a list in `correct`.
  abbrev entry_text : Value Number → Option String
  entry_text (str s) = some s
  entry_text (number n) = some (h.number_text n)
  entry_text _ = none

  abbrev raw_answers : Value Number → List String
  raw_answers (str s) = s ∷ []
  raw_answers (number n) = h.number_text n ∷ []
  raw_answers (bool b) = bool_text b ∷ []
  raw_answers (arr vs) = filter_map entry_text (items vs)
  raw_answers _ = []

  unfoldable pub accepted_answers : Value Number → List String
  accepted_answers correct = keep (λ s. not (is_empty (trim s))) (raw_answers correct)

  abbrev pub has_key : Question h → Bool
  has_key q = map_or false (λ c. not (is_nil (accepted_answers c))) q.correct

  unfoldable pub is_graded : Question h → Bool
  is_graded q = map_or false (ltb_ℤ (pos 0)) q.points && has_key q

  unfoldable pub quiz_graded_count : FormSchema h → ℕ
  quiz_graded_count form = length (keep is_graded (iter_questions form))

  -- The texts of a list of answers, `unwrap_or_default` where the answer is no list.
  abbrev chosen : Value Number → List String
  chosen actual = map_or [] (filter_map as_str) (as_array actual)

  -- `actual.as_str().unwrap_or_default().trim()`.
  abbrev given : Value Number → String
  given actual = trim (map_or "" (λ s. s) (as_str actual))

  abbrev near_number : Float → String → Bool
  near_number got want = map_or false (λ w. h.f64_near w got) (h.parse_f64 (trim want))

  abbrev match_number : List String → Value Number → Bool
  match_number want actual =
      map_or false (λ got. any (near_number got) want) (float_of h (some actual))

  abbrev match_text : List String → Value Number → Bool
  match_text want actual =
      not (is_empty (h.lowercase (given actual)))
      && any (λ w. str_eq (h.lowercase (trim w)) (h.lowercase (given actual))) want

  -- The `match` on the kind, on the accepted answers and the stored answer.
  unfoldable pub matches : QuestionKind → List String → Value Number → Bool
  matches multi_choice want actual = not (is_nil want) && same_set want (chosen actual)
  matches QuestionKind.number want actual = match_number want actual
  matches scale want actual = match_number want actual
  matches short_text want actual = match_text want actual
  matches long_text want actual = match_text want actual
  matches email want actual = match_text want actual
  matches _ want actual =
      not (is_empty (given actual)) && any (λ w. str_eq (trim w) (given actual)) want

  -- The points of one question, zero where the loop continues with the next.
  abbrev pub marked : Question h → Value Number → Value Number → Bool
  marked q correct actual = matches q.kind (accepted_answers correct) actual

  abbrev add_if_marked : Question h → ℤ → Value Number → Value Number → ℤ → ℤ
  add_if_marked q points correct actual total =
      if marked q correct actual then saturating_add total points else total

  abbrev keyed : Question h → VerifiedAnswers h → ℤ → Value Number → ℤ → ℤ
  keyed q verified points correct total =
      map_or total (λ actual. add_if_marked q points correct actual total) (lookup q.id verified)

  abbrev pointed : Question h → VerifiedAnswers h → ℤ → ℤ → ℤ
  pointed q verified points total =
      if leb_ℤ points (pos 0)
      then total
      else map_or total (λ c. keyed q verified points c total) q.correct

  -- One turn of the loop.
  unfoldable pub score_question : Question h → VerifiedAnswers h → ℤ → ℤ
  unfolding matches accepted_answers
  score_question q verified total = map_or total (λ p. pointed q verified p total) q.points

  unfoldable pub score_questions : List (Question h) → VerifiedAnswers h → ℤ → ℤ
  unfolding score_question
  score_questions [] verified total = total
  score_questions (q ∷ qs) verified total =
      score_questions qs verified (score_question q verified total)

  unfoldable pub compute_quiz_score : FormSchema h → VerifiedAnswers h → ℤ
  unfolding score_questions
  compute_quiz_score form verified = score_questions (iter_questions form) verified (pos 0)

  abbrev pub label : Question h → String
  label q = if is_empty (trim q.title) then q.id else trim q.title

  abbrev pub bad_points_of : Question h → List KeyError
  bad_points_of q =
      map_or []
        (λ points.
          if leb_ℤ (pos 0) points && leb_ℤ points (pos max_question_points)
          then []
          else bad_points (label q) ∷ [])
        q.points

  abbrev pub key_in_options : Question h → List String → Bool
  key_in_options q accepted = all (has_option (map_or [] (λ os. os) q.options)) accepted

  abbrev pub dead_option_of : Question h → List String → List KeyError
  dead_option_of q accepted =
      if is_nil accepted
      then []
      else if is_choice q.kind && not (key_in_options q accepted)
      then dead_option (label q) ∷ []
      else []

  -- The messages that the loop adds for one question.
  unfoldable pub key_errors : Question h → List KeyError
  unfolding accepted_answers
  key_errors q = bad_points_of q ++ map_or [] (λ c. dead_option_of q (accepted_answers c)) q.correct

  unfoldable pub validate_quiz_keys : FormSchema h → Result (Unit {0}) (List KeyError)
  unfolding key_errors
  validate_quiz_keys form =
      let errors = flat_map key_errors (iter_questions form) in
      if is_nil errors then ok tt else err errors
