-- ===== src/Validator/Answers.antt =====
-- services/form_validator.rs: `validate` and the validator of each kind of question.
-- A message of the source is a constructor here, with what the message names.
pub mod Shapes
pub mod Required
pub mod Submission
use Prim.Native.String.{count, len}
use form_respondent_role.Prelude.{
  ℕ, suc, ◌+◌, ◌-◌, ◌^◌, String, Bool, true, false, not, ◌&&◌, ◌||◌, List, [], ◌∷◌, ◌++◌, Option,
  none, some, Result, ok, err, ◌>>=◌, ◌>>◌, refuse_if, ok_or, and_then, map_or, is_some, is_nil,
  any, ltb, leb, ◌==◌, str_eq, if◌then◌else◌,
}
use form_respondent_role.Prelude.Int.{ℤ, pos, negsuc, eqb_ℤ}
use form_respondent_role.Text.{is_empty, trim, split, any_char, all_char}
use form_respondent_role.Text.Decimal.{print_i64}
use form_respondent_role.Json.{
  Value, null, bool, number, str, arr, obj, Items, nil, Host, items, of_items, as_str, as_array,
  as_object,
}
use form_respondent_role.Json.Map.{lookup, insert}
use form_respondent_role.Models.Form.{
  QuestionKind, QuestionOption, Question, FormSchema, iter_questions, short_text, long_text,
  single_choice, multi_choice, dropdown, scale, date, email, agreement, info, image, video,
}

abbrev pub default_max_text_len : ℕ
default_max_text_len = 100

abbrev pub default_max_long_text_len : ℕ
default_max_long_text_len = 4000

pub data AnswerError : Type 0 where
  not_object required not_text not_number not_option not_list not_option_text misconfigured :
      AnswerError
  too_long : ℕ → AnswerError
  below_min above_max : String → AnswerError
  invalid_option invalid_date invalid_email email_too_long : AnswerError
  must_agree : AnswerError
  invalid_selection : String → AnswerError

pub record FieldError : Type 0 where
  pub question_id : String
  pub message : AnswerError

-- `n as usize` on a 64-bit machine.
abbrev pub as_usize : ℤ → ℕ
as_usize (pos n) = n
as_usize (negsuc n) = 2 ^ 64 - 1 - n

abbrev pub is_long_text : QuestionKind → Bool
is_long_text long_text = true
is_long_text _ = false

abbrev pub has_option : List QuestionOption → String → Bool
has_option options s = any (λ (o : QuestionOption). str_eq o.id s) options

abbrev is_domain_char : ℕ → Bool
is_domain_char n =
    leb b'a' n && leb n b'z'
    || leb b'A' n && leb n b'Z'
    || leb b'0' n && leb n b'9'
    || (n == b'.' || n == b'-')

abbrev is_mailbox : List String → Bool
is_mailbox (local ∷ domain ∷ []) =
    not (is_empty local)
    && not (ltb (len domain) 3)
    && (any_char (λ n. n == b'.') domain && all_char is_domain_char domain)
is_mailbox _ = false

unfoldable pub looks_like_email : String → Bool
looks_like_email s = is_mailbox (split b'@' s)

module _ {N : Type 0} where
  abbrev pub is_blank : Option (Value N) → Bool
  is_blank none = true
  is_blank (some null) = true
  is_blank (some (str s)) = is_empty (trim s)
  is_blank (some (arr vs)) = is_nil (items vs)
  is_blank (some v) = false

module _ (h : Host) where
  open h use {Number, Float}

  abbrev pub Answer : Type 0
  Answer = Result (Option (Value Number)) AnswerError

  unfoldable pub require : Question h → Answer
  require q = if q.required then err required else ok none

  -- `raw.and_then(|v| v.as_str()).ok_or(…)`.
  abbrev pub text_of : Option (Value Number) → AnswerError → Result String AnswerError
  text_of raw e = ok_or (and_then raw as_str) e

  abbrev pub max_len : Question h → ℕ
  max_len q =
      map_or (if is_long_text q.kind then default_max_long_text_len else default_max_text_len)
        as_usize q.max_length

  unfoldable pub check_text : Question h → Option (Value Number) → Answer
  check_text q raw = do
    t ← text_of raw not_text
    (if ltb (max_len q) (count (trim t))
        then err (too_long (max_len q))
        else ok (some (str (trim t))))

  abbrev pub float_of : Option (Value Number) → Option Float
  float_of (some (number n)) = h.as_f64 n
  float_of (some (str s)) = h.parse_f64 (trim s)
  float_of _ = none

  abbrev pub canonical : Float → String
  canonical n = if h.f64_is_whole n then print_i64 (h.f64_as_i64 n) else h.f64_text n

  -- The tests of the bounds of a number, each with its early return.
  abbrev pub at_least : Question h → Float → Result (Unit {0}) AnswerError
  at_least q n =
      map_or (ok tt) (λ min. refuse_if (h.f64_lt n min) (below_min (h.f64_text min))) q.min

  abbrev pub at_most : Question h → Float → Result (Unit {0}) AnswerError
  at_most q n =
      map_or (ok tt) (λ max. refuse_if (h.f64_lt max n) (above_max (h.f64_text max))) q.max

  unfoldable pub check_number : Question h → Option (Value Number) → Answer
  check_number q raw = do
    n ← ok_or (float_of raw) not_number
    at_least q n
    at_most q n
    ok (some (str (canonical n)))

  unfoldable pub check_single_choice : Question h → Option (Value Number) → Answer
  check_single_choice q raw = do
    s ← text_of raw not_option
    options ← ok_or q.options misconfigured
    (if has_option options s then ok (some (str s)) else err invalid_option)

  -- The loop over the selections.
  unfoldable pub choose_all :
      List QuestionOption → List (Value Number) → Result (List (Value Number)) AnswerError
  choose_all options [] = ok []
  choose_all options (v ∷ vs) = do
    s ← ok_or (as_str v) not_option_text
    chosen ← (if has_option options s then choose_all options vs else err (invalid_selection s))
    ok (str s ∷ chosen)

  unfoldable pub check_multi_choice : Question h → Option (Value Number) → Answer
  unfolding choose_all
  check_multi_choice q raw = do
    vs ← ok_or (and_then raw as_array) not_list
    options ← ok_or q.options misconfigured
    chosen ← choose_all options vs
    ok (some (arr (of_items chosen)))

  unfoldable pub check_date : Question h → Option (Value Number) → Answer
  check_date q raw = do
    t ← text_of raw not_text
    (if is_some (h.parse_date (trim t)) || is_some (h.parse_rfc3339 (trim t))
        then ok (some (str (trim t)))
        else err invalid_date)

  unfoldable pub check_email : Question h → Option (Value Number) → Answer
  unfolding looks_like_email
  check_email q raw = do
    t ← text_of raw not_text
    (if not (looks_like_email (trim t))
        then err invalid_email
        else if ltb 320 (len (trim t))
        then err email_too_long
        else ok (some (str (trim t))))

  abbrev pub is_truthy : Option (Value Number) → Bool
  is_truthy (some (bool b)) = b
  is_truthy (some (str s)) = str_eq s "true" || str_eq s "yes" || str_eq s "on" || str_eq s "1"
  is_truthy (some (number n)) = map_or false (λ i. not (eqb_ℤ i (pos 0))) (h.as_i64 n)
  is_truthy _ = false

  unfoldable pub validate_agreement : Question h → Option (Value Number) → Answer
  validate_agreement q raw =
      if is_truthy raw
      then ok (some (str "true"))
      else if q.required
      then err must_agree
      else ok none

  -- The validators begin with the same test of a blank answer.
  abbrev pub unless_blank : Question h → Option (Value Number) → Answer → Answer
  unless_blank q raw answer = if is_blank raw then require q else answer

  -- The `match` on the kind of the question.
  unfoldable pub validate_kind : QuestionKind → Question h → Option (Value Number) → Answer
  unfolding check_text check_number check_single_choice check_multi_choice check_date check_email
      validate_agreement require
  validate_kind short_text q raw = unless_blank q raw (check_text q raw)
  validate_kind long_text q raw = unless_blank q raw (check_text q raw)
  validate_kind QuestionKind.number q raw = unless_blank q raw (check_number q raw)
  validate_kind scale q raw = unless_blank q raw (check_number q raw)
  validate_kind single_choice q raw = unless_blank q raw (check_single_choice q raw)
  validate_kind dropdown q raw = unless_blank q raw (check_single_choice q raw)
  validate_kind multi_choice q raw = unless_blank q raw (check_multi_choice q raw)
  validate_kind date q raw = unless_blank q raw (check_date q raw)
  validate_kind email q raw = unless_blank q raw (check_email q raw)
  validate_kind agreement q raw = validate_agreement q raw
  validate_kind _ q raw = ok none

  abbrev pub VerifiedAnswers : Type 0
  VerifiedAnswers = List (String × Value Number)

  -- One turn of the loop, on the answers so far and the errors so far.
  abbrev pub record_answer :
      String → Answer → VerifiedAnswers × List FieldError → VerifiedAnswers × List FieldError
  record_answer id (ok (some v)) (out, errors) = (insert id v out, errors)
  record_answer id (ok none) (out, errors) = (out, errors)
  record_answer id (err e) (out, errors) =
      (out, errors ++ record { question_id = id; message = e } ∷ [])

  unfoldable pub validate_from :
      List (String × Value Number)
      → List (Question h)
      → VerifiedAnswers × List FieldError
      → VerifiedAnswers × List FieldError
  validate_from given [] state = state
  validate_from given (q ∷ qs) state =
      validate_from given qs (record_answer q.id (validate_kind q.kind q (lookup q.id given)) state)

  abbrev pub finish : VerifiedAnswers × List FieldError → Result VerifiedAnswers (List FieldError)
  finish (out, errors) = if is_nil errors then ok out else err errors

  unfoldable pub validate : FormSchema h → Value Number → Result VerifiedAnswers (List FieldError)
  unfolding validate_from
  validate form (obj fields) =
      finish
        (validate_from (map_or [] (λ m. m) (as_object (obj fields))) (iter_questions form) ([], []))
  validate form _ = err (record { question_id = ""; message = not_object } ∷ [])
