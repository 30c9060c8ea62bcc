-- ===== src/Eval.antt =====
-- services/condition_eval.rs: whether a response qualifies for a role link.
pub mod Laws
use form_respondent_role.Prelude.{
  ℕ, String, Bool, true, false, not, ◌&&◌, List, [], ◌∷◌, Option, none, some, ◌≡◌, str_eq, any, all,
  filter_map, is_nil, map_or, and_then, or_else, if◌then◌else◌,
}
use mathlib.Core.Option
use form_respondent_role.Prelude.Int.{ℤ}
use form_respondent_role.Text
use form_respondent_role.Text.{is_empty}
use form_respondent_role.Json.{
  Value, null, bool, number, str, arr, obj, Host, items, as_str, as_array, is_null, get,
}
use form_respondent_role.Models.Condition.{
  ConditionOperator, eq, neq, contains, regex, one_of, contains_all, contains_any, not_contains, gt,
  gte, lt, lte, between, before, after, ConditionTarget, question, quiz_total_score, Condition,
}

-- `matches!(condition.operator, Neq | NotContains)`.
abbrev pub unanswered_ok : ConditionOperator → Bool
unanswered_ok neq = true
unanswered_ok not_contains = true
unanswered_ok _ = false

abbrev pub bool_text : Bool → String
bool_text true = "true"
bool_text false = "false"

-- `value.as_array().map(|a| a.iter().filter_map(|v| v.as_str()))`.
abbrev pub str_items : {N : Type 0} → Value N → Option (List String)
str_items v = Option.map (filter_map as_str) (as_array v)

-- `matches!(chosen.as_slice(), [only] if test(only))`.
abbrev pub sole : (String → Bool) → List String → Bool
sole test [] = false
sole test (only ∷ []) = test only
sole test (x ∷ y ∷ rest) = false

abbrev pub listed : List String → String → Bool
listed chosen need = any (λ a. str_eq a need) chosen

pub record ResponseEvalData (N : Type 0) : Type 0 where
  pub answers : Value N
  pub total_score : Option ℤ  -- i64

module _ (h : Host) where
  open h use {Number, Float, DateTime}

  unfoldable pub string_value : Value Number → Option String
  string_value (str s) = some s
  string_value (number n) = some (h.number_text n)
  string_value (bool b) = some (bool_text b)
  string_value _ = none

  -- The answer as the list of values that it holds.
  unfoldable pub selections : Value Number → List String
  unfolding string_value
  selections (arr vs) = filter_map as_str (items vs)
  selections v = map_or [] (λ s. s ∷ []) (string_value v)

  unfoldable pub eq_matches : Value Number → Value Number → Option Bool
  unfolding string_value selections
  eq_matches actual expected =
      Option.map (λ e. sole (λ only. str_eq only e) (selections actual)) (string_value expected)

  unfoldable pub numeric_value : Value Number → Option Float
  numeric_value (number n) = h.as_f64 n
  numeric_value (str s) = h.parse_f64 s
  numeric_value _ = none

  unfoldable pub parse_datetime_str : String → Option DateTime
  parse_datetime_str s = or_else (h.parse_rfc3339 s) (Option.map h.start_of_day (h.parse_date s))

  unfoldable pub parse_datetime : Value Number → Option DateTime
  unfolding parse_datetime_str
  parse_datetime v = and_then (as_str v) parse_datetime_str

  -- The answer, or the score, that a condition tests; `null` where there is none.
  unfoldable pub actual_value : ConditionTarget → ResponseEvalData Number → Value Number
  actual_value (question id) d = map_or null (λ v. v) (get id d.answers)
  actual_value quiz_total_score d = map_or null (λ n. number (h.of_i64 n)) d.total_score

  -- The five numeric operators, over two numbers and the end of the range.
  unfoldable pub compare_numbers : ConditionOperator → Float → Float → Float → Bool
  compare_numbers gt actual expected end_n = h.f64_lt expected actual
  compare_numbers gte actual expected end_n = h.f64_le expected actual
  compare_numbers lt actual expected end_n = h.f64_lt actual expected
  compare_numbers lte actual expected end_n = h.f64_le actual expected
  compare_numbers between actual expected end_n = h.f64_le expected actual && h.f64_le actual end_n
  compare_numbers _ actual expected end_n = false

  unfoldable pub numeric_test : Condition Number → Value Number → Bool
  unfolding numeric_value compare_numbers
  numeric_test c actual =
      map_or false
        (λ actual_n.
          map_or false
            (λ expected_n.
              compare_numbers c.operator actual_n expected_n
                (map_or expected_n (λ n. n) (and_then c.value_end numeric_value)))
            (numeric_value c.value))
        (numeric_value actual)

  unfoldable pub date_test : (DateTime → DateTime → Bool) → Value Number → Value Number → Bool
  unfolding parse_datetime
  date_test holds actual expected =
      map_or false (λ a. map_or false (holds a) (parse_datetime expected)) (parse_datetime actual)

  -- The `match` on the operator, over the condition, its value and the answer.
  unfoldable pub operator_test : ConditionOperator → Condition Number → Value Number → Bool
  unfolding string_value selections eq_matches numeric_test date_test Text.contains
  operator_test eq c actual = map_or false (λ b. b) (eq_matches actual c.value)
  operator_test neq c actual =
      if is_null actual
      then not (is_empty (map_or "" (λ s. s) (as_str c.value)))
      else map_or false not (eq_matches actual c.value)
  operator_test contains c actual =
      map_or false (λ needle. any (λ s. Text.contains s needle) (selections actual))
        (string_value c.value)
  operator_test regex c actual =
      map_or false
        (λ pattern. map_or false (λ is_match. any is_match (selections actual)) (h.regex pattern))
        (as_str c.value)
  operator_test one_of c actual =
      sole (λ only. map_or false (any (λ s. str_eq s only)) (str_items c.value)) (selections actual)
  operator_test contains_all c actual =
      map_or false (all (listed (selections actual))) (str_items c.value)
  operator_test contains_any c actual =
      map_or false (any (listed (selections actual))) (str_items c.value)
  operator_test not_contains c actual =
      map_or true (λ needs. not (any (listed (selections actual)) needs)) (str_items c.value)
  operator_test before c actual = date_test h.date_lt actual c.value
  operator_test after c actual = date_test (λ a e. h.date_lt e a) actual c.value
  operator_test _ c actual = numeric_test c actual

  unfoldable pub evaluate_single : Condition Number → ResponseEvalData Number → Bool
  unfolding actual_value operator_test
  evaluate_single c d =
      let actual = actual_value c.target d in
      if is_null actual && not (unanswered_ok c.operator)
      then false
      else operator_test c.operator c actual

  unfoldable pub evaluate : Bool → List (Condition Number) → ResponseEvalData Number → Bool
  unfolding evaluate_single
  evaluate grant_on_any_submission conditions d =
      if grant_on_any_submission
      then true
      else if is_nil conditions
      then false
      else all (λ c. evaluate_single c d) conditions
