-- ===== src/RoleConfig.antt =====
-- schema.rs: the validation of a role link's configuration before it is stored.
-- A `BadRequest` of the source is a constructor here, with what its message names.
pub mod Shapes
pub mod Conditions
pub mod Stored
use form_respondent_role.Prelude.{
  ℕ, suc, ◌+◌, String, Bool, true, false, not, ◌&&◌, ◌||◌, List, [], ◌∷◌, map, Option, none, some,
  Result, ok, err, ◌>>=◌, ◌>>◌, refuse_if, ok_or, ltb, str_eq, keep, length, is_nil, is_some,
  map_or, and_then, or_else, if◌then◌else◌,
}
use mathlib.Core.Option
use form_respondent_role.Prelude.Int.{ℤ}
use form_respondent_role.Text.{is_empty, trim, split}
use form_respondent_role.Text.Decimal.{parse_i64}
use form_respondent_role.Json.{
  Value, null, number, str, arr, Host, items, of_items, as_str, is_null,
}
use form_respondent_role.Models.Condition.{
  ConditionOperator, eq, neq, contains, regex, one_of, contains_all, contains_any, not_contains, gt,
  gte, lt, lte, between, before, after, ConditionTarget, question, quiz_total_score, Condition,
  from_key,
}
use form_respondent_role.Models.Form.{is_array_valued, Question, FormSchema, find_question}

abbrev pub max_conditions : ℕ
max_conditions = 12

abbrev pub quiz_total_score_key : String
quiz_total_score_key = "__quiz_total_score__"

pub data ConditionError : Type 0 where
  pick_a_question only_on_quiz only_numeric no_list_operator : ConditionError
  unknown_operator unknown_question : String → ConditionError
  no_maximum invalid_pattern numeric_required list_required date_required : ConditionError
  value_required : ConditionError

pub data ConfigError : Type 0 where
  unknown_mode unknown_view_permission : String → ConfigError
  no_conditions too_many_conditions : ConfigError
  -- the number of the condition, from 1
  bad_condition : ℕ → ConditionError → ConfigError

-- The operators that a quiz's total score, and a checkbox question, can be tested by.
abbrev pub is_score_operator : ConditionOperator → Bool
is_score_operator eq = true
is_score_operator neq = true
is_score_operator gt = true
is_score_operator gte = true
is_score_operator lt = true
is_score_operator lte = true
is_score_operator between = true
is_score_operator _ = false

abbrev pub is_checkbox_operator : ConditionOperator → Bool
is_checkbox_operator contains_all = true
is_checkbox_operator contains_any = true
is_checkbox_operator not_contains = true
is_checkbox_operator eq = true
is_checkbox_operator neq = true
is_checkbox_operator _ = false

abbrev pub is_regex : ConditionOperator → Bool
is_regex regex = true
is_regex _ = false

pub record ConditionInput (N : Type 0) : Type 0 where
  pub target : String
  pub operator : String
  pub value : Value N
  pub value_end : Option (Value N)

pub record RoleConfigBody (N : Type 0) : Type 0 where
  pub form_id : Option String
  pub mode : String
  pub conditions : List (ConditionInput N)
  pub view_permission : Option String

pub record ParsedConfig (N : Type 0) : Type 0 where
  pub form_id : Option String
  pub grant_on_any_submission : Bool
  pub conditions : List (Condition N)
  pub view_permission : Option String

-- An entry that a list operator keeps: not null, and no empty text.
abbrev pub is_entry : {N : Type 0} → Value N → Bool
is_entry v = not (is_null v) && not (map_or false is_empty (as_str v))

-- The non-blank pieces of a text between commas, trimmed.
unfoldable pub split_list : String → List String
split_list s = keep (λ p. not (is_empty p)) (map trim (split b',' s))

module _ (h : Host) where
  open h use {Number}

  abbrev pub as_list : Value Number → List (Value Number)
  as_list (arr vs) = keep is_entry (items vs)
  as_list (str s) = map str (split_list s)
  as_list null = []
  as_list v = v ∷ []

  abbrev pub as_integer : Value Number → Option ℤ
  as_integer (number n) = or_else (h.as_i64 n) (Option.map h.f64_as_i64 (h.as_f64 n))
  as_integer (str s) = parse_i64 (trim s)
  as_integer _ = none

  unfoldable pub numeric : Value Number → Result (Value Number) ConditionError
  numeric raw = ok_or (Option.map (λ i. number (h.of_i64 i)) (as_integer raw)) numeric_required

  unfoldable pub listing : Value Number → Result (Value Number) ConditionError
  listing raw =
      if is_nil (as_list raw) then err list_required else ok (arr (of_items (as_list raw)))

  unfoldable pub dated : Value Number → Result (Value Number) ConditionError
  dated raw =
      let s = trim (map_or "" (λ t. t) (as_str raw)) in
      if is_empty s then err date_required else ok (str s)

  unfoldable pub plain : Value Number → Result (Value Number) ConditionError
  plain (str s) = if is_empty (trim s) then err value_required else ok (str s)
  plain (number n) = ok (str (h.number_text n))
  plain null = err value_required
  plain v = ok v

  unfoldable pub normalize_condition_value :
      ConditionOperator → Value Number → Result (Value Number) ConditionError
  unfolding numeric listing dated plain
  normalize_condition_value gt raw = numeric raw
  normalize_condition_value gte raw = numeric raw
  normalize_condition_value lt raw = numeric raw
  normalize_condition_value lte raw = numeric raw
  normalize_condition_value between raw = numeric raw
  normalize_condition_value one_of raw = listing raw
  normalize_condition_value contains_all raw = listing raw
  normalize_condition_value contains_any raw = listing raw
  normalize_condition_value not_contains raw = listing raw
  normalize_condition_value before raw = dated raw
  normalize_condition_value after raw = dated raw
  normalize_condition_value _ raw = plain raw

  unfoldable pub score_target : ConditionOperator → Bool → Result ConditionTarget ConditionError
  score_target operator form_is_quiz = do
    refuse_if (not form_is_quiz) only_on_quiz
    refuse_if (not (is_score_operator operator)) only_numeric
    ok quiz_total_score

  unfoldable pub question_target :
      String → ConditionOperator → Option (FormSchema h) → Result ConditionTarget ConditionError
  question_target id operator none = ok (question id)
  question_target id operator (some form) = do
    q ← ok_or (find_question form id) (unknown_question id)
    refuse_if (is_array_valued q.kind && not (is_checkbox_operator operator)) no_list_operator
    ok (question id)

  -- The target of a condition, checked against the bound form where there is one.
  unfoldable pub resolve_target :
      String
      → ConditionOperator
      → Option (FormSchema h)
      → Bool
      → Result ConditionTarget ConditionError
  resolve_target id operator bound_form form_is_quiz =
      if str_eq id quiz_total_score_key
      then score_target operator form_is_quiz
      else question_target id operator bound_form

  unfoldable pub normalize_end :
      ConditionOperator → Option (Value Number) → Result (Option (Value Number)) ConditionError
  normalize_end between (some end) = do v ← normalize_condition_value between end; ok (some v)
  normalize_end between none = err no_maximum
  normalize_end _ raw = ok none

  -- `RegexBuilder::new(value.as_str().unwrap_or("")).build().is_err()`, for the regex operator.
  abbrev pub is_bad_pattern : ConditionOperator → Value Number → Bool
  is_bad_pattern operator value =
      is_regex operator && not (is_some (h.regex (map_or "" (λ s. s) (as_str value))))

  unfoldable pub validate_condition :
      ConditionInput Number
      → Option (FormSchema h)
      → Bool
      → Result (Condition Number) ConditionError
  validate_condition raw bound_form form_is_quiz = do
    refuse_if (is_empty (trim raw.target)) pick_a_question
    operator ← ok_or (from_key (trim raw.operator)) (unknown_operator raw.operator)
    target ← resolve_target (trim raw.target) operator bound_form form_is_quiz
    value ← normalize_condition_value operator raw.value
    value_end ← normalize_end operator raw.value_end
    refuse_if (is_bad_pattern operator value) invalid_pattern
    ok (record { target = target; operator = operator; value = value; value_end = value_end })

  abbrev pub numbered : {A : Type 0} → ℕ → Result A ConditionError → Result A ConfigError
  numbered n (ok a) = ok a
  numbered n (err e) = err (bad_condition n e)

  -- The loop over the conditions; `i` of them are done.
  unfoldable pub validate_conditions :
      ℕ
      → List (ConditionInput Number)
      → Option (FormSchema h)
      → Bool
      → Result (List (Condition Number)) ConfigError
  validate_conditions i [] bound_form form_is_quiz = ok []
  validate_conditions i (raw ∷ raws) bound_form form_is_quiz = do
    c ← numbered (i + 1) (validate_condition raw bound_form form_is_quiz)
    cs ← validate_conditions (i + 1) raws bound_form form_is_quiz
    ok (c ∷ cs)

  abbrev pub parse_mode : String → Result Bool ConfigError
  parse_mode mode =
      if str_eq mode "any_submission"
      then ok true
      else if str_eq mode "conditions"
      then ok false
      else err (unknown_mode mode)

  abbrev pub parse_view_permission : Option String → Result (Option String) ConfigError
  parse_view_permission none = ok none
  parse_view_permission (some p) =
      if is_empty p
      then ok none
      else if str_eq p "members" || str_eq p "managers"
      then ok (some p)
      else err (unknown_view_permission p)

  abbrev pub parse_form_id : Option String → Option String
  parse_form_id none = none
  parse_form_id (some id) = if is_empty (trim id) then none else some (trim id)

  unfoldable pub parse_conditions :
      Bool
      → List (ConditionInput Number)
      → Option (FormSchema h)
      → Bool
      → Result (List (Condition Number)) ConfigError
  parse_conditions grant raws bound_form form_is_quiz = if grant then ok [] else (do
    refuse_if (is_nil raws) no_conditions
    refuse_if (ltb max_conditions (length raws)) too_many_conditions
    validate_conditions 0 raws bound_form form_is_quiz)

  unfoldable pub parse_role_config :
      RoleConfigBody Number
      → Option (FormSchema h)
      → Bool
      → Result (ParsedConfig Number) ConfigError
  parse_role_config body bound_form form_is_quiz = do
    grant ← parse_mode body.mode
    view_permission ← parse_view_permission body.view_permission
    conditions ← parse_conditions grant body.conditions bound_form form_is_quiz
    ok (record {
      form_id = parse_form_id body.form_id;
      grant_on_any_submission = grant;
      conditions = conditions;
      view_permission = view_permission;
    })
