-- ===== src/Tests/Configuration.antt =====
-- The theorems on role configurations, on one condition.
use form_respondent_role.Prelude.{true, false, [], ◌∷◌, none, some, ok, ◌≡◌, ◌↔◌, ◌⊎◌, refl, All}
use form_respondent_role.Prelude.Int.{ℤ}
use form_respondent_role.Text.{trim}
use form_respondent_role.Json.{str}
use form_respondent_role.Models.Condition.{from_key}
use form_respondent_role.Eval.{ResponseEvalData, evaluate, evaluate_single}
use form_respondent_role.RoleConfig.{
  ConditionInput, RoleConfigBody, ParsedConfig, parse_role_config, validate_condition,
  parse_conditions, validate_conditions, resolve_target, question_target, normalize_condition_value,
  normalize_end,
}
use form_respondent_role.Models.Form.{find_question, iter_questions}
use form_respondent_role.RoleConfig.Conditions.{IsSound, validate_condition-IsSound}
use form_respondent_role.RoleConfig.Stored.{
  IsSoundConfig, parse_role_config-IsSoundConfig, stored_evaluate_iff,
}
use form_respondent_role.Sync.{response_data}
use form_respondent_role.Tests.Data.{whole_host, said_yes, yes_row, name_form}

abbrev yes_data : ResponseEvalData ℤ
yes_data = response_data yes_row

-- A configuration with one condition on the form's question.
abbrev name_input : ConditionInput ℤ
name_input = record { target = " q1 "; operator = "eq"; value = str "yes"; value_end = none }

abbrev name_body : RoleConfigBody ℤ
name_body = record {
  form_id = some " f1";
  mode = "conditions";
  conditions = name_input ∷ [];
  view_permission = some "members";
}

abbrev name_config : ParsedConfig ℤ
name_config = record {
  form_id = some "f1";
  grant_on_any_submission = false;
  conditions = said_yes ∷ [];
  view_permission = some "members";
}

name_input-passes : validate_condition whole_host name_input (some name_form) false ≡ ok said_yes
unfolding validate_condition trim from_key resolve_target question_target find_question
    iter_questions normalize_condition_value normalize_end
name_input-passes = refl

name_body-passes : parse_role_config whole_host name_body (some name_form) false ≡ ok name_config
unfolding parse_role_config parse_conditions validate_conditions validate_condition trim from_key
    resolve_target question_target find_question iter_questions normalize_condition_value
    normalize_end
name_body-passes = refl

validate_condition-IsSound_example : IsSound whole_host (some name_form) false said_yes
validate_condition-IsSound_example =
    validate_condition-IsSound whole_host (some name_form) false name_input said_yes
      name_input-passes

parse_role_config-IsSoundConfig_example :
    IsSoundConfig whole_host (some name_form) false name_body name_config
parse_role_config-IsSoundConfig_example =
    parse_role_config-IsSoundConfig whole_host (some name_form) false name_body name_config
      name_body-passes

stored_evaluate_iff_example : (evaluate whole_host false (said_yes ∷ []) yes_data ≡ true) ↔ (
    (false ≡ true)
    ⊎ ((false ≡ false) × All (λ c. evaluate_single whole_host c yes_data ≡ true) (said_yes ∷ [])))
stored_evaluate_iff_example =
    stored_evaluate_iff whole_host (some name_form) false name_body name_config yes_data
      name_body-passes
