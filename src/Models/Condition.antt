-- ===== src/Models/Condition.antt =====
-- models/condition.rs: the operators, conditions and their targets.
pub mod Laws
use form_respondent_role.Prelude.{String, Option, none, some, str_eq, if◌then◌else◌}
use form_respondent_role.Json.{Value}

pub data ConditionOperator : Type 0 where
  eq neq contains regex one_of contains_all contains_any not_contains : ConditionOperator
  gt gte lt lte between before after : ConditionOperator

-- `In` of the source is `one_of` here.
unfoldable pub as_str : ConditionOperator → String
as_str eq = "eq"
as_str neq = "neq"
as_str contains = "contains"
as_str regex = "regex"
as_str one_of = "in"
as_str contains_all = "contains_all"
as_str contains_any = "contains_any"
as_str not_contains = "not_contains"
as_str gt = "gt"
as_str gte = "gte"
as_str lt = "lt"
as_str lte = "lte"
as_str between = "between"
as_str before = "before"
as_str after = "after"

unfoldable pub from_key : String → Option ConditionOperator
from_key k =
    if str_eq k "eq"
    then some eq
    else if str_eq k "neq"
    then some neq
    else if str_eq k "contains"
    then some contains
    else if str_eq k "regex"
    then some regex
    else if str_eq k "in"
    then some one_of
    else if str_eq k "contains_all"
    then some contains_all
    else if str_eq k "contains_any"
    then some contains_any
    else if str_eq k "not_contains"
    then some not_contains
    else if str_eq k "gt"
    then some gt
    else if str_eq k "gte"
    then some gte
    else if str_eq k "lt"
    then some lt
    else if str_eq k "lte"
    then some lte
    else if str_eq k "between"
    then some between
    else if str_eq k "before"
    then some before
    else if str_eq k "after"
    then some after
    else none

pub data ConditionTarget : Type 0 where
  question : String → ConditionTarget
  quiz_total_score : ConditionTarget

pub record Condition (N : Type 0) : Type 0 where
  pub target : ConditionTarget
  pub operator : ConditionOperator
  pub value : Value N
  pub value_end : Option (Value N)
