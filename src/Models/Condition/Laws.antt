-- ===== src/Models/Condition/Laws.antt =====
-- The keys of the operators.
use form_respondent_role.Prelude.{
  String, Option, some, ◌≡◌, refl, sym, ◌↔◌, arith, str_eq, str_eq_iff, Bool-cases, inl, inr,
  if◌then◌else◌,
}
use form_respondent_role.Models.Condition.{ConditionOperator, as_str, from_key}

from_key-as_str : (op : ConditionOperator) → from_key (as_str op) ≡ some op
unfolding from_key as_str
from_key-as_str ConditionOperator.eq = refl
from_key-as_str _ = refl

-- One arm of the `match`.
step :
    (k : String) (o op : ConditionOperator) (rest : Option ConditionOperator)
    → (rest ≡ some op → as_str op ≡ k)
    → (if str_eq k (as_str o) then some o else rest) ≡ some op
    → as_str op ≡ k
step k o op rest ih h = elim (Bool-cases (str_eq k (as_str o))) [
  | inl same ↦ let e : o ≡ op = ground arith in rw (← e) (sym ((str_eq_iff k (as_str o)).0 same))
  | inr other ↦ ih (rw other at h)
]

as_str_of_from_key : (k : String) (op : ConditionOperator) → from_key k ≡ some op → as_str op ≡ k
unfolding from_key as_str
as_str_of_from_key k op = step k ConditionOperator.eq op _ (
    step k ConditionOperator.neq op _ (
      step k ConditionOperator.contains op _ (
        step k ConditionOperator.regex op _ (
          step k ConditionOperator.one_of op _ (
            step k ConditionOperator.contains_all op _ (
              step k ConditionOperator.contains_any op _ (
                step k ConditionOperator.not_contains op _ (
                  step k ConditionOperator.gt op _ (
                    step k ConditionOperator.gte op _ (
                      step k ConditionOperator.lt op _ (
                        step k ConditionOperator.lte op _ (
                          step k ConditionOperator.between op _ (
                            step k ConditionOperator.before op _
                              (step k ConditionOperator.after op _ (λ h. cc)))))))))))))))

-- An operator is read from exactly one key, the one that it is printed as.
from_key_iff : (k : String) (op : ConditionOperator) → (from_key k ≡ some op) ↔ (as_str op ≡ k)
from_key_iff k op = (λ h. as_str_of_from_key k op h, λ e. rw (← e) (from_key-as_str op))
