-- ===== src/Tests/Qualification.antt =====
-- The theorems on qualification, conditions and configurations, on small tables.
use form_respondent_role.Prelude.{
  err, String, true, false, [], ◌∷◌, none, some, ok, ◌≡◌, ◌↔◌, ◌⊎◌, refl, inl, inr, In,
}
use form_respondent_role.Prelude.Int.{ℤ}
use form_respondent_role.Text.{is_empty}
use form_respondent_role.Text.Order.{member, IsSorted}
use form_respondent_role.Json.{null, str, arr, obj, nil, cons, end}
use form_respondent_role.Models.Condition.{neq, not_contains}
use form_respondent_role.Eval.{ResponseEvalData, evaluate_single, actual_value}
use form_respondent_role.Json.Map.{lookup}
use form_respondent_role.Eval.Laws.{unanswered_iff}
use form_respondent_role.Sync.{FormResponse, response_data, query_qualifying, stored_conditions}
use form_respondent_role.Sync.Qualifying.{
  HasPassed, In-query_qualifying_iff, query_qualifying_order, query_qualifying-IsSorted,
}
use form_respondent_role.Sync.Player.{qualifies, plan_link}
use form_respondent_role.Sync.Agreement.{qualifies_iff_listed}
use form_respondent_role.Sync.Unlinked.{IsUnlinked, remove_all_assignments_iff}
use form_respondent_role.Sync.{RoleAssignment, Remote}
use form_respondent_role.Errors.{role_link_not_found}
use form_respondent_role.Sync.Settled.{after_link, after_link-idle}
use form_respondent_role.Tests.Data.{
  whole_host, said_yes, read_condition, yes_row, no_row, yes_link, small_db, calm_remote,
}

after_link-idle_example :
    plan_link whole_host read_condition
      (ok [])
      (after_link whole_host read_condition calm_remote 7 small_db yes_link "f1" "u1" [])
      "u1"
      yes_link
    ≡ none
after_link-idle_example =
    after_link-idle whole_host read_condition calm_remote 7 small_db yes_link "f1" "u1" [] refl
      (λ ids. refl) refl refl

qualifies_iff_listed_example :
    (qualifies whole_host read_condition [] small_db.responses yes_link "f1" "u1" ≡ true)
    ↔ In "u1" (
        query_qualifying whole_host small_db.responses "f1" [] false
          (stored_conditions whole_host read_condition (arr (cons null nil)))
          none)
qualifies_iff_listed_example =
    qualifies_iff_listed whole_host read_condition small_db.responses yes_link "f1" "u1" [] refl

In-query_qualifying_iff_example :
    In "u1"
      (query_qualifying whole_host small_db.responses "f1" ("u2" ∷ []) false (said_yes ∷ []) none)
    ↔ ((is_empty "u1" ≡ false)
        × (member "u1" ("u2" ∷ []) ≡ false)
        × HasPassed whole_host false (said_yes ∷ []) small_db.responses "f1" ("u2" ∷ []) "u1")
In-query_qualifying_iff_example =
    In-query_qualifying_iff whole_host false (said_yes ∷ []) small_db.responses "f1" ("u2" ∷ [])
      "u1"

query_qualifying-IsSorted_example :
    IsSorted (query_qualifying whole_host small_db.responses "f1" [] true [] (some 1))
query_qualifying-IsSorted_example =
    query_qualifying-IsSorted whole_host true [] small_db.responses "f1" [] (some 1)

same_rows :
    (r : FormResponse ℤ) → In r (no_row ∷ yes_row ∷ []) ↔ In r (yes_row ∷ no_row ∷ yes_row ∷ [])
same_rows r = (
  elim [ inl e ↦ inr (inl e) | inr (inl e) ↦ inl e | inr (inr i) ↦ absurd i ],
  elim [
    | inl e ↦ inr (inl e)
    | inr (inl e) ↦ inl e
    | inr (inr (inl e)) ↦ inr (inl e)
    | inr (inr (inr i)) ↦ absurd i
  ],
)

query_qualifying_order_example :
    query_qualifying whole_host (no_row ∷ yes_row ∷ []) "f1" [] true [] none
    ≡ query_qualifying whole_host (yes_row ∷ no_row ∷ yes_row ∷ []) "f1" [] true [] none
query_qualifying_order_example =
    query_qualifying_order whole_host true [] (no_row ∷ yes_row ∷ [])
      (yes_row ∷ no_row ∷ yes_row ∷ []) "f1" [] same_rows

-- A member who answered "yes", and one who did not answer.
abbrev yes_data : ResponseEvalData ℤ
yes_data = response_data yes_row

abbrev no_answer : ResponseEvalData ℤ
no_answer = record { answers = obj end; total_score = none }

unanswered_iff_example : (evaluate_single whole_host said_yes no_answer ≡ true) ↔ (
    ((said_yes.operator ≡ neq) × ((s : String) × (said_yes.value ≡ str s) × (is_empty s ≡ false)))
    ⊎ (said_yes.operator ≡ not_contains))
unfolding actual_value lookup
unanswered_iff_example = unanswered_iff whole_host said_yes no_answer refl

abbrev gone_remote : Remote
gone_remote = record calm_remote { remove_user = λ a b c d. err role_link_not_found }

abbrev her_row : RoleAssignment
her_row = record { guild_id = "g1"; role_id = "r1"; discord_id = "u2" }

remove_all_assignments_iff_example : IsUnlinked gone_remote "u2" small_db yes_link her_row
remove_all_assignments_iff_example =
    remove_all_assignments_iff gone_remote "u2" small_db yes_link her_row
