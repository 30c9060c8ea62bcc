-- ===== src/Sync/Agreement.antt =====
-- The synchronisation of a member and that of a link qualify the same members.
use form_respondent_role.Prelude.{
  String, Bool, true, false, ◌&&◌, List, [], Option, none, ◌≡◌, ◌↔◌, inl, inr, arith, str_eq,
  str_eq_iff, In, keep, keep_iff, In-of_any, any_of_In, Bool-cases,
}
use form_respondent_role.Text.{is_empty}
use form_respondent_role.Text.Order.{member}
use form_respondent_role.Json.{Value, Host}
use form_respondent_role.Models.Condition.{Condition}
use form_respondent_role.Eval.{evaluate}
use form_respondent_role.Sync.{
  FormResponse, RoleLink, response_data, stored_conditions, query_qualifying,
}
use form_respondent_role.Sync.Qualifying.{HasPassed, In-query_qualifying_iff}
use form_respondent_role.Sync.Player.{passes_any, qualifies}

module _ (h : Host) (from_value : Value h.Number → Option (Condition h.Number)) where
  open h use {Number}

  module _ (responses : List (FormResponse Number)) (l : RoleLink Number)
      (form_id id : String) where
    abbrev conditions : List (Condition Number)
    conditions = stored_conditions h from_value l.conditions

    passes_any_iff :
        (passes_any h from_value responses l form_id id ≡ true)
        ↔ HasPassed h l.grant_on_any_submission conditions responses form_id [] id
    unfolding passes_any
    passes_any_iff =
        let mine : FormResponse Number → Bool =
          λ r. str_eq r.form_id form_id && str_eq r.discord_id id in
        let test : FormResponse Number → Bool =
          λ r. evaluate h l.grant_on_any_submission conditions (response_data r) in
        (
          λ t.
              let (r, i, p) = In-of_any test (keep mine responses) t in
              let (j, m) = (keep_iff mine r responses).0 i in
              (
                r,
                j,
                ground (arith, str_eq_iff r.form_id form_id),
                ground (arith, str_eq_iff r.discord_id id),
                p,
              ),
          λ w.
              let (r, j, f, e, p) = w in
              let m : mine r ≡ true =
                ground (arith, str_eq_iff r.form_id form_id, str_eq_iff r.discord_id id) in
              any_of_In test r (keep mine responses) ((keep_iff mine r responses).1 (j, m)) p,
        )

    -- A member with an id qualifies for a link in the synchronisation of the member exactly when
    -- the synchronisation of the link lists them, over the same responses and opt-outs.
    pub qualifies_iff_listed :
        (optout_ids : List String)
        → is_empty id ≡ false
        → (qualifies h from_value optout_ids responses l form_id id ≡ true)
          ↔ In id (
              query_qualifying h responses form_id optout_ids l.grant_on_any_submission conditions
                none)
    unfolding qualifies
    qualifies_iff_listed optout_ids present =
        let (to, from) =
          In-query_qualifying_iff h l.grant_on_any_submission conditions responses form_id
            optout_ids id in
        let (pass, passed) = passes_any_iff in
        elim (Bool-cases (member id optout_ids)) [
          | inl out ↦ rw out (λ t. absurd (cc), λ i. absurd (cc (out, (to i).1)))
          | inr in_scope ↦
              rw in_scope (λ t. from (present, in_scope, pass t), λ i. passed ((to i).2))
        ]
