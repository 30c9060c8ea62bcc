-- ===== src/Sync/Settled.antt =====
-- After the synchronisation of a link, that of a member has nothing left to do for it.
use form_respondent_role.Prelude.{
  ℕ, String, Bool, true, false, not, ◌&&◌, List, [], ◌∷◌, ◌++◌, map, Option, none, some, Result, ok,
  ◌≡◌, ◌↔◌, refl, sym, ap, ◌∙◌, inl, inr, arith, str_eq_iff, In, keep, is_nil, Bool-cases,
  eq_of_iff,
}
use form_respondent_role.Text.{is_empty}
use form_respondent_role.Text.Order.{member, texts_eq}
use form_respondent_role.Text.Order.Laws.{member_iff, In-sort_iff, texts_eq_iff}
use form_respondent_role.Json.{Value, Host}
use form_respondent_role.Models.Condition.{Condition}
use form_respondent_role.Eval.{evaluate}
use form_respondent_role.Errors.{AppError}
use form_respondent_role.Sync.{
  RoleLink, RoleAssignment, Db, Remote, of_link, stored_conditions, query_qualifying,
  delete_orphan_role_link,
}
use form_respondent_role.Sync.Qualifying.{In-query_qualifying_iff}
use form_respondent_role.Sync.Player.{is_assigned, qualifies, choose, plan_link}
use form_respondent_role.Sync.Link.{current_ids, drain, rebuild, sync_form_link}
use form_respondent_role.Sync.Agreement.{qualifies_iff_listed}

module _ (guild_id role_id id : String) where
  is_assigned-replaced :
      (ids : List String) (rows : List RoleAssignment)
      → is_assigned guild_id role_id id (
          map (λ i. record { guild_id = guild_id; role_id = role_id; discord_id = i }) ids
          ++ keep (λ a. not (of_link guild_id role_id a)) rows)
        ≡ member id ids
  is_assigned-replaced [] [] = refl
  is_assigned-replaced [] (a ∷ rows) = ground (arith, is_assigned-replaced [] rows)
  is_assigned-replaced (i ∷ ids) rows = ground (
    arith,
    is_assigned-replaced ids rows,
    str_eq_iff guild_id guild_id,
    str_eq_iff role_id role_id,
  )

  In-current_iff :
      (rows : List RoleAssignment)
      → In id (map (λ (a : RoleAssignment). a.discord_id) (keep (of_link guild_id role_id) rows))
        ↔ (is_assigned guild_id role_id id rows ≡ true)
  In-current_iff [] = ground arith
  In-current_iff (a ∷ rows) = ground (arith, In-current_iff rows, str_eq_iff a.discord_id id)

choose_same : {N : Type 0} (b : Bool) (l : RoleLink N) → choose b b l ≡ none
choose_same true l = refl
choose_same false l = refl

module _ (h : Host) (from_value : Value h.Number → Option (Condition h.Number)) where
  open h use {Number}

  -- Nothing is planned where the member has the role exactly when the member qualifies.
  plan_link_settled :
      (db : Db Number) (l : RoleLink Number) (form_id id : String) (optout_ids : List String)
      (answer : Result (List String) AppError) (b : Bool)
      → answer ≡ ok optout_ids
      → l.form_id ≡ some form_id
      → qualifies h from_value optout_ids db.responses l form_id id ≡ b
      → is_assigned l.guild_id l.role_id id db.assignments ≡ b
      → plan_link h from_value answer db id l ≡ none
  unfolding plan_link
  plan_link_settled db l form_id id optout_ids answer b known bound wanted given =
      ground (arith, choose_same b l)

  module _ (remote : Remote) (now : ℕ) (db : Db Number) (l : RoleLink Number) (form_id id : String)
      (optout_ids : List String) where
    -- The tables after the synchronisation of the link.
    abbrev pub after_link : Db Number
    after_link = (sync_form_link h now from_value remote l form_id db).0

    abbrev pub listed_ids : List String
    listed_ids =
        query_qualifying h db.responses form_id optout_ids l.grant_on_any_submission
          (stored_conditions h from_value l.conditions) none

    qualifies-eq-member :
        is_empty id ≡ false
        → qualifies h from_value optout_ids db.responses l form_id id ≡ member id listed_ids
    qualifies-eq-member present =
        let (to, from) =
          qualifies_iff_listed h from_value db.responses l form_id id optout_ids present in
        let (mem, mem') = member_iff id listed_ids in
        eq_of_iff _ _ (λ t. mem' (to t)) (λ t. from (mem t))

    abbrev IsAccepted : Type 0
    IsAccepted =
        (ids : List String) → remote.upload_users l.guild_id l.role_id ids l.api_token ≡ ok tt

    drained :
        (not l.grant_on_any_submission && is_nil (stored_conditions h from_value l.conditions))
          ≡ true
        → member id listed_ids ≡ false
    unfolding evaluate
    drained empty = elim (Bool-cases (member id listed_ids)) [
      | inr out ↦ out
      | inl listed ↦
          let (_, _, w) =
            (In-query_qualifying_iff h l.grant_on_any_submission
                (stored_conditions h from_value l.conditions) db.responses form_id optout_ids id).0
              ((member_iff id listed_ids).0 listed) in
          let (_, _, _, _, p) = w in absurd (ground arith)
    ]

    drain-assigned :
        IsAccepted
        → is_assigned l.guild_id l.role_id id (drain h now from_value remote l db).0.assignments
          ≡ false
    unfolding drain
    drain-assigned accepted =
        rw (accepted []) (is_assigned-replaced l.guild_id l.role_id id [] db.assignments)

    current-assigned :
        current_ids l.guild_id l.role_id db ≡ listed_ids
        → is_assigned l.guild_id l.role_id id db.assignments ≡ member id listed_ids
    unfolding current_ids
    current-assigned same =
        let rows =
          map (λ (a : RoleAssignment). a.discord_id)
            (keep (of_link l.guild_id l.role_id) db.assignments) in
        let (to, from) = In-current_iff l.guild_id l.role_id id db.assignments in
        let (out, into) = In-sort_iff id rows in
        let (mem, mem') = member_iff id listed_ids in
        eq_of_iff _ _ (λ t. mem' (rw same at (into (from t))))
          (λ t. to (out (rw (← same) at (mem t))))

    rebuild-assigned :
        IsAccepted
        → is_assigned l.guild_id l.role_id id
            (rebuild h now from_value remote l form_id optout_ids db).0.assignments
          ≡ member id listed_ids
    unfolding rebuild
    rebuild-assigned accepted =
        elim (Bool-cases (texts_eq (current_ids l.guild_id l.role_id db) listed_ids)) [
          | inl same ↦ rw same (current-assigned ((texts_eq_iff _ _).0 same))
          | inr other ↦
              rw (other, accepted listed_ids)
                (is_assigned-replaced l.guild_id l.role_id id listed_ids db.assignments)
        ]

    abbrev is_unruled : Bool
    is_unruled =
        not l.grant_on_any_submission && is_nil (stored_conditions h from_value l.conditions)

    form_link-drain :
        is_unruled ≡ true
        → sync_form_link h now from_value remote l form_id db ≡ drain h now from_value remote l db
    unfolding sync_form_link
    form_link-drain empty = rw empty

    form_link-rebuild :
        is_unruled ≡ false
        → remote.fetch_guild_optout_ids l.guild_id ≡ ok optout_ids
        → sync_form_link h now from_value remote l form_id db
          ≡ rebuild h now from_value remote l form_id optout_ids db
    unfolding sync_form_link
    form_link-rebuild ruled known = rw (ruled, known)

    -- Once the synchronisation of a link has had its uploads accepted, exactly the listed members
    -- are assigned.
    after_link-assigned :
        remote.fetch_guild_optout_ids l.guild_id ≡ ok optout_ids
        → IsAccepted
        → is_assigned l.guild_id l.role_id id after_link.assignments ≡ member id listed_ids
    after_link-assigned known accepted =
        elim (Bool-cases
          (not l.grant_on_any_submission && is_nil (stored_conditions h from_value l.conditions))) [
            | inl empty ↦
                ap (λ r. is_assigned l.guild_id l.role_id id r.0.assignments)
                  (form_link-drain empty)
                ∙ (drain-assigned accepted ∙ sym (drained empty))
            | inr ruled ↦
                ap (λ r. is_assigned l.guild_id l.role_id id r.0.assignments)
                  (form_link-rebuild ruled known)
                ∙ rebuild-assigned accepted
          ]

    unchanged_responses : after_link.responses ≡ db.responses
    unfolding sync_form_link delete_orphan_role_link
    unchanged_responses = ground arith

    -- After the synchronisation of a link that is bound to a form, with its uploads accepted and
    -- its guild's opt-outs known, the synchronisation of any member whose id is not blank, over
    -- those tables, plans nothing for the link: it neither takes back what the list granted nor
    -- grants what the list left out.
    pub after_link-idle :
        remote.fetch_guild_optout_ids l.guild_id ≡ ok optout_ids
        → IsAccepted
        → l.form_id ≡ some form_id
        → is_empty id ≡ false
        → plan_link h from_value (remote.fetch_guild_optout_ids l.guild_id) after_link id l ≡ none
    after_link-idle known accepted bound present =
        let wanted : qualifies h from_value optout_ids after_link.responses l form_id id
            ≡ member id listed_ids =
          rw unchanged_responses (qualifies-eq-member present) in
        plan_link_settled after_link l form_id id optout_ids _ (member id listed_ids) known bound
          wanted (after_link-assigned known accepted)
