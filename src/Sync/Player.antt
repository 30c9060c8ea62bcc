-- ===== src/Sync/Player.antt =====
-- services/sync.rs: `sync_for_player`, the synchronisation of one member, and `remove_all_assignments`.
-- The actions run at most ten at a time in the source; they touch different links, and run here in
-- the order of the list.
use Prim.Native.String
use form_respondent_role.Prelude.{
  length, String, Bool, true, false, not, ◌&&◌, ◌||◌, List, [], ◌∷◌, Option, none, some, Result, ok,
  err, any, keep, filter_map, flat_map, is_some, map_or, str_eq, if◌then◌else◌,
}
use form_respondent_role.Prelude.Int.{pos}
use form_respondent_role.Text.Decimal.{print_i64}
use form_respondent_role.Text.Order.{insert, member}
use form_respondent_role.Json.{Value, Host}
use form_respondent_role.Models.Condition.{Condition}
use form_respondent_role.Eval.{evaluate}
use form_respondent_role.Errors.{AppError, role_link_not_found, internal}
use form_respondent_role.Sync.{
  FormResponse, RoleLink, RoleAssignment, Db, Remote, is_link, is_assignment, response_data,
  delete_orphan_role_link, stored_conditions,
}

pub data Action (N : Type 0) : Type 0 where
  add remove : RoleLink N → Action N

-- `SELECT … FROM role_assignments`: whether the member has the link's role.
abbrev pub is_assigned : String → String → String → List RoleAssignment → Bool
is_assigned guild_id role_id discord_id rows = any (is_assignment guild_id role_id discord_id) rows

-- `ON CONFLICT DO NOTHING`.
abbrev pub add_assignment : {N : Type 0} → String → String → String → Db N → Db N
add_assignment guild_id role_id discord_id db =
    if is_assigned guild_id role_id discord_id db.assignments then db else record db {
      assignments =
          record { guild_id = guild_id; role_id = role_id; discord_id = discord_id }
          ∷ db.assignments;
    }

abbrev pub drop_assignment : {N : Type 0} → String → String → String → Db N → Db N
drop_assignment guild_id role_id discord_id db = record db {
  assignments = keep (λ a. not (is_assignment guild_id role_id discord_id a)) db.assignments;
}

abbrev pub is_err : Result (List String) AppError → Bool
is_err (ok ids) = false
is_err (err e) = true

-- `match (qualifies, currently_assigned)`.
abbrev pub choose : {N : Type 0} → Bool → Bool → RoleLink N → Option (Action N)
choose true false l = some (add l)
choose false true l = some (remove l)
choose _ _ l = none

module _ {N : Type 0} where
  -- The guilds of the member: the gateway's, those of the responses, those of the assignments.
  unfoldable pub is_candidate_guild : String → List String → Db N → String → Bool
  is_candidate_guild discord_id gateway_guilds db guild_id =
      member guild_id gateway_guilds
      || any (λ r. str_eq r.discord_id discord_id && str_eq r.guild_id guild_id) db.responses
      || any (λ a. str_eq a.discord_id discord_id && str_eq a.guild_id guild_id) db.assignments

  -- The links bound to a form in those guilds.
  unfoldable pub player_links : String → List String → Db N → List (RoleLink N)
  unfolding is_candidate_guild
  player_links discord_id gateway_guilds db =
      keep (λ l. is_candidate_guild discord_id gateway_guilds db l.guild_id && is_some l.form_id)
        db.links

  -- What is left after one call of the API.
  unfoldable pub after_add : Result (Unit {0}) AppError → RoleLink N → String → Db N → Db N
  after_add (ok _) l discord_id db = add_assignment l.guild_id l.role_id discord_id db
  after_add (err role_link_not_found) l discord_id db =
      delete_orphan_role_link l.guild_id l.role_id db
  after_add (err e) l discord_id db = db

  unfoldable pub after_remove : Result (Unit {0}) AppError → RoleLink N → String → Db N → Db N
  after_remove (ok _) l discord_id db = drop_assignment l.guild_id l.role_id discord_id db
  after_remove (err role_link_not_found) l discord_id db =
      delete_orphan_role_link l.guild_id l.role_id db
  after_remove (err e) l discord_id db = db

  unfoldable pub perform : Remote → String → Action N → Db N → Db N
  unfolding after_add after_remove
  perform remote discord_id (add l) db =
      after_add (remote.add_user l.guild_id l.role_id discord_id l.api_token) l discord_id db
  perform remote discord_id (remove l) db =
      after_remove (remote.remove_user l.guild_id l.role_id discord_id l.api_token) l discord_id db

  unfoldable pub perform_all : Remote → String → List (Action N) → Db N → Db N
  unfolding perform
  perform_all remote discord_id [] db = db
  perform_all remote discord_id (a ∷ actions) db =
      perform_all remote discord_id actions (perform remote discord_id a db)

  -- The member's links, through the assignments.
  unfoldable pub assigned_links : String → Db N → List (RoleLink N)
  assigned_links discord_id db =
      flat_map (λ (a : RoleAssignment). keep (is_link a.guild_id a.role_id) db.links)
        (keep (λ a. str_eq a.discord_id discord_id) db.assignments)

  -- A removal at unlink: only a link that is gone upstream changes the tables.
  unfoldable pub unlink : Result (Unit {0}) AppError → RoleLink N → Db N → Db N
  unlink (err role_link_not_found) l db = delete_orphan_role_link l.guild_id l.role_id db
  unlink answer l db = db

  unfoldable pub unlink_all : Remote → String → List (RoleLink N) → Db N → Db N
  unfolding unlink
  unlink_all remote discord_id [] db = db
  unlink_all remote discord_id (l ∷ links) db =
      unlink_all remote discord_id links
        (unlink (remote.remove_user l.guild_id l.role_id discord_id l.api_token) l db)

  unfoldable pub remove_all_assignments : Remote → String → Db N → Db N
  unfolding assigned_links unlink_all
  remove_all_assignments remote discord_id db =
      let after = unlink_all remote discord_id (assigned_links discord_id db) db in
      record after {
        assignments = keep (λ a. not (str_eq a.discord_id discord_id)) after.assignments;
      }

module _ (h : Host) (from_value : Value h.Number → Option (Condition h.Number)) where
  open h use {Number}

  -- Whether some response of the member to the form passes.
  unfoldable pub passes_any : List (FormResponse Number) → RoleLink Number → String → String → Bool
  passes_any responses l form_id discord_id =
      any
        (λ r.
          evaluate h l.grant_on_any_submission (stored_conditions h from_value l.conditions)
            (response_data r))
        (keep (λ r. str_eq r.form_id form_id && str_eq r.discord_id discord_id) responses)

  unfoldable pub qualifies :
      List String → List (FormResponse Number) → RoleLink Number → String → String → Bool
  unfolding passes_any
  qualifies optout_ids responses l form_id discord_id =
      if member discord_id optout_ids then false else passes_any responses l form_id discord_id

  -- The action for a link, given the answer of the opt-out lookup of its guild.
  unfoldable pub plan_link :
      Result (List String) AppError → Db Number → String → RoleLink Number → Option (Action Number)
  plan_link (err e) db discord_id l = none
  plan_link (ok optout_ids) db discord_id l =
      choose
        (map_or false (λ form_id. qualifies optout_ids db.responses l form_id discord_id) l.form_id)
        (is_assigned l.guild_id l.role_id discord_id db.assignments) l

  unfoldable pub plan : Remote → Db Number → String → List (RoleLink Number) → List (Action Number)
  unfolding plan_link
  plan remote db discord_id links =
      filter_map (λ l. plan_link (remote.fetch_guild_optout_ids l.guild_id) db discord_id l) links

  -- The guilds whose opt-outs could not be looked up, each once.
  abbrev pub unknown_guilds : Remote → List (RoleLink Number) → List String
  unfolding insert
  unknown_guilds remote [] = []
  unknown_guilds remote (l ∷ links) =
      let rest = unknown_guilds remote links in
      if is_err (remote.fetch_guild_optout_ids l.guild_id) then insert l.guild_id rest else rest

  abbrev pub deferred : List String → Result (Unit {0}) AppError
  deferred [] = ok tt
  deferred (g ∷ guilds) = err (
      internal (
        String.◌++◌ "opt-out lookup failed for "
          (String.◌++◌ (print_i64 (pos (length (g ∷ guilds)))) " guild(s); retrying those")))

  unfoldable pub sync_for_player :
      Remote → String → Db Number → Db Number × Result (Unit {0}) AppError
  unfolding player_links plan perform_all
  sync_for_player remote discord_id db = elim (remote.fetch_user_guild_ids discord_id) [
    | err e ↦ (db, err e)
    | ok gateway_guilds ↦
        let links = player_links discord_id gateway_guilds db in
        (
          perform_all remote discord_id (plan remote db discord_id links) db,
          deferred (unknown_guilds remote links),
        )
  ]
