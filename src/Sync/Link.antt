-- ===== src/Sync/Link.antt =====
-- services/sync.rs: `sync_for_role_link`, the synchronisation of one role link.
use form_respondent_role.Prelude.{
  ℕ, String, not, ◌&&◌, List, [], ◌++◌, map, Option, none, some, Result, ok, err, find, keep,
  is_nil, if◌then◌else◌,
}
use form_respondent_role.Text.Order.{sort, texts_eq}
use form_respondent_role.Json.{Value, Host}
use form_respondent_role.Models.Condition.{Condition}
use form_respondent_role.Errors.{
  AppError, role_link_not_found, role_link_disabled, removal_held, user_limit_reached,
}
use form_respondent_role.Jobs.{enqueue_config_sync_unless_queued}
use form_respondent_role.Sync.{
  RoleLink, RoleAssignment, Db, Remote, is_link, of_link, delete_orphan_role_link,
  stored_conditions, query_qualifying,
}

abbrev pub held_recheck_secs : ℕ
held_recheck_secs = 1200

module _ {N : Type 0} where
  -- `DELETE FROM role_assignments` of the link, then the insertion of the list.
  unfoldable pub replace_assignments : String → String → List String → Db N → Db N
  replace_assignments guild_id role_id ids db = record db {
    assignments =
        map (λ id. record { guild_id = guild_id; role_id = role_id; discord_id = id }) ids
        ++ keep (λ a. not (of_link guild_id role_id a)) db.assignments;
  }

  -- `SELECT discord_id FROM role_assignments` of the link, sorted.
  unfoldable pub current_ids : String → String → Db N → List String
  current_ids guild_id role_id db =
      sort (
        map (λ (a : RoleAssignment). a.discord_id) (keep (of_link guild_id role_id) db.assignments))

module _ (h : Host) (now : ℕ) where
  open h use {Number}

  unfoldable pub recheck_held : String → String → Db Number → Db Number
  recheck_held guild_id role_id db = record db {
    queue = enqueue_config_sync_unless_queued h now guild_id role_id held_recheck_secs db.queue;
  }

  -- What an upload leaves: `replaced` where it is accepted.
  unfoldable pub settle_upload :
      Result (Unit {0}) AppError
      → String
      → String
      → Db Number
      → Db Number
      → Db Number × Result (Unit {0}) AppError
  unfolding recheck_held
  settle_upload (ok _) guild_id role_id replaced db = (replaced, ok tt)
  settle_upload (err role_link_not_found) guild_id role_id replaced db =
      (delete_orphan_role_link guild_id role_id db, ok tt)
  settle_upload (err role_link_disabled) guild_id role_id replaced db = (db, ok tt)
  settle_upload (err removal_held) guild_id role_id replaced db =
      (recheck_held guild_id role_id db, ok tt)
  settle_upload (err e) guild_id role_id replaced db = (db, err e)

  module _ (from_value : Value Number → Option (Condition Number)) (remote : Remote) where
    -- The upload of the full list; over the limit that RoleLogic names, that of the capped one.
    unfoldable pub upload_list :
        (Option ℕ → List String)
        → RoleLink Number
        → Result (Unit {0}) AppError
        → Db Number
        → Db Number × Result (Unit {0}) AppError
    unfolding settle_upload replace_assignments
    upload_list ids l (err (user_limit_reached limit)) db =
        settle_upload (remote.upload_users l.guild_id l.role_id (ids (some limit)) l.api_token)
          l.guild_id l.role_id (replace_assignments l.guild_id l.role_id (ids (some limit)) db) db
    upload_list ids l answer db =
        settle_upload answer l.guild_id l.role_id
          (replace_assignments l.guild_id l.role_id (ids none) db) db

    -- A link that qualifies nobody is drained.
    unfoldable pub drain : RoleLink Number → Db Number → Db Number × Result (Unit {0}) AppError
    unfolding settle_upload replace_assignments
    drain l db =
        settle_upload (remote.upload_users l.guild_id l.role_id [] l.api_token) l.guild_id l.role_id
          (replace_assignments l.guild_id l.role_id [] db) db

    -- The rest, once the opt-outs of the guild are known.
    unfoldable pub rebuild :
        RoleLink Number → String → List String → Db Number → Db Number × Result (Unit {0}) AppError
    unfolding upload_list current_ids
    rebuild l form_id optout_ids db =
        let ids =
          query_qualifying h db.responses form_id optout_ids l.grant_on_any_submission
            (stored_conditions h from_value l.conditions) in
        if texts_eq (current_ids l.guild_id l.role_id db) (ids none)
        then (db, ok tt)
        else upload_list ids l (remote.upload_users l.guild_id l.role_id (ids none) l.api_token) db

    unfoldable pub sync_form_link :
        RoleLink Number → String → Db Number → Db Number × Result (Unit {0}) AppError
    unfolding drain rebuild
    sync_form_link l form_id db =
        if not l.grant_on_any_submission && is_nil (stored_conditions h from_value l.conditions)
        then drain l db
        else elim (remote.fetch_guild_optout_ids l.guild_id) [
          | err e ↦ (db, err e)
          | ok optout_ids ↦ rebuild l form_id optout_ids db
        ]

    unfoldable pub sync_bound_link :
        Option (RoleLink Number) → Db Number → Db Number × Result (Unit {0}) AppError
    unfolding sync_form_link
    sync_bound_link none db = (db, ok tt)
    sync_bound_link (some l) db = elim l.form_id [
      | none ↦ (db, ok tt)
      | some form_id ↦ sync_form_link l form_id db
    ]

    unfoldable pub sync_for_role_link :
        String → String → Db Number → Db Number × Result (Unit {0}) AppError
    unfolding sync_bound_link
    sync_for_role_link guild_id role_id db =
        sync_bound_link (find (is_link guild_id role_id) db.links) db
