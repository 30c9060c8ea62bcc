-- ===== src/Worker.antt =====
-- tasks/job_worker.rs: how a claimed job is read, run and settled.
pub mod Laws
pub mod Payloads
use form_respondent_role.Prelude.{
  ℕ, String, Bool, true, false, List, [], ◌∷◌, Option, none, some, Result, ok, err, ◌>>=◌, ok_or,
  leb, ltb, and_then, str_eq, if◌then◌else◌,
}
use form_respondent_role.Json.{Value, Host, get, as_str}
use form_respondent_role.Errors.{AppError, role_link_not_found, user_limit_reached, display}
use form_respondent_role.Jobs.{
  JobKind, player_sync, config_sync, webhook, from_db, Job, Queue, complete, fail_retry, fail_dead,
}

abbrev pub batch_size : ℕ
batch_size = 8

abbrev pub stuck_lock_secs : ℕ
stuck_lock_secs = 2700

-- What a job asks for.
pub data Work (N : Type 0) : Type 0 where
  sync_player remove_player : String → Work N
  sync_link : String → String → Work N
  deliver : String → Value N → Work N

-- Why a job failed; the message of a payload that cannot be read is its reason.
pub data Reason : Type 0 where
  unknown_kind : String → Reason
  invalid_player_payload missing_guild_id missing_role_id missing_url missing_body : Reason
  link_gone : Reason
  limit_reached : ℕ → Reason
  failed : String → Reason

pub data JobError : Type 0 where
  terminal retry : Reason → JobError

unfoldable pub from_app_error : AppError → JobError
unfolding display
from_app_error role_link_not_found = terminal link_gone
from_app_error (user_limit_reached limit) = terminal (limit_reached limit)
from_app_error e = retry (failed (display e))

module _ {N : Type 0} where
  abbrev pub text_at : String → Value N → Option String
  text_at key payload = and_then (get key payload) as_str

  -- `serde_json::from_value::<PlayerSyncPayload>`, which reads the tag and the one field.
  unfoldable pub read_player : Value N → Option (Work N)
  read_player payload = and_then (text_at "event" payload) λ event.
      and_then (text_at "discord_id" payload) λ id.
        if str_eq event "updated"
        then some (sync_player id)
        else if str_eq event "unlinked"
        then some (remove_player id)
        else none

  unfoldable pub read_work : JobKind → Value N → Result (Work N) JobError
  unfolding read_player
  read_work player_sync payload = ok_or (read_player payload) (terminal invalid_player_payload)
  read_work config_sync payload = do
    guild_id ← ok_or (text_at "guild_id" payload) (terminal missing_guild_id)
    role_id ← ok_or (text_at "role_id" payload) (terminal missing_role_id)
    ok (sync_link guild_id role_id)
  read_work webhook payload = do
    url ← ok_or (text_at "url" payload) (terminal missing_url)
    body ← ok_or (get "body" payload) (terminal missing_body)
    ok (deliver url body)

  -- `perform` is what the synchronisation and the webhook delivery do and answer.
  unfoldable pub dispatch :
      (Work N → Result (Unit {0}) JobError) → Job N → Result (Unit {0}) JobError
  unfolding from_db read_work
  dispatch perform job = do
    kind ← ok_or (from_db job.kind) (terminal (unknown_kind job.kind))
    work ← read_work kind job.payload
    perform work

  -- `describe` is the message that is stored with a failure.
  unfoldable pub settle :
      (Reason → String) → ℕ → ℕ → Job N → Result (Unit {0}) JobError → Queue N → Queue N
  unfolding complete fail_retry fail_dead
  settle describe now jitter_ms job (ok _) q = complete now job.id q
  settle describe now jitter_ms job (err (terminal reason)) q =
      fail_dead now job.id (describe reason) q
  settle describe now jitter_ms job (err (retry reason)) q =
      if leb job.max_attempts job.attempts
      then fail_dead now job.id (describe reason) q
      else fail_retry now jitter_ms job (describe reason) q

  -- One claimed job of the batch; on shutdown it goes back to the queue without being run.
  unfoldable pub handle :
      (Reason → String)
      → (Work N → Result (Unit {0}) JobError)
      → ℕ
      → ℕ
      → Bool
      → Job N
      → Queue N
      → Queue N
  unfolding settle dispatch
  handle describe perform now jitter_ms shutting_down job q =
      if shutting_down
      then fail_retry now jitter_ms job "worker shutting down" q
      else settle describe now jitter_ms job (dispatch perform job) q
