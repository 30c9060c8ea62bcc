-- ===== src/Jobs.antt =====
-- services/jobs.rs: the durable queue, a table whose rows stand in the order of their ids.
-- Times are milliseconds since the epoch; `now` is the database's clock.
pub mod Invariant
pub mod Claim
pub mod Enqueued
pub mod Reach
pub mod Debounce
use form_respondent_role.Prelude.{
  ℕ, zero, suc, ◌+◌, ◌-◌, ◌*◌, ◌^◌, String, Bool, true, false, not, ◌&&◌, List, [], ◌∷◌, ◌++◌, map,
  Option, none, some, ltb, leb, ◌==◌, str_eq, any, if◌then◌else◌,
}
use form_respondent_role.Json.{Value, str, obj, of_entries, Host}

pub data JobKind : Type 0 where
  player_sync config_sync webhook : JobKind

unfoldable pub as_str : JobKind → String
as_str player_sync = "player_sync"
as_str config_sync = "config_sync"
as_str webhook = "webhook"

unfoldable pub from_db : String → Option JobKind
from_db s =
    if str_eq s "player_sync"
    then some player_sync
    else if str_eq s "config_sync"
    then some config_sync
    else if str_eq s "webhook"
    then some webhook
    else none

pub data JobStatus : Type 0 where
  pending in_progress completed dead : JobStatus

abbrev pub is_pending : JobStatus → Bool
is_pending pending = true
is_pending _ = false

abbrev pub is_in_progress : JobStatus → Bool
is_in_progress in_progress = true
is_in_progress _ = false

pub record Job (N : Type 0) : Type 0 where
  pub id : ℕ
  pub kind : String
  pub payload : Value N
  pub status : JobStatus
  pub attempts : ℕ
  pub max_attempts : ℕ
  pub next_run_at : ℕ
  pub last_error : Option String
  pub locked_by : Option String
  pub locked_at : Option ℕ
  pub completed_at : Option ℕ

pub record Queue (N : Type 0) : Type 0 where
  pub jobs : List (Job N)
  pub next_id : ℕ

abbrev pub default_max_attempts : ℕ
default_max_attempts = 8

-- `attempt.clamp(1, 8)`, the delay in milliseconds, with the jitter that was drawn.
unfoldable pub backoff_delay : ℕ → ℕ → ℕ
backoff_delay attempt jitter_ms =
    2 ^ (if ltb attempt 1 then 1 else if ltb 8 attempt then 8 else attempt) * 1000 + jitter_ms

abbrev pub is_before : Option ℕ → ℕ → Bool
is_before none t = false
is_before (some s) t = ltb s t

module _ {N : Type 0} where
  unfoldable pub enqueue : ℕ → JobKind → Value N → ℕ → Queue N → Queue N
  unfolding as_str
  enqueue now kind payload delay_secs q = record {
    jobs =
        q.jobs
        ++ record {
          id = q.next_id;
          kind = as_str kind;
          payload = payload;
          status = pending;
          attempts = 0;
          max_attempts = default_max_attempts;
          next_run_at = now + delay_secs * 1000;
          last_error = none;
          locked_by = none;
          locked_at = none;
          completed_at = none;
        }
          ∷ [];
    next_id = suc q.next_id;
  }

  abbrev pub is_due : ℕ → Job N → Bool
  is_due now j = is_pending j.status && leb j.next_run_at now

  abbrev pub claimed_by : ℕ → String → Job N → Job N
  claimed_by now worker j = record j {
    status = in_progress;
    attempts = suc j.attempts;
    locked_by = some worker;
    locked_at = some now;
  }

  -- The rows after a claim of up to `room` due jobs, in the order of the ids, and the claimed ones.
  -- `skipped` tells the rows that another transaction has locked.
  unfoldable pub claim : ℕ → String → (ℕ → Bool) → ℕ → List (Job N) → List (Job N) × List (Job N)
  claim now worker skipped room [] = ([], [])
  claim now worker skipped zero (j ∷ js) = (j ∷ js, [])
  claim now worker skipped (suc room) (j ∷ js) = elim (is_due now j && not (skipped j.id)) [
    | true ↦
        let (rows, claimed) = claim now worker skipped room js in
        (claimed_by now worker j ∷ rows, claimed_by now worker j ∷ claimed)
    | false ↦ let (rows, claimed) = claim now worker skipped (suc room) js in (j ∷ rows, claimed)
  ]

  unfoldable pub claim_batch : ℕ → String → (ℕ → Bool) → ℕ → Queue N → Queue N × List (Job N)
  unfolding claim
  claim_batch now worker skipped batch_size q =
      let (rows, claimed) = claim now worker skipped batch_size q.jobs in
      (record q { jobs = rows }, claimed)

  -- `UPDATE jobs SET … WHERE id = …`.
  abbrev pub update : ℕ → (Job N → Job N) → Queue N → Queue N
  update id change q = record q {
    jobs = map (λ (j : Job N). if j.id == id then change j else j) q.jobs;
  }

  unfoldable pub complete : ℕ → ℕ → Queue N → Queue N
  complete now id = update id λ j. record j {
    status = completed;
    completed_at = some now;
    locked_by = none;
    locked_at = none;
  }

  -- `job` is the row as it was claimed.
  unfoldable pub fail_retry : ℕ → ℕ → Job N → String → Queue N → Queue N
  unfolding backoff_delay
  fail_retry now jitter_ms job error = update job.id λ j. record j {
    status = pending;
    next_run_at = now + backoff_delay job.attempts jitter_ms;
    last_error = some error;
    locked_by = none;
    locked_at = none;
  }

  unfoldable pub fail_dead : ℕ → ℕ → String → Queue N → Queue N
  fail_dead now id error = update id λ j. record j {
    status = dead;
    completed_at = some now;
    last_error = some error;
    locked_by = none;
    locked_at = none;
  }

  abbrev pub is_stuck : ℕ → ℕ → Job N → Bool
  is_stuck now max_lock_secs j =
      is_in_progress j.status && is_before j.locked_at (now - max_lock_secs * 1000)

  unfoldable pub reap_stuck : ℕ → ℕ → Queue N → Queue N
  reap_stuck now max_lock_secs q = record q {
    jobs =
        map
          (λ (j : Job N).
            if is_stuck now max_lock_secs j
            then record j {
              status = pending;
              next_run_at = now;
              locked_by = none;
              locked_at = none;
            }
            else j)
          q.jobs;
  }

abbrev pub config_debounce_secs : ℕ
config_debounce_secs = 5

module _ (h : Host) where
  open h use {Number}

  abbrev pub link_payload : String → String → Value Number
  link_payload guild_id role_id =
      obj (of_entries (("guild_id", str guild_id) ∷ ("role_id", str role_id) ∷ []))

  unfoldable pub enqueue_config_sync : ℕ → String → String → Queue Number → Queue Number
  unfolding enqueue
  enqueue_config_sync now guild_id role_id =
      enqueue now config_sync (link_payload guild_id role_id) config_debounce_secs

  abbrev pub is_queued : Value Number → Job Number → Bool
  is_queued payload j =
      str_eq j.kind "config_sync" && is_pending j.status && h.jsonb_eq j.payload payload

  unfoldable pub enqueue_config_sync_unless_queued :
      ℕ → String → String → ℕ → Queue Number → Queue Number
  unfolding enqueue
  enqueue_config_sync_unless_queued now guild_id role_id delay_secs q =
      if any (is_queued (link_payload guild_id role_id)) q.jobs
      then q
      else enqueue now config_sync (link_payload guild_id role_id) delay_secs q

  unfoldable pub enqueue_webhook : ℕ → String → Value Number → Queue Number → Queue Number
  unfolding enqueue
  enqueue_webhook now url body =
      enqueue now webhook (obj (of_entries (("url", str url) ∷ ("body", body) ∷ []))) 0

  -- `PlayerSyncPayload`, tagged by its event.
  unfoldable pub player_payload : Bool → String → Value Number
  player_payload unlinked discord_id = obj (
      of_entries (
        ("event", str (if unlinked then "unlinked" else "updated"))
        ∷ ("discord_id", str discord_id)
        ∷ []))

  unfoldable pub enqueue_player_sync : ℕ → Bool → String → Queue Number → Queue Number
  unfolding enqueue player_payload
  enqueue_player_sync now unlinked discord_id =
      enqueue now player_sync (player_payload unlinked discord_id) 0
