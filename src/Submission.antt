-- ===== src/Submission.antt =====
-- routes/form_render.rs: what the page of a form and the submission of an answer share: the form,
-- the stored responses, the clocks, and the gates in front of both.
-- Times are nanoseconds since the epoch.
pub mod Persist
pub mod Handler
pub mod Attempts
pub mod Page
pub mod Redaction
use Prim.Native.String
use form_respondent_role.Prelude.{
  ℕ, ◌+◌, ◌-◌, ◌*◌, ◌/◌, ◌^◌, String, Bool, true, false, not, ◌&&◌, ◌||◌, List, [], ◌∷◌, Option,
  none, some, Result, ok, err, and_then, map_or, any, find, keep, ltb, leb, str_eq, if◌then◌else◌,
}
use form_respondent_role.Prelude.Int.{ℤ, pos, pos_part, ltb_ℤ, sub_ℕ, neg_ℕ, ◌-ℤ◌, max_ℤ}
use form_respondent_role.Text.Decimal.{parse_u64}
use form_respondent_role.Json.{Value, Host}
use form_respondent_role.Models.Form.{FormSchema}
use form_respondent_role.Errors.{AppError}
use form_respondent_role.Jobs.{Queue}
use form_respondent_role.Retry.{RetryConfig, ExistingAttempt, from_str_or_default, nanos_per_second}
use form_respondent_role.Sync.{FormResponse}
use form_respondent_role.Tokens.{Crypto}

-- A row of the forms, `FormRow` and `SubmitRow`.
pub record Form (N : Type 0) : Type 0 where
  pub id : String
  pub guild_id : String
  pub slug : String
  pub title : String
  pub description : String
  pub version : ℤ  -- i32
  pub schema : Value N
  pub is_quiz : Bool
  pub passing_score : Option ℤ  -- i32
  pub open_at : Option ℕ
  pub close_at : Option ℕ
  pub allow_edits : Bool
  pub single_submission : Bool
  pub require_verified : Bool
  pub min_account_age_days : ℤ  -- i32
  pub success_message : String
  pub preview_token : String
  pub webhook_url : Option String
  pub archived : Bool
  pub max_attempts : ℤ  -- i32
  pub retry_cooldown_seconds : ℤ  -- i32
  pub retry_policy : String
  pub lock_on_pass : Bool

-- A row of the responses: what the synchronisation reads of it, and the columns of the attempts.
pub record StoredResponse (N : Type 0) : Type 0 where
  pub id : String
  pub response : FormResponse N
  pub schema_version : ℤ
  pub attempt_count : ℤ  -- i32
  pub passed : Option Bool
  pub last_edited_at : ℕ

pub record Store (N : Type 0) : Type 0 where
  pub responses : List (StoredResponse N)
  pub queue : Queue N

-- `Utc::now()`, the same for every call in a request, and `now()` of the transaction.
pub record Clock : Type 0 where
  pub now : ℕ
  pub transaction : ℕ

-- The process's configuration, and what the handlers call outside the repository: the auth
-- gateway, serde's reading of a stored schema, the text of a time, and the signatures.
pub record Service (h : Host) : Type 0 where
  pub session_secret : String
  pub base_url : String
  pub allowed_origins : List String
  pub crypto : Crypto
  pub fetch_user_guild_ids : String → Result (List String) AppError
  pub schema_of : Value h.Number → Result (FormSchema h) String
  pub to_rfc3339 : ℕ → String

abbrev pub seconds_of : ℕ → ℕ
seconds_of t = t / nanos_per_second

abbrev nanos_per_day : ℕ
nanos_per_day = 86400 * nanos_per_second

-- The whole days between two times, towards zero.
abbrev num_days : (created now : ℕ) → ℤ
num_days created now =
    if leb created now
    then pos ((now - created) / nanos_per_day)
    else neg_ℕ ((created - now) / nanos_per_day)

-- The id holds the milliseconds since the beginning of 2015 above its 22 lowest bits.
unfoldable pub discord_account_age_days : (now : ℕ) → String → Option ℤ
discord_account_age_days now discord_id = and_then (parse_u64 discord_id) λ snowflake.
    let ms = snowflake / 2 ^ 22 + 1420070400000 in
    some (num_days (ms / 1000 * nanos_per_second) now)

unfoldable pub is_retry_governed : (single_submission allow_edits is_quiz : Bool) → Bool
is_retry_governed single_submission allow_edits is_quiz =
    (single_submission || is_quiz) && not (allow_edits && not is_quiz)

abbrev pub is_past : Option ℕ → ℕ → Bool
is_past none now = false
is_past (some t) now = ltb t now

abbrev pub is_future : Option ℕ → ℕ → Bool
is_future none now = false
is_future (some t) now = ltb now t

-- `guild_ids.iter().any(|g| g == …)`.
abbrev pub is_member : String → List String → Bool
is_member guild_id guild_ids = any (λ g. str_eq g guild_id) guild_ids

-- `max_attempts - attempt_count`, at least 0, where the attempts are limited.
abbrev pub attempts_left : (max_attempts attempt_count : ℤ) → Option ℤ
attempts_left max_attempts attempt_count =
    if ltb_ℤ (pos 0) max_attempts
    then some (max_ℤ (max_attempts -ℤ attempt_count) (pos 0))
    else none

module _ {N : Type 0} where
  unfoldable pub retry_config_from_form : Form N → RetryConfig
  unfolding from_str_or_default
  retry_config_from_form f = record {
    max_attempts = f.max_attempts;
    cooldown_seconds = f.retry_cooldown_seconds;
    policy = from_str_or_default f.retry_policy;
    lock_on_pass = f.lock_on_pass;
  }

  -- `form_id = … AND discord_id = …`.
  abbrev pub belongs : (form_id discord_id : String) → StoredResponse N → Bool
  belongs form_id discord_id r =
      str_eq r.response.form_id form_id && str_eq r.response.discord_id discord_id

  -- `ORDER BY last_edited_at DESC LIMIT 1`.
  abbrev later : StoredResponse N → Option (StoredResponse N) → Option (StoredResponse N)
  later r none = some r
  later r (some s) = if ltb r.last_edited_at s.last_edited_at then some s else some r

  unfoldable pub latest : List (StoredResponse N) → Option (StoredResponse N)
  latest [] = none
  latest (r ∷ rows) = later r (latest rows)

  unfoldable pub load_canonical_attempt :
      (form_id discord_id : String) → List (StoredResponse N) → Option (StoredResponse N)
  unfolding latest
  load_canonical_attempt form_id discord_id rows = latest (keep (belongs form_id discord_id) rows)

  abbrev pub existing_attempt : StoredResponse N → ExistingAttempt
  existing_attempt r = record {
    attempt_count = r.attempt_count;
    last_attempt_at = r.last_edited_at;
    total_score = r.response.total_score;
    passed = r.passed;
  }

  -- `WHERE slug = …`, which is unique.
  abbrev pub load_form : String → List (Form N) → Option (Form N)
  load_form slug forms = find (λ f. str_eq f.slug slug) forms
