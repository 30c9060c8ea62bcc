-- ===== src/Submission/Page.antt =====
-- routes/form_render.rs: `get_form`, the page of a form, `get_preview` and the retry status.
pub mod Agreement
use form_respondent_role.Prelude.{
  ℕ, ◌+◌, ◌*◌, String, Bool, true, false, not, ◌&&◌, List, Option, none, some, map_or, and_then,
  Result, ok, err, ◌>>=◌, ◌>>◌, ok_or, refuse_if, is_some, ltb, if◌then◌else◌,
}
use form_respondent_role.Prelude.Int.{ℤ, pos, pos_part, ltb_ℤ, leb_ℤ}
use form_respondent_role.Json.{Host}
use form_respondent_role.Errors.{AppError, forbidden, form_not_found}
use form_respondent_role.Retry.{
  RetryConfig, ExistingAttempt, is_true, next_at, nanos_per_second, retries_enabled,
}
use form_respondent_role.Tokens.Bytes.{as_bytes, constant_time_eq}
use form_respondent_role.Tokens.Cookie.{verify_session}
use form_respondent_role.Submission.{
  Form, StoredResponse, Store, Service, seconds_of, discord_account_age_days, is_retry_governed,
  is_past, is_future, is_member, retry_config_from_form, load_canonical_attempt, existing_attempt,
  load_form, attempts_left,
}

pub data BlockedReason : Type 0 where
  passed exhausted : BlockedReason

pub record RetryStatus : Type 0 where
  pub enabled : Bool
  pub max_attempts : ℤ
  pub attempts_used : ℤ
  pub attempts_left : Option ℤ
  pub cooldown_seconds : ℤ
  pub next_attempt_at : Option ℕ
  pub blocked : Bool
  pub blocked_reason : Option BlockedReason
  pub passed : Option Bool

-- The block and the time of the next attempt, for an attempt that is there.
unfoldable pub gate : RetryConfig → (now : ℕ) → ExistingAttempt → Option BlockedReason × Option ℕ
gate c now e =
    if c.lock_on_pass && is_true e.passed
    then (some passed, none)
    else if ltb_ℤ (pos 0) c.max_attempts && leb_ℤ c.max_attempts e.attempt_count
    then (some exhausted, none)
    else if ltb_ℤ (pos 0) c.cooldown_seconds && ltb now (next_at c e)
    then (none, some (next_at c e))
    else (none, none)

unfoldable pub build_retry_status : RetryConfig → Option ExistingAttempt → (now : ℕ) → RetryStatus
unfolding gate retries_enabled
build_retry_status c existing now =
    let attempts_used = map_or (pos 0) (λ (e : ExistingAttempt). e.attempt_count) existing in
    let shut = map_or (none, none) (gate c now) existing in
    record {
      enabled = retries_enabled c;
      max_attempts = c.max_attempts;
      attempts_used = attempts_used;
      attempts_left = attempts_left c.max_attempts attempts_used;
      cooldown_seconds = c.cooldown_seconds;
      next_attempt_at = shut.1;
      blocked = is_some shut.0;
      blocked_reason = shut.0;
      passed = and_then existing (λ e. e.passed);
    }

-- What the browser is shown; the wording of a status page is that of the source.
pub data Page : Type 0 where
  opens_at : ℕ → Page
  closed : Page
  sign_in : Page
  too_young : (min_days age : ℤ) → Page
  unverified : Page
  members_only : Page
  form_page : (discord_id display_name : String) → (preview : Bool) → Option RetryStatus → Page

module _ (h : Host) where
  open h use {Number}

  -- Each gate shows its page, and the form comes after the last.
  unfoldable pub gate_age : ℕ → ℤ → String → Result (Unit {0}) Page
  unfolding discord_account_age_days
  gate_age now min_days discord_id =
      let age = map_or (pos 0) (λ a. a) (discord_account_age_days now discord_id) in
      refuse_if (ltb_ℤ (pos 0) min_days && ltb_ℤ age min_days) (too_young min_days age)

  abbrev gate_members : Form Number → Result (List String) AppError → Result (Unit {0}) Page
  gate_members f (ok guild_ids) = refuse_if (not (is_member f.guild_id guild_ids)) members_only
  gate_members f (err e) = err unverified

  unfoldable pub gate_verified : Service h → Form Number → String → Result (Unit {0}) Page
  gate_verified service f discord_id =
      if f.require_verified then gate_members f (service.fetch_user_guild_ids discord_id) else ok tt

  abbrev gate_open : Option ℕ → ℕ → Result (Unit {0}) Page
  gate_open none now = ok tt
  gate_open (some t) now = refuse_if (ltb now t) (opens_at t)

  unfoldable pub retry_status :
      Form Number → ℕ → String → List (StoredResponse Number) → Option RetryStatus
  unfolding is_retry_governed retry_config_from_form load_canonical_attempt build_retry_status
  retry_status f now discord_id rows =
      if is_retry_governed f.single_submission f.allow_edits f.is_quiz
      then some (
          build_retry_status (retry_config_from_form f)
            (map_or none (λ r. some (existing_attempt r))
              (load_canonical_attempt f.id discord_id rows))
            now)
      else none

  abbrev shown : Result Page Page → Page
  shown (ok page) = page
  shown (err page) = page

  -- The pages of a form that is there and not archived.
  unfoldable pub form_gates :
      Service h
      → ℕ
      → Form Number
      → (cookie : Option String) → List (StoredResponse Number)
      → Result Page Page
  unfolding verify_session gate_age gate_verified retry_status
  form_gates service now f cookie rows = do
    gate_open f.open_at now
    refuse_if (is_past f.close_at now) closed
    member ←
        ok_or
          (and_then cookie
            λ value. verify_session service.crypto (seconds_of now) value service.session_secret)
          sign_in
    gate_age now f.min_account_age_days member.0
    gate_verified service f member.0
    ok (form_page member.0 member.1 false (retry_status f now member.0 rows))

  unfoldable pub get_form :
      Service h
      → ℕ
      → List (Form Number)
      → (slug : String) → (cookie : Option String) → List (StoredResponse Number)
      → Result Page AppError
  unfolding form_gates
  get_form service now forms slug cookie rows = do
    f ← ok_or (load_form slug forms) (form_not_found slug)
    refuse_if f.archived (form_not_found slug)
    ok (shown (form_gates service now f cookie rows))

  unfoldable pub get_preview : List (Form Number) → (slug token : String) → Result Page AppError
  unfolding as_bytes constant_time_eq
  get_preview forms slug token = do
    f ← ok_or (load_form slug forms) (form_not_found slug)
    refuse_if (not (constant_time_eq (as_bytes token) (as_bytes f.preview_token)))
        (forbidden "Invalid preview token.")
    ok (form_page "preview" "Preview" true none)
