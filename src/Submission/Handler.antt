-- ===== src/Submission/Handler.antt =====
-- routes/form_render.rs: `post_submit`, from the request to the reply.
pub mod Accepted
pub mod Queued
pub mod Frame
use Prim.Native.String
use form_respondent_role.Prelude.{
  ℕ, ◌/◌, String, Bool, true, false, not, ◌&&◌, ◌||◌, List, [], ◌∷◌, Option, none, some, map_or,
  and_then, Result, ok, err, ◌>>=◌, ◌>>◌, ok_or, refuse_if, map_err, str_eq, if◌then◌else◌,
}
use form_respondent_role.Prelude.Int.{ℤ, pos, ltb_ℤ, leb_ℤ, eqb_ℤ}
use form_respondent_role.Text.{is_empty, trim}
use form_respondent_role.Text.Decimal.{print_i64}
use form_respondent_role.Json.{Value, null, bool, str, number, obj, of_entries, Host}
use form_respondent_role.Models.Form.{FormSchema}
use form_respondent_role.Validator.Answers.{VerifiedAnswers, validate}
use form_respondent_role.Validator.Quiz.{compute_quiz_score}
use form_respondent_role.Errors.{
  AppError, forbidden, unauthorized_with, form_not_found, stale_version, form_closed, internal,
  validation_failed,
}
use form_respondent_role.Jobs.{Queue, enqueue_player_sync, enqueue_webhook}
use form_respondent_role.Retry.{retries_enabled, nanos_per_milli}
use form_respondent_role.Tokens.Cookie.{verify_session}
use form_respondent_role.Guards.{verify_origin}
use form_respondent_role.Webhook.{build_payload}
use form_respondent_role.Submission.{
  Form, Store, Clock, Service, seconds_of, discord_account_age_days, is_past, is_future, is_member,
  retry_config_from_form, load_form,
}
use form_respondent_role.Submission.Persist.{
  Graded, Persisted, passes, is_single, is_editable, persist,
}

pub record Request (N : Type 0) : Type 0 where
  pub slug : String
  pub preview : Option String
  pub origin : Option String
  pub cookie : Option String
  pub answers : Value N
  pub version : ℤ

module _ (h : Host) where
  open h use {Number}

  -- The gates of a form, in the order of the source.
  unfoldable pub check_age : ℕ → ℤ → String → Result (Unit {0}) AppError
  unfolding discord_account_age_days
  check_age now min_days discord_id =
      refuse_if
        (ltb_ℤ (pos 0) min_days
          && ltb_ℤ (map_or (pos 0) (λ a. a) (discord_account_age_days now discord_id)) min_days)
        (forbidden
          (String.◌++◌ "Account must be ≥" (String.◌++◌ (print_i64 min_days) " days old.")))

  unfoldable pub check_verified : Service h → Form Number → String → Result (Unit {0}) AppError
  check_verified service f discord_id =
      if f.require_verified
      then (do
        guild_ids ← service.fetch_user_guild_ids discord_id
        refuse_if (not (is_member f.guild_id guild_ids))
            (forbidden "You must be a member of the server first."))
      else ok tt

  abbrev pub is_closed : ℕ → Form Number → Bool
  is_closed now f = is_future f.open_at now || is_past f.close_at now

  unfoldable pub admit :
      Service h → ℕ → Form Number → (version : ℤ) → String → Result (Unit {0}) AppError
  unfolding check_age check_verified
  admit service now f version discord_id = do
    refuse_if f.archived (form_not_found f.slug)
    refuse_if (not (eqb_ℤ f.version version)) stale_version
    refuse_if (is_closed now f) form_closed
    check_age now f.min_account_age_days discord_id
    check_verified service f discord_id

  -- The validated answers with their score.
  unfoldable pub grade : Form Number → FormSchema h → VerifiedAnswers h → String → Graded Number
  unfolding compute_quiz_score passes
  grade f schema verified discord_id =
      let score = if f.is_quiz then some (compute_quiz_score h schema verified) else none in
      record {
        discord_id = discord_id;
        answers = obj (of_entries verified);
        total_score = score;
        passed = passes f.is_quiz score f.passing_score;
      }

  unfoldable pub check_answers :
      Service h → Form Number → Value Number → String → Result (Graded Number) AppError
  unfolding validate grade
  check_answers service f answers discord_id = do
    schema ←
        map_err (λ e. internal (String.◌++◌ "form schema invalid: " e)) (service.schema_of f.schema)
    verified ← map_err validation_failed (validate h schema answers)
    ok (grade f schema verified discord_id)

  abbrev pub queue_time : Clock → ℕ
  queue_time clock = clock.transaction / nanos_per_milli

  unfoldable pub notify :
      Service h
      → Clock
      → Form Number
      → (display_name response_id : String) → Graded Number
      → Option String
      → Queue Number
      → Queue Number
  unfolding build_payload enqueue_webhook trim
  notify service clock f display_name response_id g none q = q
  notify service clock f display_name response_id g (some url) q =
      if is_empty (trim url)
      then q
      else enqueue_webhook h (queue_time clock) url
          (build_payload h f.title f.slug display_name g.discord_id response_id g.total_score
            service.base_url (service.to_rfc3339 clock.now))
          q

  abbrev score_field : Option ℤ → Value Number
  score_field none = null
  score_field (some n) = number (h.of_i64 n)

  abbrev time_field : Service h → Option ℕ → Value Number
  time_field service none = null
  time_field service (some t) = str (service.to_rfc3339 t)

  -- `passed` in the reply: without a threshold, every graded submission counts.
  abbrev pub passed_reply : (total_score passing_score : Option ℤ) → Bool
  passed_reply (some s) (some t) = leb_ℤ t s
  passed_reply (some s) none = true
  passed_reply none _ = false

  unfoldable pub reply : Service h → Form Number → Graded Number → Persisted Number → Value Number
  unfolding retry_config_from_form retries_enabled
  reply service f g p =
      let retries =
        (
          "retries_enabled",
          bool (is_single f && not (is_editable f) && retries_enabled (retry_config_from_form f)),
        )
        ∷ ("attempts_left", score_field p.attempts_left)
        ∷ ("next_attempt_at", time_field service p.next_attempt_at)
        ∷ [] in
      let outcome =
        if f.is_quiz
        then ("passed", bool (passed_reply g.total_score f.passing_score))
        else ("response_id", str p.response_id) in
      obj (
        of_entries
          (("success", bool true) ∷ ("message", str f.success_message) ∷ outcome ∷ retries))

  -- The reply and the tables of the commit.
  abbrev pub commit :
      Service h
      → Clock
      → Form Number
      → (display_name : String) → Graded Number
      → Store Number
      → Persisted Number
      → Value Number × Store Number
  unfolding enqueue_player_sync notify reply
  commit service clock f display_name g store p = (
    reply service f g p,
    record {
      responses = p.responses;
      queue =
          notify service clock f display_name p.response_id g f.webhook_url
            (enqueue_player_sync h (queue_time clock) false g.discord_id store.queue);
    },
  )

  -- The transaction, once the member and the form are known.
  unfoldable pub submit :
      Service h
      → Clock
      → (new_id : String) → Form Number
      → (discord_id display_name : String) → (answers : Value Number) → (version : ℤ) → Store Number
      → Result (Value Number × Store Number) AppError
  unfolding admit check_answers persist commit
  submit service clock new_id f discord_id display_name answers version store = do
    admit service clock.now f version discord_id
    g ← check_answers service f answers discord_id
    p ← persist new_id clock f g store.responses
    ok (commit service clock f display_name g store p)

  -- Who submits: the guards before the transaction.
  unfoldable pub identify : Service h → ℕ → Request Number → Result (String × String) AppError
  unfolding verify_origin verify_session
  identify service now request = do
    refuse_if (map_or false (λ v. str_eq v "1") request.preview)
        (forbidden "Preview mode does not accept submissions.")
    verify_origin request.origin service.allowed_origins
    cookie ← ok_or request.cookie (unauthorized_with "Sign in with Discord to submit.")
    ok_or (verify_session service.crypto (seconds_of now) cookie service.session_secret)
        (unauthorized_with "Your session expired. Sign in again.")

  -- A transaction that is not committed leaves the tables as they were.
  abbrev pub end_transaction :
      Store Number
      → Result (Value Number × Store Number) AppError
      → Store Number × Result (Value Number) AppError
  end_transaction store (ok (body, after)) = (after, ok body)
  end_transaction store (err e) = (store, err e)

  unfoldable pub post_submit :
      Service h
      → Clock
      → (new_id : String) → List (Form Number)
      → Request Number
      → Store Number
      → Store Number × Result (Value Number) AppError
  unfolding submit identify
  post_submit service clock new_id forms request store = end_transaction store (do
    member ← identify service clock.now request
    f ← ok_or (load_form request.slug forms) (form_not_found request.slug)
    submit service clock new_id f member.0 member.1 request.answers request.version store)
