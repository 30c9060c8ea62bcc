-- ===== src/Submission/Persist.antt =====
-- routes/form_render.rs: the three ways in which `post_submit` stores a member's answers.
pub mod Rows
pub mod Frame
pub mod Outcome
pub mod Tally
use form_respondent_role.Prelude.{
  ℕ, ◌+◌, ◌*◌, ◌/◌, String, Bool, true, false, not, ◌&&◌, ◌||◌, List, [], ◌∷◌, map, Option, none,
  some, map_or, Result, ok, err, ◌>>=◌, ◌>>◌, ok_or, refuse_if, map_err, leb, eq_of_iff, str_eq,
  if◌then◌else◌,
}
use form_respondent_role.Prelude.Int.{ℤ, pos, pos_part, ltb_ℤ, leb_ℤ, eqb_ℤ}
use form_respondent_role.Text.{is_empty, trim}
use form_respondent_role.Text.Decimal.{print_i64}
use form_respondent_role.Json.{Value, null, bool, str, number, obj, of_entries, Host}
use form_respondent_role.Models.Form.{FormSchema}
use form_respondent_role.Validator.Answers.{VerifiedAnswers, validate}
use form_respondent_role.Validator.Quiz.{compute_quiz_score}
use form_respondent_role.Errors.{
  AppError, forbidden, unauthorized_with, form_not_found, stale_version, form_closed, internal,
  validation_failed, already_passed, duplicate_submission, attempts_exhausted, retry_cooldown,
}
use form_respondent_role.Jobs.{Queue, enqueue_player_sync, enqueue_webhook}
use form_respondent_role.Retry as Retry
use form_respondent_role.Retry.{
  NewSubmission, AcceptedAttempt, DenyReason, cooldown, decide, retries_enabled, nanos_per_second,
  nanos_per_milli,
}
use form_respondent_role.Tokens.Cookie.{verify_session}
use form_respondent_role.Guards.{verify_origin}
use form_respondent_role.Webhook.{build_payload}
use form_respondent_role.Submission.{
  Form, StoredResponse, Store, Clock, Service, seconds_of, discord_account_age_days, is_past,
  is_future, is_member, retry_config_from_form, load_canonical_attempt, existing_attempt, load_form,
  attempts_left,
}

-- The error of an attempt that is not accepted.
unfoldable pub denied : DenyReason → AppError
denied Retry.already_passed = already_passed
denied (Retry.attempts_exhausted max) =
    if leb_ℤ max (pos 1) then duplicate_submission else attempts_exhausted max
denied (cooldown retry_after_seconds next_attempt_at) = retry_cooldown retry_after_seconds

-- `stored_passed`.
unfoldable pub passes : (is_quiz : Bool) → (total_score passing_score : Option ℤ) → Option Bool
passes true (some s) (some t) = some (leb_ℤ t s)
passes _ _ _ = none

module _ {N : Type 0} where
  abbrev pub is_single : Form N → Bool
  is_single f = f.single_submission || f.is_quiz

  abbrev pub is_editable : Form N → Bool
  is_editable f = f.allow_edits && not f.is_quiz

-- What is stored of a submission, its score and whether it passed.
pub record Graded (N : Type 0) : Type 0 where
  pub discord_id : String
  pub answers : Value N
  pub total_score : Option ℤ
  pub passed : Option Bool

pub record Persisted (N : Type 0) : Type 0 where
  pub response_id : String
  pub responses : List (StoredResponse N)
  pub attempts_left : Option ℤ
  pub next_attempt_at : Option ℕ

module _ {N : Type 0} (new_id : String) (clock : Clock) (f : Form N) (g : Graded N) where
  -- `INSERT INTO form_responses … RETURNING id`.
  unfoldable pub insert_response :
      (total_score : Option ℤ)
      → (passed : Option Bool) → (attempt_count : ℤ) → List (StoredResponse N)
      → List (StoredResponse N)
  insert_response total_score passed attempt_count rows =
      record {
        id = new_id;
        response = record {
          form_id = f.id;
          guild_id = f.guild_id;
          discord_id = g.discord_id;
          answers = g.answers;
          total_score = total_score;
        };
        schema_version = f.version;
        attempt_count = attempt_count;
        passed = passed;
        last_edited_at = clock.transaction;
      }
      ∷ rows

  -- `UPDATE form_responses SET … WHERE id = …`.
  abbrev pub update_response :
      String
      → (StoredResponse N → StoredResponse N)
      → List (StoredResponse N)
      → List (StoredResponse N)
  update_response id change rows =
      map (λ (r : StoredResponse N). if str_eq r.id id then change r else r) rows

  unfoldable pub overwrite :
      (total_score : Option ℤ)
      → (passed : Option Bool) → (attempt_count : ℤ) → StoredResponse N
      → StoredResponse N
  overwrite total_score passed attempt_count r = record r {
    response = record r.response { answers = g.answers; total_score = total_score };
    schema_version = f.version;
    attempt_count = attempt_count;
    passed = passed;
    last_edited_at = clock.transaction;
  }

  unfoldable pub record_attempt : AcceptedAttempt → StoredResponse N → StoredResponse N
  unfolding overwrite
  record_attempt a r =
      if a.overwrite_answers then overwrite a.total_score a.passed a.attempt_count r else record r {
        response = record r.response { total_score = a.total_score };
        attempt_count = a.attempt_count;
        passed = a.passed;
        last_edited_at = clock.transaction;
      }

  abbrev pub first_response : List (StoredResponse N) → Persisted N
  unfolding insert_response
  first_response rows = record {
    response_id = new_id;
    responses = insert_response g.total_score g.passed (pos 1) rows;
    attempts_left = none;
    next_attempt_at = none;
  }

  -- An edit is not an attempt: the count of the attempts stays.
  unfoldable pub persist_edit : Option (StoredResponse N) → List (StoredResponse N) → Persisted N
  unfolding first_response overwrite
  persist_edit none rows = first_response rows
  persist_edit (some r) rows = record {
    response_id = r.id;
    responses =
        update_response r.id
          (λ (s : StoredResponse N). overwrite g.total_score g.passed s.attempt_count s) rows;
    attempts_left = none;
    next_attempt_at = none;
  }

  abbrev pub next_attempt : Option ℕ
  next_attempt =
      if ltb_ℤ (pos 0) f.retry_cooldown_seconds
      then some (clock.now + pos_part f.retry_cooldown_seconds * nanos_per_second)
      else none

  unfoldable pub persist_attempt :
      AcceptedAttempt → Option (StoredResponse N) → List (StoredResponse N) → Persisted N
  unfolding insert_response record_attempt
  persist_attempt a none rows = record {
    response_id = new_id;
    responses = insert_response a.total_score a.passed a.attempt_count rows;
    attempts_left = attempts_left f.max_attempts a.attempt_count;
    next_attempt_at = next_attempt;
  }
  persist_attempt a (some r) rows = record {
    response_id = r.id;
    responses = update_response r.id (record_attempt a) rows;
    attempts_left = attempts_left f.max_attempts a.attempt_count;
    next_attempt_at = next_attempt;
  }

  abbrev pub new_submission : NewSubmission
  new_submission = record { total_score = g.total_score; passed = g.passed }

  unfoldable pub persist : List (StoredResponse N) → Result (Persisted N) AppError
  unfolding first_response persist_edit persist_attempt decide denied retry_config_from_form
      load_canonical_attempt
  persist rows =
      if not (is_single f)
      then ok (first_response rows)
      else let existing = load_canonical_attempt f.id g.discord_id rows in
        if is_editable f
        then ok (persist_edit existing rows)
        else elim (decide clock.now (retry_config_from_form f)
            (map_or none (λ r. some (existing_attempt r)) existing) new_submission) [
              | err reason ↦ err (denied reason)
              | ok a ↦ ok (persist_attempt a existing rows)
            ]
