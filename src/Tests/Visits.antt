-- ===== src/Tests/Visits.antt =====
-- A quiz that a member submits, and the theorems on submissions at work on it.
use form_respondent_role.Prelude.{
  ◌≤◌, true, false, [], ◌∷◌, none, some, ok, is_ok, In, ◌≡◌, refl, arith,
}
use form_respondent_role.Json.{null, obj}
use form_respondent_role.Prelude.Int.{ℤ, pos, saturating_add}
use form_respondent_role.Text.{trim}
use form_respondent_role.Text.Decimal.{parse_i64}
use form_respondent_role.Json.Map.{lookup, insert}
use form_respondent_role.Models.Form.{iter_questions}
use form_respondent_role.Validator.Answers.{validate_kind}
use form_respondent_role.Tokens.Cookie.{verify_session}
use form_respondent_role.Submission.{Form, StoredResponse, Store, Clock, Service}
use form_respondent_role.Submission.Handler.Frame.{submit-frame}
use form_respondent_role.Submission.Persist.{Graded, Persisted}
use form_respondent_role.Submission.Handler.{submit, check_answers, commit}
use form_respondent_role.Submission.Handler.Queued.{IsPlayerJob, submit-queued}
use form_respondent_role.Jobs.{Job}
use form_respondent_role.Submission.Page.{form_gates}
use form_respondent_role.Submission.Persist.Rows.{rows_of}
use form_respondent_role.Submission.Persist.Tally.{IsTallied}
use form_respondent_role.Submission.Attempts.{Visit, run, accepted, IsFresh}
use form_respondent_role.Submission.Attempts.Bounded.{accepted-bounded}
use form_respondent_role.Submission.Page.Agreement.{is_offered, submit-is_offered}
use form_respondent_role.Tests.Data.{whole_host, plain_crypto, name_form, yes_fields}

abbrev pub quiz_service : Service whole_host
quiz_service = record {
  session_secret = "s";
  base_url = "https://x";
  allowed_origins = "https://x" ∷ [];
  crypto = plain_crypto;
  fetch_user_guild_ids = λ id. ok ("g1" ∷ []);
  schema_of = λ v. ok name_form;
  to_rfc3339 = λ t. "t";
}

abbrev pub quiz : Form ℤ
quiz = record {
  id = "f1";
  guild_id = "g1";
  slug = "quiz";
  title = "Quiz";
  description = "";
  version = pos 1;
  schema = null;
  is_quiz = true;
  passing_score = some (pos 3);
  open_at = none;
  close_at = none;
  allow_edits = false;
  single_submission = true;
  require_verified = true;
  min_account_age_days = pos 0;
  success_message = "Thanks";
  preview_token = "p";
  webhook_url = none;
  archived = false;
  max_attempts = pos 2;
  retry_cooldown_seconds = pos 60;
  retry_policy = "keep_best";
  lock_on_pass = false;
}

abbrev noon : Clock
noon = record { now = 1000000000000; transaction = 1000000000000 }

abbrev pub first_row : StoredResponse ℤ
first_row = record {
  id = "n0";
  response = record {
    form_id = "f1";
    guild_id = "g1";
    discord_id = "u1";
    answers = obj yes_fields;
    total_score = some (pos 5);
  };
  schema_version = pos 1;
  attempt_count = pos 1;
  passed = some true;
  last_edited_at = 5000000000;
}

abbrev one_row : Store ℤ
one_row = record { responses = first_row ∷ []; queue = record { jobs = []; next_id = 0 } }

abbrev graded : Graded ℤ
graded = record {
  discord_id = "u1";
  answers = obj yes_fields;
  total_score = some (pos 5);
  passed = some true;
}

submit-is_offered_example :
    is_ok
      (submit whole_host quiz_service noon "n1" quiz "u1" "Ann" (obj yes_fields) (pos 1) one_row)
    ≡ is_offered (
        form_gates whole_host quiz_service 1000000000000 quiz
          (some "u1:Ann:9999999999:ab")
          (first_row ∷ []))
unfolding verify_session parse_i64 check_answers iter_questions validate_kind lookup trim insert
    saturating_add
submit-is_offered_example =
    submit-is_offered whole_host quiz_service noon quiz "u1:Ann:9999999999:ab" "u1" "Ann" refl refl
      "n1" (obj yes_fields) graded one_row refl

abbrev first_visit : Visit ℤ
first_visit = record {
  clock = noon;
  new_id = "n1";
  discord_id = "u1";
  display_name = "Ann";
  answers = obj yes_fields;
  version = pos 1;
}

abbrev empty_store : Store ℤ
empty_store = record { responses = []; queue = record { jobs = []; next_id = 0 } }

accepted-bounded_example :
    (accepted whole_host quiz_service quiz "u1" (first_visit ∷ []) empty_store ≤ 2)
    × IsTallied (accepted whole_host quiz_service quiz "u1" (first_visit ∷ []) empty_store) (
        rows_of "f1" "u1"
          (run whole_host quiz_service quiz (first_visit ∷ []) empty_store).responses)
unfolding IsFresh
accepted-bounded_example =
    accepted-bounded whole_host quiz_service quiz refl refl 2 refl (omega arith) (omega arith) "u1"
      (first_visit ∷ []) empty_store (tt, tt) tt refl

abbrev new_row : StoredResponse ℤ
new_row = record first_row { id = "n1"; last_edited_at = 1000000000000 }

abbrev first_stored : Persisted ℤ
first_stored = record {
  response_id = "n1";
  responses = new_row ∷ [];
  attempts_left = some (pos 1);
  next_attempt_at = some 1060000000000;
}

submit-queued_example :
    (j : Job ℤ) × In j
      (commit whole_host quiz_service noon quiz "Ann" graded empty_store first_stored).1.queue.jobs
    × IsPlayerJob whole_host quiz_service noon quiz (λ work. ok tt) "u1" j
unfolding submit iter_questions validate_kind lookup insert saturating_add
submit-queued_example =
    submit-queued whole_host quiz_service noon quiz (λ work. ok tt) "n1" "u1" "Ann" (obj yes_fields)
      (pos 1) empty_store
      (commit whole_host quiz_service noon quiz "Ann" graded empty_store first_stored) refl

submit-frame_example :
    rows_of "f1" "u2"
      (commit whole_host quiz_service noon quiz "Ann" graded empty_store first_stored).1.responses
    ≡ rows_of "f1" "u2" empty_store.responses
unfolding submit iter_questions validate_kind lookup insert saturating_add
submit-frame_example =
    submit-frame whole_host quiz_service noon "n1" quiz "u1" "Ann" (obj yes_fields) (pos 1)
      empty_store (commit whole_host quiz_service noon quiz "Ann" graded empty_store first_stored)
      "f1" "u2" tt refl refl
