-- ===== src/Tests/Administration.antt =====
-- A manager at work on a form, its responses and its role, and the addresses of webhooks.
use form_respondent_role.Prelude.{
  ◌+◌, ◌*◌, true, false, [], ◌∷◌, none, some, ok, is_ok, any, keep, All, inl, inr, ◌≡◌, ◌↔◌, refl,
  arith,
}
use form_respondent_role.Prelude.Int.{ℤ, pos}
use form_respondent_role.Text.{trim}
use form_respondent_role.Text.Decimal.{parse_i64}
use form_respondent_role.Json.{Value, null, bool, obj, arr, str, nil, cons, end, field}
use form_respondent_role.Json.Map.{lookup}
use form_respondent_role.Tokens.Cookie.{verify_session}
use form_respondent_role.Webhook.Address.{v4, v6, is_safe_ip}
use form_respondent_role.Webhook.Address.Ranges.{IsUnlisted, address, is_safe_ip_iff}
use form_respondent_role.RoleConfig.{RoleConfigBody, parse_conditions}
use form_respondent_role.Validator.Quiz.{is_graded}
use form_respondent_role.Submission.Redaction.{
  HasNoKey, questions_of, redact_answer_keys, redact_answer_keys-HasNoKey,
}
use form_respondent_role.Admin.{Tables, Credentials, AdminService, owns}
use form_respondent_role.Admin.Forms.{UpdateBody, is_bound, update_form, updated, sync_links}
use form_respondent_role.Admin.Forms.Laws.{IsSound, update_form-IsSound, update_form-once}
use form_respondent_role.Admin.Removal.{is_of, delete_form, erase}
use form_respondent_role.Admin.Removal.Laws.{IsSynced, delete_form-clean}
use form_respondent_role.Admin.RoleConfigs.{write_config, role_config_save}
use form_respondent_role.Admin.RoleConfigs.Writers.{IsWriter, role_config_save-IsWriter}
use form_respondent_role.Tests.Data.{whole_host, yes_link}
use form_respondent_role.Tests.Visits.{quiz_service, quiz, first_row}

abbrev office : AdminService whole_host
office = record {
  service = quiz_service;
  parse_uuid = λ s. some s;
  url_host = record { parse_url = λ s. some ("https", some "example.org"); parse_ip = λ s. none };
  sanity_text = λ errors. "bad schema";
  key_text = λ errors. "bad key";
  guild_permission = λ cookie guild_id. ok (some (obj (field "is_manager" (bool true) end)));
}

abbrev manager : Credentials
manager = record {
  cookie = some "u1:Ann:9999999999:ab";
  origin = some "https://x";
  authorization = none;
}

abbrev tables : Tables ℤ
tables = record {
  forms = quiz ∷ [];
  responses = first_row ∷ [];
  links = yes_link ∷ [];
  settings = [];
  queue = record { jobs = []; next_id = 0 };
}

abbrev deleted : Tables ℤ
deleted = record (erase whole_host office 1000 1000 "f1" "g1" "f1" tables) {
  queue = sync_links whole_host office 1000 1000 (yes_link ∷ []) tables.queue;
}

delete_form-clean_example :
    (any (is_of "f1") deleted.responses ≡ false)
    × (any (is_bound "f1") deleted.links ≡ false)
    × (owns "f1" "g1" deleted ≡ false)
    × All
        (IsSynced whole_host office 1000 1000 (λ work. ok tt) deleted.queue)
        (keep (is_bound "f1") tables.links)
unfolding delete_form verify_session parse_i64 trim lookup
delete_form-clean_example =
    delete_form-clean whole_host office 1000 1000 (λ work. ok tt) manager "g1" "f1" tables deleted
      refl refl

abbrev edited : UpdateBody ℤ
edited = record {
  title = "Quiz";
  description = "";
  schema = null;
  is_quiz = true;
  open_at = none;
  close_at = none;
  allow_edits = true;
  single_submission = false;
  passing_score = some (pos 2);
  require_verified = false;
  min_account_age_days = pos 30;
  success_message = "Thanks";
  webhook_url = some "https://example.org/hook";
  archived = false;
  max_attempts = pos 3;
  retry_cooldown_seconds = pos 60;
  retry_policy = "keep_latest";
  lock_on_pass = true;
  version = pos 1;
}

abbrev saved : Tables ℤ
saved = record tables {
  forms = updated edited null quiz ∷ [];
  queue = sync_links whole_host office 1000 1000 (yes_link ∷ []) tables.queue;
}

update_form-IsSound_example : All IsSound saved.forms
unfolding update_form verify_session parse_i64 trim lookup is_graded
update_form-IsSound_example =
    update_form-IsSound whole_host office 1000 1000 manager "g1" "f1" edited tables ([], saved) refl
      ((inr (refl, refl), inl refl, refl, refl, refl, refl, inl refl), tt)

update_form-once_example :
    is_ok (update_form whole_host office 2000 2000 manager "g1" "f1" edited saved) ≡ false
unfolding update_form verify_session parse_i64 trim lookup is_graded
update_form-once_example =
    update_form-once whole_host office 1000 1000 2000 2000 manager manager "g1" "f1" "f1" edited
      edited tables ([], saved) refl refl refl

abbrev chosen : RoleConfigBody ℤ
chosen = record {
  form_id = some "f1";
  mode = "any_submission";
  conditions = [];
  view_permission = none;
}

abbrev configured_tables : Tables ℤ
configured_tables =
    write_config whole_host office (λ c. null) (λ e. "") 1000 1000 "g1" "r1"
      (record {
        form_id = some "f1";
        grant_on_any_submission = true;
        conditions = [];
        view_permission = none;
      })
      tables

role_config_save-IsWriter_example : IsWriter whole_host office 1000 manager "g1" "r1"
unfolding role_config_save verify_session parse_i64 trim lookup parse_conditions
role_config_save-IsWriter_example =
    role_config_save-IsWriter whole_host office 1000 manager "g1" "r1" (λ c. null) (λ e. "") 1000
      chosen tables configured_tables refl

abbrev keyed : Value ℤ
keyed = obj (
    field "pages"
      (arr (
        cons
          (obj (
            field "questions"
              (arr (cons (obj (field "correct" (str "yes") (field "id" (str "q1") end))) nil)) end))
          nil))
      end)

redact_answer_keys-HasNoKey_example : All HasNoKey (questions_of (redact_answer_keys keyed))
redact_answer_keys-HasNoKey_example = redact_answer_keys-HasNoKey keyed

is_safe_ip_iff_example :
    ((is_safe_ip (v4 172 32 0 1) ≡ true) ↔ IsUnlisted (address 172 32 0 1))
    × ((is_safe_ip (v6 0 0 0 0 0 65535 (172 * 256 + 32) (0 * 256 + 1)) ≡ true)
        ↔ IsUnlisted (address 172 32 0 1))
is_safe_ip_iff_example =
    is_safe_ip_iff 172 32 0 1 (omega arith) (omega arith) (omega arith) (omega arith)
