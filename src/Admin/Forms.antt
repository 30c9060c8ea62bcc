-- ===== src/Admin/Forms.antt =====
-- routes/admin.rs: `set_view_permission` and `update_form`.
pub mod Laws
use Prim.Native.String
use form_respondent_role.Prelude.{
  ℕ, zero, suc, ◌/◌, String, Bool, true, false, not, ◌&&◌, ◌||◌, List, [], ◌∷◌, ◌++◌, map, Option,
  none, some, and_then, map_or, Result, ok, err, ◌>>=◌, ◌>>◌, ok_or, refuse_if, map_err, any, keep,
  find, filter_map, flat_map, str_eq, ◌==◌, if◌then◌else◌,
}
use form_respondent_role.Prelude.Int.{ℤ, pos, ltb_ℤ, eqb_ℤ, ◌+ℤ◌}
use form_respondent_role.Text.{is_empty}
use form_respondent_role.Json.{Value, str, obj, entries, of_entries, as_array, as_str, get, Host}
use form_respondent_role.Json.Map.{insert}
use form_respondent_role.Models.Form.{Question, FormSchema, iter_questions}
use form_respondent_role.Validator.Sanity.{sanity_check}
use form_respondent_role.Validator.Quiz.{validate_quiz_keys, quiz_graded_count}
use form_respondent_role.Errors.{AppError, bad_request, not_found, stale_version, internal}
use form_respondent_role.Jobs.{Queue, enqueue_config_sync}
use form_respondent_role.Sync.{RoleLink}
use form_respondent_role.Submission.{Form}
use form_respondent_role.Webhook.Address.{is_safe_url}
use form_respondent_role.Admin.{Tables, Credentials, AdminService, is_form, owns, require_writer}

pub record UpdateBody (N : Type 0) : Type 0 where
  pub title : String
  pub description : String
  pub schema : Value N
  pub is_quiz : Bool
  pub open_at : Option ℕ
  pub close_at : Option ℕ
  pub allow_edits : Bool
  pub single_submission : Bool
  pub passing_score : Option ℤ
  pub require_verified : Bool
  pub min_account_age_days : ℤ
  pub success_message : String
  pub webhook_url : Option String
  pub archived : Bool
  pub max_attempts : ℤ
  pub retry_cooldown_seconds : ℤ
  pub retry_policy : String
  pub lock_on_pass : Bool
  pub version : ℤ

abbrev pub max_retry_attempts : ℕ
max_retry_attempts = 50

abbrev pub max_retry_cooldown_seconds : ℕ
max_retry_cooldown_seconds = 7776000

-- `!(0..=limit).contains(&n)`.
abbrev pub is_beyond : (limit : ℕ) → ℤ → Bool
is_beyond limit n = ltb_ℤ n (pos 0) || ltb_ℤ (pos limit) n

pub data Warning : Type 0 where
  ungraded : Warning
  gone_question : (role_id question_id : String) → Warning

-- `filter(|s| !s.is_empty())`.
abbrev not_blank : Option String → Option String
not_blank none = none
not_blank (some s) = if is_empty s then none else some s

module _ {N : Type 0} where
  -- The title and the description are written into a schema that is an object.
  abbrev pub with_titles : (title description : String) → Value N → Value N
  unfolding insert
  with_titles title description (obj fields) = obj (
      of_entries
        (insert "description" (str description) (insert "title" (str title) (entries fields))))
  with_titles title description v = v

  abbrev pub is_current : (id guild_id : String) → (version : ℤ) → Form N → Bool
  is_current id guild_id version f = is_form id guild_id f && eqb_ℤ f.version version

  -- The columns that `UPDATE forms` sets.
  unfoldable pub updated : UpdateBody N → Value N → Form N → Form N
  unfolding ◌+ℤ◌
  updated b schema f = record f {
    title = b.title;
    description = b.description;
    schema = schema;
    is_quiz = b.is_quiz;
    open_at = b.open_at;
    close_at = b.close_at;
    allow_edits = b.allow_edits && not b.is_quiz;
    single_submission = b.single_submission || b.is_quiz;
    passing_score = if b.is_quiz then b.passing_score else none;
    require_verified = b.require_verified;
    min_account_age_days = b.min_account_age_days;
    success_message = b.success_message;
    webhook_url = not_blank b.webhook_url;
    archived = b.archived;
    max_attempts = b.max_attempts;
    retry_cooldown_seconds = b.retry_cooldown_seconds;
    retry_policy = b.retry_policy;
    lock_on_pass = b.lock_on_pass;
    version = f.version +ℤ pos 1;
  }

  -- `SELECT guild_id, role_id FROM role_links WHERE form_id = …`, by the text of the request.
  abbrev pub is_bound : (form_id : String) → RoleLink N → Bool
  is_bound form_id l = map_or false (λ id. str_eq id form_id) l.form_id

  -- The question that a stored condition names, where its target is one.
  abbrev named_question : Value N → Option String
  named_question c = and_then (get "target" c) λ target.
      if map_or false (λ k. str_eq k "question") (and_then (get "kind" target) as_str)
      then and_then (get "question_id" target) as_str
      else none

-- `ON CONFLICT (guild_id) DO UPDATE`.
unfoldable pub set_permission :
    (guild_id permission : String) → List (String × String) → List (String × String)
unfolding insert
set_permission guild_id permission settings = insert guild_id permission settings

module _ (h : Host) (a : AdminService h) (now queue_now : ℕ) where
  open h use {Number}

  unfoldable pub sync_links : List (RoleLink Number) → Queue Number → Queue Number
  unfolding enqueue_config_sync
  sync_links [] q = q
  sync_links (l ∷ links) q =
      sync_links links (enqueue_config_sync h queue_now l.guild_id l.role_id q)

  -- The checks of the schema, in the order of the source.
  unfoldable pub check_schema : UpdateBody Number → Result (FormSchema h) AppError
  unfolding sanity_check validate_quiz_keys with_titles
  check_schema b = do
    parsed ←
        map_err (λ e. bad_request (String.◌++◌ "Schema is not a valid form definition: " e))
          (a.service.schema_of (with_titles b.title b.description b.schema))
    map_err (λ errors. bad_request (a.sanity_text errors)) (sanity_check h parsed)
    (if b.is_quiz
        then map_err (λ errors. bad_request (a.key_text errors)) (validate_quiz_keys h parsed)
        else ok tt)
    ok parsed

  -- The checks of the other fields.
  unfoldable pub check_fields : UpdateBody Number → Result (Unit {0}) AppError
  unfolding is_safe_url
  check_fields b = do
    refuse_if (is_beyond 3650 b.min_account_age_days)
        (bad_request "min_account_age_days must be between 0 and 3650.")
    refuse_if (map_or false (is_beyond 1000000) b.passing_score)
        (bad_request "passing_score must be between 0 and 1,000,000.")
    refuse_if
        (map_or false (λ url. not (is_empty url) && not (is_safe_url a.url_host url)) b.webhook_url)
        (bad_request "webhook_url must be an https:// URL on a public host.")
    refuse_if (is_beyond max_retry_attempts b.max_attempts)
        (bad_request "max_attempts must be between 0 (unlimited) and 50.")
    refuse_if (is_beyond max_retry_cooldown_seconds b.retry_cooldown_seconds)
        (bad_request "retry_cooldown_seconds must be between 0 and 7,776,000 (90 days).")
    refuse_if (not (str_eq b.retry_policy "keep_best" || str_eq b.retry_policy "keep_latest")) (
        bad_request (
          String.◌++◌ "Unknown retry_policy '"
            (String.◌++◌ b.retry_policy "'. Use 'keep_best' or 'keep_latest'.")))

  abbrev link_warnings : FormSchema h → RoleLink Number → List Warning
  unfolding iter_questions
  link_warnings parsed l =
      filter_map
        (λ c. and_then (named_question c) λ id.
          if any (λ (q : Question h). str_eq q.id id) (iter_questions parsed)
          then none
          else some (gone_question l.role_id id))
        (map_or [] (λ cs. cs) (as_array l.conditions))

  unfoldable pub warnings : UpdateBody Number → FormSchema h → List (RoleLink Number) → List Warning
  unfolding quiz_graded_count link_warnings
  warnings b parsed bound =
      (if b.is_quiz && quiz_graded_count h parsed == 0 then ungraded ∷ [] else [])
      ++ flat_map (link_warnings parsed) bound

  -- `UPDATE forms … WHERE id = … AND guild_id = … AND version = …`, and why it meets no row.
  unfoldable pub write_form :
      (id guild_id : String)
      → UpdateBody Number
      → Tables Number
      → Result (List (Form Number)) AppError
  unfolding updated with_titles
  write_form id guild_id b t =
      if any (is_current id guild_id b.version) t.forms
      then ok (
          map
            (λ (f : Form Number).
              if is_current id guild_id b.version f
              then updated b (with_titles b.title b.description b.schema) f
              else f)
            t.forms)
      else if owns id guild_id t
      then err stale_version
      else err (not_found "Form not found.")

  unfoldable pub update_form :
      Credentials
      → (guild_id form_id : String) → UpdateBody Number
      → Tables Number
      → Result (List Warning × Tables Number) AppError
  unfolding require_writer check_schema check_fields write_form warnings sync_links
  update_form c guild_id form_id b t = do
    caller ← require_writer h a now c guild_id
    id ← ok_or (a.parse_uuid form_id) (bad_request "Invalid form id.")
    parsed ← check_schema b
    check_fields b
    forms ← write_form id guild_id b t
    ok (
      warnings b parsed (keep (is_bound form_id) t.links),
      record t { forms = forms; queue = sync_links (keep (is_bound form_id) t.links) t.queue },
    )

  unfoldable pub set_view_permission :
      Credentials → (guild_id permission : String) → Tables Number → Result (Tables Number) AppError
  unfolding require_writer set_permission
  set_view_permission c guild_id permission t = do
    caller ← require_writer h a now c guild_id
    refuse_if (not (str_eq permission "members" || str_eq permission "managers")) (
        bad_request (
          String.◌++◌ "Unknown view_permission '"
            (String.◌++◌ permission "'. Use 'members' or 'managers'.")))
    ok (record t { settings = set_permission guild_id permission t.settings })
