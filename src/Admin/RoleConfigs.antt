-- ===== src/Admin/RoleConfigs.antt =====
-- routes/admin.rs: `role_config_save`, and the entry of the dashboard's iframe.
pub mod Writers
use form_respondent_role.Prelude.{
  ℕ, ◌/◌, String, Bool, true, false, not, ◌&&◌, ◌||◌, List, [], ◌∷◌, map, Option, none, some,
  and_then, map_or, Result, ok, err, ◌>>=◌, ◌>>◌, ok_or, refuse_if, map_err, is_some, any, find,
  str_eq, if◌then◌else◌,
}
use form_respondent_role.Text.{is_empty, trim}
use form_respondent_role.Json.{Value, arr, of_items, Host}
use form_respondent_role.Models.Condition.{Condition}
use form_respondent_role.Models.Form.{FormSchema}
use form_respondent_role.RoleConfig.{RoleConfigBody, ParsedConfig, ConfigError, parse_role_config}
use form_respondent_role.Errors.{AppError, bad_request, forbidden, not_found}
use form_respondent_role.Jobs.{enqueue_config_sync}
use form_respondent_role.Sync.{RoleLink, is_link}
use form_respondent_role.Submission.{Form, seconds_of}
use form_respondent_role.Tokens.Jwt.{
  JwtHost, RlTokenError, malformed, bad_signature, expired, wrong_audience, wrong_issuer, Verified,
  verify,
}
use form_respondent_role.Tokens.Iframe.{mint_iframe_session}
use form_respondent_role.Guards.{verify_origin}
use form_respondent_role.Admin.{
  Tables, Credentials, AdminService, RoleConfigAccess, extract_bearer, is_form,
  require_role_config_access,
}
use form_respondent_role.Admin.Forms.{set_permission}

-- Why the iframe is shown an error page.
pub data EntryRefusal : Type 0 where
  unregistered session_expired invalid_token other_plugin other_issuer other_link : EntryRefusal

unfoldable pub refusal_of : RlTokenError → EntryRefusal
refusal_of expired = session_expired
refusal_of bad_signature = invalid_token
refusal_of malformed = invalid_token
refusal_of wrong_audience = other_plugin
refusal_of wrong_issuer = other_issuer

module _ (h : Host) (a : AdminService h) (stored : Condition h.Number → Value h.Number)
    (config_text : ConfigError → String) (now queue_now : ℕ) where
  open h use {Number}

  -- The form that the conditions are matched against, and whether it is a quiz; a stored schema
  -- that cannot be read counts as none.
  abbrev schema_or_none : Result (FormSchema h) String → Option (FormSchema h)
  schema_or_none (ok schema) = some schema
  schema_or_none (err e) = none

  unfoldable pub resolve_form :
      (guild_id : String)
      → Option String
      → List (Form Number)
      → Result (Option (FormSchema h) × Bool) AppError
  unfolding trim
  resolve_form guild_id none forms = ok (none, false)
  resolve_form guild_id (some fid) forms = if is_empty (trim fid) then ok (none, false) else (do
    id ←
        ok_or (a.parse_uuid (trim fid))
          (bad_request "form_id must be a valid form UUID from the dropdown.")
    f ←
        ok_or (find (is_form id guild_id) forms)
          (bad_request "Selected form does not exist for this guild.")
    ok (schema_or_none (a.service.schema_of f.schema), f.is_quiz))

  -- `UPDATE role_links SET …`, with `stored` serde's form of a condition.
  unfoldable pub configured : ParsedConfig Number → RoleLink Number → RoleLink Number
  configured p l = record l {
    form_id = p.form_id;
    grant_on_any_submission = p.grant_on_any_submission;
    conditions = arr (of_items (map stored p.conditions));
  }

  unfoldable pub write_config :
      (guild_id role_id : String) → ParsedConfig Number → Tables Number → Tables Number
  unfolding configured set_permission enqueue_config_sync
  write_config guild_id role_id p t = record t {
    links =
        map (λ (l : RoleLink Number). if is_link guild_id role_id l then configured p l else l)
          t.links;
    settings =
        map_or t.settings (λ permission. set_permission guild_id permission t.settings)
          p.view_permission;
    queue = enqueue_config_sync h queue_now guild_id role_id t.queue;
  }

  unfoldable pub role_config_save :
      Credentials
      → (guild_id role_id : String) → RoleConfigBody Number
      → Tables Number
      → Result (Tables Number) AppError
  unfolding extract_bearer verify_origin require_role_config_access resolve_form parse_role_config
      write_config
  role_config_save c guild_id role_id body t = do
    (if is_some (extract_bearer c) then ok tt else verify_origin c.origin a.service.allowed_origins)
    access ← require_role_config_access h a now c guild_id role_id
    refuse_if access.read_only
        (forbidden "This configuration is read-only while impersonating a user.")
    refuse_if (not (any (is_link guild_id role_id) t.links))
        (not_found "This role link doesn't exist. Has it been added in RoleLogic?")
    bound ← resolve_form guild_id body.form_id t.forms
    parsed ← map_err (λ e. bad_request (config_text e)) (parse_role_config h body bound.0 bound.1)
    ok (write_config guild_id role_id parsed t)

  -- The iframe's session, and whether it is read-only.
  unfoldable pub verify_iframe_entry :
      JwtHost
      → (guild_id role_id rl_token : String) → List (RoleLink Number)
      → Result (String × Bool) EntryRefusal
  unfolding verify mint_iframe_session refusal_of
  verify_iframe_entry j guild_id role_id rl_token links = do
    l ← ok_or (find (is_link guild_id role_id) links) unregistered
    v ← map_err refusal_of (verify j (seconds_of now) rl_token l.api_token a.service.base_url)
    refuse_if (not (str_eq v.guild_id guild_id) || not (str_eq v.role_id role_id)) other_link
    ok (
      mint_iframe_session a.service.crypto (seconds_of now) v.discord_id guild_id role_id
          v.read_only v.actor_id a.service.session_secret,
      v.read_only,
    )
