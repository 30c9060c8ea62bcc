-- ===== src/Admin.antt =====
-- routes/admin.rs: the tables of the administration, and who may read and write them.
pub mod Forms
pub mod Copies
pub mod Removal
pub mod RoleConfigs
use form_respondent_role.Prelude.{
  ℕ, ◌/◌, String, Bool, true, false, not, ◌&&◌, ◌||◌, List, [], ◌∷◌, Option, none, some, and_then,
  map_or, Result, ok, err, ◌>>=◌, ◌>>◌, ok_or, refuse_if, map_err, is_some, any, find, str_eq,
  if◌then◌else◌,
}
use form_respondent_role.Text.{is_empty, strip_prefix}
use form_respondent_role.Json.{Value, bool, Host, get}
use form_respondent_role.Errors.{AppError, unauthorized_with, forbidden}
use form_respondent_role.Jobs.{Queue}
use form_respondent_role.Sync.{RoleLink}
use form_respondent_role.Submission.{Form, StoredResponse, Service, seconds_of}
use form_respondent_role.Tokens.Cookie.{verify_session}
use form_respondent_role.Tokens.Iframe.{IframeSession, verify_iframe_session}
use form_respondent_role.Webhook.Address.{UrlHost}
use form_respondent_role.Validator.Sanity.{SanityError}
use form_respondent_role.Validator.Quiz.{KeyError}
use form_respondent_role.Guards.{verify_origin}

-- The tables: a guild's view permission is its entry in the settings.
pub record Tables (N : Type 0) : Type 0 where
  pub forms : List (Form N)
  pub responses : List (StoredResponse N)
  pub links : List (RoleLink N)
  pub settings : List (String × String)
  pub queue : Queue N

-- What a request carries: the session cookie, the `Origin` and the `Authorization` headers.
pub record Credentials : Type 0 where
  pub cookie : Option String
  pub origin : Option String
  pub authorization : Option String

-- Beside the service: the reading of a UUID, as its canonical text, and what the auth gateway says
-- of the holder of a cookie in a guild, where it answers with success; the parsing of addresses, and
-- the wording of the refusals of a schema, joined.
pub record AdminService (h : Host) : Type 0 where
  pub service : Service h
  pub parse_uuid : String → Option String
  pub url_host : UrlHost
  pub sanity_text : List SanityError → String
  pub key_text : List KeyError → String
  pub guild_permission : (cookie guild_id : String) → Result (Option (Value h.Number)) AppError

abbrev as_bool : {N : Type 0} → Value N → Option Bool
as_bool (bool b) = some b
as_bool _ = none

unfoldable pub extract_bearer : Credentials → Option String
unfolding strip_prefix
extract_bearer c = and_then c.authorization (strip_prefix "Bearer ")

pub record RoleConfigAccess : Type 0 where
  pub discord_id : String
  pub read_only : Bool

pub data EntryError : Type 0 where
  view_expired no_access : EntryError

module _ {N : Type 0} where
  -- `perm.get("is_manager").and_then(as_bool).unwrap_or(false)`.
  abbrev pub is_manager : Value N → Bool
  is_manager perm = map_or false (λ b. b) (and_then (get "is_manager" perm) as_bool)

  -- `SELECT 1 FROM forms WHERE id = … AND guild_id = …`.
  abbrev pub is_form : (id guild_id : String) → Form N → Bool
  is_form id guild_id f = str_eq f.id id && str_eq f.guild_id guild_id

  abbrev pub owns : (id guild_id : String) → Tables N → Bool
  owns id guild_id t = any (is_form id guild_id) t.forms

module _ (h : Host) (a : AdminService h) (now : ℕ) where
  unfoldable pub check_manager : (cookie guild_id : String) → Result (Unit {0}) AppError
  check_manager cookie guild_id = do
    answer ← a.guild_permission cookie guild_id
    perm ← ok_or answer (forbidden "Could not verify your permissions for this guild.")
    refuse_if (not (is_manager perm))
        (forbidden "Only server managers can edit forms for this server.")

  -- The caller's id.
  unfoldable pub require_manager : Credentials → (guild_id : String) → Result String AppError
  unfolding verify_session check_manager
  require_manager c guild_id = do
    cookie ← ok_or c.cookie (unauthorized_with "Sign in with Discord first.")
    session ←
        ok_or (verify_session a.service.crypto (seconds_of now) cookie a.service.session_secret)
          (unauthorized_with "Your session is invalid or expired. Sign in again.")
    check_manager cookie guild_id
    ok session.0

  abbrev pub bearer_session : String → Option IframeSession
  unfolding verify_iframe_session
  bearer_session token =
      verify_iframe_session a.service.crypto (seconds_of now) token a.service.session_secret

  abbrev pub session_expired : AppError
  session_expired =
      unauthorized_with "Your session expired. Reopen the plugin in the RoleLogic dashboard."

  abbrev view_with : (guild_id : String) → Option IframeSession → Result (Unit {0}) AppError
  view_with guild_id none = err session_expired
  view_with guild_id (some s) =
      refuse_if (not s.read_only || not (str_eq s.guild_id guild_id))
        (forbidden "Token does not grant access to this page.")

  -- Reading: a read-only session of the guild, or a manager.
  unfoldable pub require_guild_view_access :
      Credentials → (guild_id : String) → Result (Unit {0}) AppError
  unfolding extract_bearer bearer_session require_manager
  require_guild_view_access c guild_id = elim (extract_bearer c) [
    | some token ↦ view_with guild_id (bearer_session token)
    | none ↦ require_manager c guild_id >>= λ caller. ok tt
  ]

  -- The token with which a page is opened to read, where there is one.
  unfoldable pub check_read_only_page_entry :
      (guild_id : String) → Option String → Result (Option String) EntryError
  unfolding bearer_session
  check_read_only_page_entry guild_id none = ok none
  check_read_only_page_entry guild_id (some token) = if is_empty token then ok none else (do
    s ← ok_or (bearer_session token) view_expired
    refuse_if (not s.read_only || not (str_eq s.guild_id guild_id)) no_access
    ok (some token))

  abbrev edit_with :
      (guild_id role_id : String) → Option IframeSession → Result RoleConfigAccess AppError
  edit_with guild_id role_id none = err session_expired
  edit_with guild_id role_id (some s) =
      refuse_if (not (str_eq s.guild_id guild_id) || not (str_eq s.role_id role_id))
        (forbidden "Token does not grant access to this role link.")
      >> ok (record { discord_id = s.discord_id; read_only = s.read_only })

  unfoldable pub require_role_config_access :
      Credentials → (guild_id role_id : String) → Result RoleConfigAccess AppError
  unfolding extract_bearer bearer_session require_manager
  require_role_config_access c guild_id role_id = elim (extract_bearer c) [
    | some token ↦ edit_with guild_id role_id (bearer_session token)
    | none ↦ require_manager c guild_id >>= λ caller.
        ok (record { discord_id = caller; read_only = false })
  ]

  -- The guards of every handler that writes with a cookie.
  abbrev pub require_writer : Credentials → (guild_id : String) → Result String AppError
  unfolding verify_origin require_manager
  require_writer c guild_id = do
    verify_origin c.origin a.service.allowed_origins
    require_manager c guild_id
