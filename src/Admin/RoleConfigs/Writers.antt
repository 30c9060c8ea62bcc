-- ===== src/Admin/RoleConfigs/Writers.antt =====
-- Who saves a role configuration.
use form_respondent_role.Prelude.{
  ℕ, String, false, not, ◌||◌, none, some, ok, is_some, str_eq, str_eq_iff, ◌≡◌, ◌⊎◌, inl, inr,
  arith, Bool-cases, Option-cases, Result-cases, if◌then◌else◌,
}
use form_respondent_role.Json.{Value, Host}
use form_respondent_role.Models.Condition.{Condition}
use form_respondent_role.RoleConfig.{RoleConfigBody, ConfigError}
use form_respondent_role.Tokens.Iframe.{IframeSession}
use form_respondent_role.Guards.{verify_origin}
use form_respondent_role.Admin.{
  Tables, Credentials, AdminService, RoleConfigAccess, extract_bearer, bearer_session,
  require_manager, require_role_config_access,
}
use form_respondent_role.Admin.RoleConfigs.{role_config_save}

module _ (h : Host) (a : AdminService h) (now : ℕ) (c : Credentials)
    (guild_id role_id : String) where
  -- A manager of the guild on an allowed origin, or the holder of a session that was minted for
  -- this guild and role, and not to read only.
  abbrev pub IsWriter : Type 0
  IsWriter =
      ((extract_bearer c ≡ none)
        × (verify_origin c.origin a.service.allowed_origins ≡ ok tt)
        × (caller : String) × (require_manager h a now c guild_id ≡ ok caller))
      ⊎ ((token : String) × (s : IframeSession) × (extract_bearer c ≡ some token)
          × (bearer_session h a now token ≡ some s)
          × (s.read_only ≡ false)
          × (s.guild_id ≡ guild_id)
          × (s.role_id ≡ role_id))

  access-IsWriter :
      (access : RoleConfigAccess)
      → (if is_some (extract_bearer c)
          then ok tt
          else verify_origin c.origin a.service.allowed_origins)
        ≡ ok tt
      → require_role_config_access h a now c guild_id role_id ≡ ok access
      → access.read_only ≡ false
      → IsWriter
  unfolding require_role_config_access
  access-IsWriter access origin e write = elim (Option-cases (extract_bearer c)) [
    | inl absent ↦ elim (Result-cases (require_manager h a now c guild_id)) [
      | inr (x, refused) ↦ absurd (ground arith)
      | inl (caller, manages) ↦ inl (absent, ground arith, caller, manages)
    ]
    | inr (token, held) ↦ elim (Option-cases (bearer_session h a now token)) [
      | inl stale ↦ absurd (ground arith)
      | inr (s, verified) ↦
          elim (Bool-cases (not (str_eq s.guild_id guild_id) || not (str_eq s.role_id role_id))) [
            | inl elsewhere ↦ absurd (ground arith)
            | inr here ↦ inr (
              token,
              s,
              held,
              verified,
              ground arith,
              ground (arith, str_eq_iff s.guild_id guild_id),
              ground (arith, str_eq_iff s.role_id role_id),
            )
          ]
    ]
  ]

  module _ (stored : Condition h.Number → Value h.Number) (config_text : ConfigError → String)
      (queue_now : ℕ) where
    -- Who saves a role configuration is a manager of the guild on an allowed origin, or holds an
    -- iframe session that verifies, was minted for this guild and role, and is not read-only.
    pub role_config_save-IsWriter :
        (body : RoleConfigBody h.Number) (t after : Tables h.Number)
        → role_config_save h a stored config_text now queue_now c guild_id role_id body t ≡ ok after
        → IsWriter
    unfolding role_config_save
    role_config_save-IsWriter body t after e =
        elim (Result-cases (
          if is_some (extract_bearer c)
          then ok tt
          else verify_origin c.origin a.service.allowed_origins)) [
            | inr (x, refused) ↦ absurd (ground arith)
            | inl (u, origin) ↦
                elim (Result-cases (require_role_config_access h a now c guild_id role_id)) [
                  | inr (x, refused) ↦ absurd (ground arith)
                  | inl (access, allowed) ↦ elim (Bool-cases access.read_only) [
                    | inl read ↦ absurd (ground arith)
                    | inr write ↦ access-IsWriter access origin allowed write
                  ]
                ]
          ]
