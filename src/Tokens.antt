-- ===== src/Tokens.antt =====
-- services/rl_token.rs, session.rs, dweeb_session.rs: the signed texts that stand for a login.
-- Times are seconds since the epoch.
pub mod Bytes
pub mod Iframe
pub mod Cookie
pub mod Jwt
use form_respondent_role.Prelude.{String, Bool, Option}
use Bytes.{as_bytes, constant_time_eq}

-- HMAC-SHA256 of a text under a key, in hexadecimal, and the percent-encoding of a text.
pub record Crypto : Type 0 where
  pub hmac_hex : (secret payload : String) → String
  pub url_encode : String → String
  pub url_decode : String → Option String

-- `constant_time_eq` of the given signature and the expected one.
unfoldable pub is_signature : Crypto → (secret payload sig : String) → Bool
unfolding as_bytes constant_time_eq
is_signature c secret payload sig =
    constant_time_eq (as_bytes sig) (as_bytes (c.hmac_hex secret payload))
