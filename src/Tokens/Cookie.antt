-- ===== src/Tokens/Cookie.antt =====
-- services/session.rs and dweeb_session.rs: the session cookie of the auth gateway, and the
-- session of the link picker.
use Prim.Native.String
use form_respondent_role.Prelude.{
  ℕ, ◌+◌, String, not, List, [], ◌∷◌, Option, none, some, and_then, if◌then◌else◌,
}
use form_respondent_role.Prelude.Int.{ℤ, pos, ltb_ℤ}
use form_respondent_role.Text.{splitn, strip_prefix, ◌:+◌}
use form_respondent_role.Text.Decimal.{parse_i64, print_i64}
use form_respondent_role.Tokens.{Crypto, is_signature}

-- The four pieces of both formats: two fields, the expiry and the signature over the three. What
-- verifies is the two fields.
unfoldable pub read_signed : Crypto → ℕ → (secret : String) → List String → Option (String × String)
unfolding is_signature
read_signed c now secret (first ∷ second ∷ exp ∷ sig ∷ []) = and_then (parse_i64 exp) λ expires.
    if ltb_ℤ expires (pos now)
    then none
    else if not (is_signature c secret (first :+ second :+ exp) sig)
    then none
    else some (first, second)
read_signed c now secret _ = none

unfoldable pub sign : Crypto → (secret payload : String) → String
sign c secret payload = payload :+ c.hmac_hex secret payload

-- The cookie as the gateway builds it.
unfoldable pub mint_session :
    Crypto → (discord_id display_name : String) → (expires_unix : ℤ) → (secret : String) → String
unfolding sign
mint_session c discord_id display_name expires_unix secret =
    sign c secret (discord_id :+ c.url_encode display_name :+ print_i64 expires_unix)

-- The Discord id and the display name.
unfoldable pub verify_session : Crypto → ℕ → (cookie secret : String) → Option (String × String)
unfolding splitn read_signed
verify_session c now cookie secret =
    and_then (read_signed c now secret (splitn 4 b':' cookie))
      λ fields. and_then (c.url_decode fields.1) λ display_name. some (fields.0, display_name)

abbrev pub dweeb_prefix : String
dweeb_prefix = "dws:"

abbrev pub dweeb_ttl_secs : ℕ
dweeb_ttl_secs = 43200

pub record DweebSession : Type 0 where
  pub discord_id : String
  pub guild_id : String

unfoldable pub mint_dweeb_session : Crypto → ℕ → (discord_id guild_id secret : String) → String
unfolding sign
mint_dweeb_session c now discord_id guild_id secret =
    String.◌++◌ dweeb_prefix
      (sign c secret (discord_id :+ guild_id :+ print_i64 (pos (now + dweeb_ttl_secs))))

unfoldable pub verify_dweeb_session : Crypto → ℕ → (token secret : String) → Option DweebSession
unfolding splitn strip_prefix read_signed
verify_dweeb_session c now token secret = and_then (strip_prefix dweeb_prefix token) λ rest.
    and_then (read_signed c now secret (splitn 4 b':' rest))
      λ fields. some (record { discord_id = fields.0; guild_id = fields.1 })
