-- ===== src/Tokens/Iframe.antt =====
-- services/rl_token.rs: the iframe session, minted and verified.
pub mod Laws
pub mod Authentic
use Prim.Native.Char.{Char, code}
use Prim.Native.String
use Prim.Native.String.{[], ◌∷◌}
use form_respondent_role.Prelude.{
  ℕ, ◌+◌, String, Bool, true, false, not, ◌==◌, List, [], ◌∷◌, Option, none, some, and_then, map_or,
  str_eq, if◌then◌else◌,
}
use form_respondent_role.Prelude.Int.{pos, ltb_ℤ}
use form_respondent_role.Text.{splitn, strip_prefix, is_empty, ◌:+◌}
use form_respondent_role.Text.Decimal.{parse_i64, print_i64}
use form_respondent_role.Tokens.{Crypto, is_signature}

abbrev pub iframe_prefix : String
iframe_prefix = "ifs:"

abbrev pub iframe_ttl_secs : ℕ
iframe_ttl_secs = 3600

abbrev pub iframe_ro_ttl_secs : ℕ
iframe_ro_ttl_secs = 900

abbrev pub ttl : Bool → ℕ
ttl true = iframe_ro_ttl_secs
ttl false = iframe_ttl_secs

abbrev pub flag : Bool → String
flag true = "1"
flag false = "0"

-- `.chars().filter(|c| *c != ':').collect()`.
unfoldable pub without_colons : String → String
without_colons [] = []
without_colons (c ∷ s) =
    let rest = without_colons s in if not (code c == b':') then c ∷ rest else rest

abbrev pub actor_text : Option String → String
unfolding without_colons
actor_text actor_id = without_colons (map_or "" (λ a. a) actor_id)

unfoldable pub payload : (discord_id guild_id role_id ro act exp : String) → String
payload discord_id guild_id role_id ro act exp =
    discord_id :+ guild_id :+ role_id :+ ro :+ act :+ exp

unfoldable pub mint_iframe_session :
    Crypto
    → ℕ
    → (discord_id guild_id role_id : String) → Bool
    → Option String
    → (secret : String) → String
unfolding payload actor_text
mint_iframe_session c now discord_id guild_id role_id read_only actor_id secret =
    let signed =
      payload discord_id guild_id role_id (flag read_only) (actor_text actor_id)
        (print_i64 (pos (now + ttl read_only))) in
    String.◌++◌ iframe_prefix (signed :+ c.hmac_hex secret signed)

pub record IframeSession : Type 0 where
  pub discord_id : String
  pub guild_id : String
  pub role_id : String
  pub read_only : Bool
  pub actor_id : Option String

abbrev pub read_flag : String → Option Bool
read_flag s = if str_eq s "0" then some false else if str_eq s "1" then some true else none

-- `(!act_str.is_empty()).then(|| …)`.
abbrev pub actor_of : String → Option String
actor_of act = if is_empty act then none else some act

-- What follows the split into pieces.
unfoldable pub read_iframe : Crypto → ℕ → (secret : String) → List String → Option IframeSession
unfolding payload is_signature
read_iframe c now secret (discord_id ∷ guild_id ∷ role_id ∷ ro ∷ act ∷ exp ∷ sig ∷ []) =
    and_then (read_flag ro) λ read_only. and_then (parse_i64 exp) λ expires.
      if ltb_ℤ expires (pos now)
      then none
      else if not (is_signature c secret (payload discord_id guild_id role_id ro act exp) sig)
      then none
      else some (record {
        discord_id = discord_id;
        guild_id = guild_id;
        role_id = role_id;
        read_only = read_only;
        actor_id = actor_of act;
      })
read_iframe c now secret _ = none

unfoldable pub verify_iframe_session : Crypto → ℕ → (token secret : String) → Option IframeSession
unfolding splitn strip_prefix read_iframe
verify_iframe_session c now token secret =
    and_then (strip_prefix iframe_prefix token)
      λ rest. read_iframe c now secret (splitn 7 b':' rest)
