-- ===== src/Tokens/Jwt.antt =====
-- services/rl_token.rs: the token with which RoleLogic opens the configuration page.
use Prim.Native.String
use form_respondent_role.Prelude.{
  ℕ, String, Bool, false, not, [], ◌∷◌, Option, map_or, str_eq, Result, ok, err, ok_or, refuse_if,
  ◌>>=◌, ◌>>◌,
}
use form_respondent_role.Prelude.Int.{ℤ, pos, ltb_ℤ, add_i64}
use form_respondent_role.Text.{splitn, trim_end_matches}

abbrev pub allowed_skew_secs : ℕ
allowed_skew_secs = 60

pub data RlTokenError : Type 0 where
  malformed bad_signature expired wrong_audience wrong_issuer : RlTokenError

pub record Header : Type 0 where
  pub alg : String
  pub typ : Option String

pub record Claims : Type 0 where
  pub iss : String
  pub aud : String
  pub sub : String
  pub guild_id : String
  pub role_id : String
  pub exp : ℤ  -- i64
  pub read_only : Bool
  pub act : Option String

pub record Verified : Type 0 where
  pub discord_id : String
  pub guild_id : String
  pub role_id : String
  pub read_only : Bool
  pub actor_id : Option String

-- base64, HMAC-SHA256 and serde: the decoding of a part to its bytes, the test of a signature, the
-- reading of a header and of claims, and the comparison of texts but for ASCII case.
pub record JwtHost : Type 1 where
  pub Bytes : Type 0
  pub decode : String → Option Bytes
  pub verify_slice : (secret signed : String) → Bytes → Bool
  pub header_of : Bytes → Option Header
  pub claims_of : Bytes → Option Claims
  pub eq_ignore_ascii_case : String → String → Bool

unfoldable pub aud_matches : (claim_aud expected : String) → Bool
unfolding trim_end_matches
aud_matches claim_aud expected =
    str_eq (trim_end_matches b'/' claim_aud) (trim_end_matches b'/' expected)

module _ (j : JwtHost) where
  -- After the three parts are there.
  unfoldable pub verify_parts :
      ℕ
      → (header_b64 payload_b64 sig_b64 role_link_token expected_aud : String)
      → Result Verified RlTokenError
  unfolding aud_matches add_i64
  verify_parts now header_b64 payload_b64 sig_b64 role_link_token expected_aud = do
    header_bytes ← ok_or (j.decode header_b64) malformed
    payload_bytes ← ok_or (j.decode payload_b64) malformed
    sig_bytes ← ok_or (j.decode sig_b64) malformed
    header ← ok_or (j.header_of header_bytes) malformed
    refuse_if (not (str_eq header.alg "HS256")) bad_signature
    refuse_if (map_or false (λ typ. not (j.eq_ignore_ascii_case typ "JWT")) header.typ) malformed
    refuse_if
        (not (
          j.verify_slice role_link_token (String.◌++◌ header_b64 (String.◌++◌ "." payload_b64))
            sig_bytes))
        bad_signature
    claims ← ok_or (j.claims_of payload_bytes) malformed
    refuse_if (not (str_eq claims.iss "rolelogic")) wrong_issuer
    refuse_if (not (aud_matches claims.aud expected_aud)) wrong_audience
    refuse_if (ltb_ℤ (add_i64 claims.exp (pos allowed_skew_secs)) (pos now)) expired
    ok (record {
      discord_id = claims.sub;
      guild_id = claims.guild_id;
      role_id = claims.role_id;
      read_only = claims.read_only;
      actor_id = claims.act;
    })

  -- `splitn(3, '.')` gives at most three parts.
  unfoldable pub verify :
      ℕ → (token role_link_token expected_aud : String) → Result Verified RlTokenError
  unfolding splitn verify_parts
  verify now token role_link_token expected_aud = elim (splitn 3 b'.' token) [
    | header_b64 ∷ payload_b64 ∷ sig_b64 ∷ [] ↦
        verify_parts now header_b64 payload_b64 sig_b64 role_link_token expected_aud
    | _ ↦ err malformed
  ]
