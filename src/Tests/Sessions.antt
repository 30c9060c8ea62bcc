-- ===== src/Tests/Sessions.antt =====
-- The theorems on signed sessions and on error responses.
use form_respondent_role.Prelude.{
  ◌+◌, ◌≤◌, ◌<◌, true, none, some, ◌≡◌, ◌⊎◌, refl, arith, if◌then◌else◌,
}
use form_respondent_role.Prelude.Int.{pos, ltb_ℤ}
use form_respondent_role.Text.{all_char}
use form_respondent_role.Text.Decimal.{parse_i64}
use form_respondent_role.Errors.{internal, into_response}
use form_respondent_role.Errors.Responses.{IsOpaque, into_response-IsOpaque}
use form_respondent_role.Tokens.Iframe.{
  ttl, actor_of, actor_text, IframeSession, mint_iframe_session, verify_iframe_session,
}
use form_respondent_role.Tokens.Iframe.Laws.{verify-mint_iframe_session}
use form_respondent_role.Tokens.Iframe.Authentic.{IsAuthentic, verify_iframe_session-IsAuthentic}
use form_respondent_role.Tests.Data.{whole_host, plain_crypto}

abbrev viewer : IframeSession
viewer = record {
  discord_id = "u1";
  guild_id = "g1";
  role_id = "r1";
  read_only = true;
  actor_id = some "d9";
}

verify-mint_iframe_session_example :
    verify_iframe_session plain_crypto 1200
      (mint_iframe_session plain_crypto 1000 "u1" "g1" "r1" true (some "d9") "s")
      "s"
    ≡ (if ltb_ℤ (pos (1000 + ttl true)) (pos 1200)
        then none
        else some (record viewer { actor_id = actor_of (actor_text (some "d9")) }))
unfolding all_char
verify-mint_iframe_session_example =
    verify-mint_iframe_session plain_crypto "s" 1000 1200 "u1" "g1" "r1" true (some "d9") refl refl
      refl (omega arith)

verify_iframe_session-IsAuthentic_example :
    IsAuthentic plain_crypto 1200 "s" "ifs:u1:g1:r1:1:d9:1900:ab" viewer
unfolding verify_iframe_session parse_i64
verify_iframe_session-IsAuthentic_example =
    verify_iframe_session-IsAuthentic plain_crypto 1200 "s" "ifs:u1:g1:r1:1:d9:1900:ab" viewer refl

into_response-IsOpaque_example :
    (400 ≤ (into_response whole_host (λ e. "") (internal "secret")).status)
    × ((into_response whole_host (λ e. "") (internal "secret")).status ≤ 502)
    × (((into_response whole_host (λ e. "") (internal "secret")).status < 500)
        ⊎ IsOpaque whole_host (λ e. "") (into_response whole_host (λ e. "") (internal "secret")))
into_response-IsOpaque_example = into_response-IsOpaque whole_host (λ e. "") (internal "secret")
