-- ===== src/Tokens/Iframe/Authentic.antt =====
-- What an iframe session that verifies rests on.
use Prim.Native.String
use form_respondent_role.Prelude.{
  ℕ, String, Bool, true, false, List, [], ◌∷◌, some, ◌≡◌, refl, ap, sym, ◌∙◌, arith, str_eq_iff,
  Bool-cases, Option-cases, inl, inr,
}
use form_respondent_role.Prelude.Int.{ℤ, pos, ◌≤ℤ◌}
use form_respondent_role.Text.{splitn, strip_prefix, ◌:+◌}
use form_respondent_role.Text.Fields.{splitn-parts, strip_prefix_sound, field_assoc}
use form_respondent_role.Text.Decimal.{parse_i64}
use form_respondent_role.Tokens.{Crypto, is_signature}
use form_respondent_role.Tokens.Bytes.{as_bytes, as_bytes-IsByte, constant_time_eq_iff}
use form_respondent_role.Tokens.Iframe.{
  flag, actor_of, payload, IframeSession, read_flag, read_iframe, iframe_prefix,
  verify_iframe_session,
}

last_piece : (s sig : String) → splitn 1 b':' s ≡ sig ∷ [] → s ≡ sig
unfolding splitn
last_piece s sig h = ground arith

splitn-whole :
    (s d g r ro act exp sig : String)
    → splitn 7 b':' s ≡ d ∷ g ∷ r ∷ ro ∷ act ∷ exp ∷ sig ∷ []
    → s ≡ payload d g r ro act exp :+ sig
unfolding payload
splitn-whole s d g r ro act exp sig h =
    let (s1, e1, h1) = splitn-parts 5 s d g _ h in
    let (s2, e2, h2) = splitn-parts 4 s1 g r _ h1 in
    let (s3, e3, h3) = splitn-parts 3 s2 r ro _ h2 in
    let (s4, e4, h4) = splitn-parts 2 s3 ro act _ h3 in
    let (s5, e5, h5) = splitn-parts 1 s4 act exp _ h4 in
    let (s6, e6, h6) = splitn-parts 0 s5 exp sig _ h5 in
    e1
    ∙ ap (λ t. d :+ t)
        (e2
          ∙ ap (λ t. g :+ t)
              (e3
                ∙ ap (λ t. r :+ t)
                    (e4
                      ∙ ap (λ t. ro :+ t)
                          (e5
                            ∙ ap (λ t. act :+ t)
                                (e6 ∙ ap (λ t. exp :+ t) (last_piece s6 sig h6))))))
    ∙ sym (
        field_assoc d (g :+ r :+ ro :+ act :+ exp) sig
        ∙ ap (λ t. d :+ t)
            (field_assoc g (r :+ ro :+ act :+ exp) sig
              ∙ ap (λ t. g :+ t)
                  (field_assoc r (ro :+ act :+ exp) sig
                    ∙ ap (λ t. r :+ t)
                        (field_assoc ro (act :+ exp) sig
                          ∙ ap (λ t. ro :+ t) (field_assoc act exp sig)))))

module _ (c : Crypto) (now : ℕ) (secret : String) where
  -- The pieces of a session that is read.
  abbrev IsRead : List String → IframeSession → Type 0
  IsRead pieces s =
      (act exp sig : String) × (expires : ℤ) × (pieces
        ≡ s.discord_id ∷ s.guild_id ∷ s.role_id ∷ flag s.read_only ∷ act ∷ exp ∷ sig ∷ [])
      × (as_bytes sig
          ≡ as_bytes (
              c.hmac_hex secret
                (payload s.discord_id s.guild_id s.role_id (flag s.read_only) act exp)))
      × (parse_i64 exp ≡ some expires)
      × (pos now ≤ℤ expires)
      × (s.actor_id ≡ actor_of act)

  abbrev pub IsAuthentic : String → IframeSession → Type 0
  IsAuthentic token s =
      (act exp sig : String) × (expires : ℤ) × (token
        ≡ String.◌++◌ iframe_prefix
            (payload s.discord_id s.guild_id s.role_id (flag s.read_only) act exp :+ sig))
      × (as_bytes sig
          ≡ as_bytes (
              c.hmac_hex secret
                (payload s.discord_id s.guild_id s.role_id (flag s.read_only) act exp)))
      × (parse_i64 exp ≡ some expires)
      × (pos now ≤ℤ expires)
      × (s.actor_id ≡ actor_of act)

  flag-read : (ro : String) (b : Bool) → read_flag ro ≡ some b → ro ≡ flag b
  flag-read ro true h = ground (arith, str_eq_iff ro "0", str_eq_iff ro "1")
  flag-read ro false h = ground (arith, str_eq_iff ro "0", str_eq_iff ro "1")

  signature-bytes :
      (text sig : String)
      → is_signature c secret text sig ≡ true
      → as_bytes sig ≡ as_bytes (c.hmac_hex secret text)
  unfolding is_signature
  signature-bytes text sig h =
      (constant_time_eq_iff (as_bytes sig) (as_bytes (c.hmac_hex secret text)) (as_bytes-IsByte sig)
          (as_bytes-IsByte (c.hmac_hex secret text))).0
        h

  read_iframe-IsRead :
      (pieces : List String) (s : IframeSession)
      → read_iframe c now secret pieces ≡ some s
      → IsRead pieces s
  unfolding read_iframe
  read_iframe-IsRead (d ∷ g ∷ r ∷ ro ∷ act ∷ exp ∷ sig ∷ []) s h =
      elim (Option-cases (read_flag ro)) [
        | inl none' ↦ absurd (ground arith)
        | inr (b, is_flag) ↦ elim (Option-cases (parse_i64 exp)) [
          | inl none' ↦ absurd (ground arith)
          | inr (expires, parsed) ↦
              elim (Bool-cases (is_signature c secret (payload d g r ro act exp) sig)) [
                | inr forged ↦ absurd (ground arith)
                | inl signed ↦
                    let same : record {
                      discord_id = d;
                      guild_id = g;
                      role_id = r;
                      read_only = b;
                      actor_id = actor_of act;
                    }
                        ≡ s =
                      ground arith in
                    rw (← same) (
                      act,
                      exp,
                      sig,
                      expires,
                      ap (λ f. d ∷ g ∷ r ∷ f ∷ act ∷ exp ∷ sig ∷ []) (flag-read ro b is_flag),
                      rw (← flag-read ro b is_flag)
                          (signature-bytes (payload d g r ro act exp) sig signed),
                      parsed,
                      ground arith,
                      refl,
                    )
              ]
        ]
      ]
  read_iframe-IsRead _ s h = absurd (cc)

  -- An iframe session that verifies is written in the token: the ids and the read-only flag of the
  -- session stand in it with the actor and an expiry that has not passed, and the signature
  -- that follows has the bytes of the signature of exactly these fields under the secret.
  pub verify_iframe_session-IsAuthentic :
      (token : String) (s : IframeSession)
      → verify_iframe_session c now token secret ≡ some s
      → IsAuthentic token s
  unfolding verify_iframe_session
  verify_iframe_session-IsAuthentic token s h =
      elim (Option-cases (strip_prefix iframe_prefix token)) [
        | inl none' ↦ absurd (ground arith)
        | inr (rest, stripped) ↦
            let (act, exp, sig, expires, pieces, bytes, parsed, current, actor) =
              read_iframe-IsRead (splitn 7 b':' rest) s (ground arith) in
            (
              act,
              exp,
              sig,
              expires,
              strip_prefix_sound iframe_prefix token rest stripped
                  ∙ ap (String.◌++◌ iframe_prefix) (
                      splitn-whole rest s.discord_id s.guild_id s.role_id (flag s.read_only) act exp
                        sig pieces),
              bytes,
              parsed,
              current,
              actor,
            )
      ]
