-- ===== src/Tokens/Iframe/Laws.antt =====
-- What an iframe session that verifies says, and how long a minted one does.
use Prim.Native.String.{[], ◌∷◌}
use form_respondent_role.Prelude.{
  ℕ, ◌+◌, ◌≤◌, String, Bool, true, false, [], ◌∷◌, Option, none, some, ◌≡◌, refl, ap, ◌∙◌, arith,
  map_or, if◌then◌else◌, and_then,
}
use form_respondent_role.Prelude.Int.{pos, ltb_ℤ}
use form_respondent_role.Text.{splitn, all_char, ◌:+◌}
use form_respondent_role.Text.Fields.{is_field, splitn-field, strip_prefix-append, field_assoc}
use form_respondent_role.Text.Decimal.{parse_i64, print_i64, i64_max}
use form_respondent_role.Text.Decimal.RoundTrip.{print_i64-parse}
use form_respondent_role.Tokens.{Crypto, is_signature}
use form_respondent_role.Tokens.Bytes.{as_bytes, constant_time_eq_refl}
use form_respondent_role.Tokens.Iframe.{
  ttl, flag, without_colons, actor_text, actor_of, payload, mint_iframe_session, read_iframe,
  iframe_prefix, verify_iframe_session,
}

payload-split :
    (d g r ro act exp sig : String)
    → is_field d ≡ true
    → is_field g ≡ true
    → is_field r ≡ true
    → is_field ro ≡ true
    → is_field act ≡ true
    → is_field exp ≡ true
    → splitn 7 b':' (payload d g r ro act exp :+ sig) ≡ d ∷ g ∷ r ∷ ro ∷ act ∷ exp ∷ sig ∷ []
unfolding payload splitn
payload-split d g r ro act exp sig a b c e f k =
    rw
      (
        field_assoc d (g :+ r :+ ro :+ act :+ exp) sig,
        field_assoc g (r :+ ro :+ act :+ exp) sig,
        field_assoc r (ro :+ act :+ exp) sig,
        field_assoc ro (act :+ exp) sig,
        field_assoc act exp sig,
        splitn-field 5 d (g :+ r :+ ro :+ act :+ exp :+ sig) a,
        splitn-field 4 g (r :+ ro :+ act :+ exp :+ sig) b,
        splitn-field 3 r (ro :+ act :+ exp :+ sig) c,
        splitn-field 2 ro (act :+ exp :+ sig) e,
        splitn-field 1 act (exp :+ sig) f,
        splitn-field 0 exp sig k,
      )
      refl

without_colons-is_field : (s : String) → is_field (without_colons s) ≡ true
unfolding without_colons all_char
without_colons-is_field [] = refl
without_colons-is_field (c ∷ s) = ground (arith, without_colons-is_field s)

flag-is_field : (b : Bool) → is_field (flag b) ≡ true
unfolding all_char
flag-is_field true = refl
flag-is_field false = refl

signed-is_signature :
    (c : Crypto) (secret text : String) → is_signature c secret text (c.hmac_hex secret text) ≡ true
unfolding is_signature
signed-is_signature c secret text = constant_time_eq_refl (as_bytes (c.hmac_hex secret text))

module _ (c : Crypto) (secret : String) where
  -- Six fields and their signature, read at a time.
  read_iframe-signed :
      (now expires : ℕ) (d g r : String) (ro : Bool) (act exp : String)
      → parse_i64 exp ≡ some (pos expires)
      → read_iframe c now secret (
          d
          ∷ g
          ∷ r
          ∷ flag ro
          ∷ act
          ∷ exp
          ∷ c.hmac_hex secret (payload d g r (flag ro) act exp)
          ∷ [])
        ≡ (if ltb_ℤ (pos expires) (pos now)
            then none
            else some (record {
              discord_id = d;
              guild_id = g;
              role_id = r;
              read_only = ro;
              actor_id = actor_of act;
            }))
  unfolding read_iframe
  read_iframe-signed now expires d g r true act exp e =
      rw (e, signed-is_signature c secret (payload d g r "1" act exp)) refl
  read_iframe-signed now expires d g r false act exp e =
      rw (e, signed-is_signature c secret (payload d g r "0" act exp)) refl

  -- A minted iframe session, verified under the same secret, gives back the ids, which have no
  -- colon, with the read-only flag and the actor without its colons, up to its time to live
  -- of an hour, or a quarter of one where it is read-only, and nothing afterwards.
  pub verify-mint_iframe_session :
      (now later : ℕ) (d g r : String) (read_only : Bool) (actor : Option String)
      → is_field d ≡ true
      → is_field g ≡ true
      → is_field r ≡ true
      → now + ttl read_only ≤ i64_max
      → verify_iframe_session c later
          (mint_iframe_session c now d g r read_only actor secret)
          secret
        ≡ (if ltb_ℤ (pos (now + ttl read_only)) (pos later)
            then none
            else some (record {
              discord_id = d;
              guild_id = g;
              role_id = r;
              read_only = read_only;
              actor_id = actor_of (actor_text actor);
            }))
  unfolding verify_iframe_session mint_iframe_session
  verify-mint_iframe_session now later d g r read_only actor fd fg fr b =
      let exp = print_i64 (pos (now + ttl read_only)) in
      let act = actor_text actor in
      let (fe, back) = print_i64-parse (now + ttl read_only) b in
      let signed = payload d g r (flag read_only) act exp in
      ap (λ o. and_then o λ rest. read_iframe c later secret (splitn 7 b':' rest))
        (strip_prefix-append iframe_prefix (signed :+ c.hmac_hex secret signed))
      ∙ ap (read_iframe c later secret) (
          payload-split d g r (flag read_only) act exp (c.hmac_hex secret signed) fd fg fr
            (flag-is_field read_only) (without_colons-is_field (map_or "" (λ a. a) actor)) fe)
      ∙ read_iframe-signed later (now + ttl read_only) d g r read_only act exp back
