-- ===== src/Guards.antt =====
-- services/csrf.rs and read_only_guard.rs: the tests that a request passes before its handler.
use Prim.Native.String
use form_respondent_role.Prelude.{
  ℕ, String, Bool, false, ◌||◌, List, [], ◌∷◌, map, Option, none, some, Result, ok, err, any,
  and_then, or_else, is_some, str_eq, if◌then◌else◌,
}
use form_respondent_role.Text.{trim_end_matches, strip_prefix, splitn, split}
use form_respondent_role.Errors.{AppError, forbidden}
use form_respondent_role.Tokens.{Crypto}
use form_respondent_role.Tokens.Iframe.{IframeSession, verify_iframe_session}

-- `origin` is the header, where it is there and is text.
unfoldable pub verify_origin :
    (origin : Option String) → (allowed_origins : List String) → Result (Unit {0}) AppError
unfolding trim_end_matches
verify_origin none allowed_origins =
    err (forbidden "State-changing requests must include an Origin header.")
verify_origin (some origin) allowed_origins =
    if any (λ allowed. str_eq (trim_end_matches b'/' origin) (trim_end_matches b'/' allowed))
      allowed_origins
    then ok tt
    else err (
        forbidden (
          String.◌++◌ "Origin '"
            (String.◌++◌ origin "' is not allowed for state-changing requests.")))

-- What the read-only guard looks at: the method, the `Authorization` header and the query.
pub record Incoming : Type 0 where
  pub method : String
  pub authorization : Option String
  pub query : Option String

abbrev value_of : (pieces : List String) → (name : String) → Option String
value_of (k ∷ v ∷ []) name = if str_eq k name then some v else none
value_of _ name = none

abbrev first_some : List (Option String) → Option String
first_some [] = none
first_some (none ∷ os) = first_some os
first_some (some s ∷ os) = some s

-- The first pair with the name whose value can be decoded.
unfoldable pub query_param : Crypto → (query name : String) → Option String
unfolding split splitn
query_param c query name =
    first_some
      (map (λ pair. and_then (value_of (splitn 2 b'=' pair) name) c.url_decode) (split b'&' query))

unfoldable pub read_only_session_on :
    Crypto → ℕ → (secret : String) → Incoming → Option IframeSession
unfolding strip_prefix query_param verify_iframe_session
read_only_session_on c now secret r =
    let bearer = and_then r.authorization (strip_prefix "Bearer ") in
    and_then (or_else bearer (and_then r.query λ q. query_param c q "ifs")) λ token.
      and_then (verify_iframe_session c now token secret) λ s. if s.read_only then some s else none

abbrev pub is_read : String → Bool
is_read method = str_eq method "GET" || str_eq method "HEAD" || str_eq method "OPTIONS"

-- Whether the request is answered with 403 before its handler.
unfoldable pub is_blocked : Crypto → ℕ → (secret : String) → Incoming → Bool
unfolding read_only_session_on
is_blocked c now secret r =
    if is_read r.method then false else is_some (read_only_session_on c now secret r)
