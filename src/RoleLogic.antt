-- ===== src/RoleLogic.antt =====
-- services/rolelogic.rs: the client of RoleLogic. A call is sent by the transport, which may answer
-- by all that was sent before it.
pub mod Upload
use Prim.Native.String
use form_respondent_role.Prelude.{
  ℕ, String, Bool, true, false, ◌&&◌, ◌||◌, List, [], ◌∷◌, Option, none, some, and_then, map_or,
  or_else, Result, ok, err, ◌>>=◌, ok_or, map_err, leb, ◌==◌, if◌then◌else◌,
}
use form_respondent_role.Text.{contains, second_piece, take_while}
use form_respondent_role.Text.Decimal.{parse_u64}
use form_respondent_role.Json.{Value, bool, number, str, get, as_str, Host}
use form_respondent_role.Errors.{
  AppError, role_logic, role_link_not_found, role_link_disabled, user_limit_reached, removal_held,
}

-- The requests to one role link.
pub data Call : Type 0 where
  add_user remove_user : (user_id : String) → Call
  replace_users : (user_ids : List String) → Call
  start_upload : Call
  upload_chunk : (upload_id : String) (user_ids : List String) → Call
  commit_upload cancel_upload : (upload_id : String) → Call

pub record Reply : Type 0 where
  pub status : ℕ
  pub body : String

-- The address without its last slashes, the link that is called, the transport, whose error is its text, and what is read of a reply:
-- serde's reading of JSON and of an unsigned number, and the text of a status.
pub record Client (h : Host) : Type 0 where
  pub base_url : String
  pub guild_id : String
  pub role_id : String
  pub send : List Call → Call → Result Reply String
  pub json : String → Result (Value h.Number) String
  pub as_u64 : h.Number → Option ℕ
  pub status_text : ℕ → String

-- The method and the address of a call.
abbrev joined : List String → String
joined [] = ""
joined (s ∷ ss) = String.◌++◌ s (joined ss)

abbrev link_path : {h : Host} → Client h → List String → String
link_path c rest =
    joined (c.base_url ∷ "/api/role-link/" ∷ c.guild_id ∷ "/" ∷ c.role_id ∷ "/users" ∷ rest)

unfoldable pub endpoint : {h : Host} → Client h → Call → String × String
endpoint c (add_user user_id) = ("POST", link_path c ("/" ∷ user_id ∷ []))
endpoint c (remove_user user_id) = ("DELETE", link_path c ("/" ∷ user_id ∷ []))
endpoint c (replace_users user_ids) = ("PUT", link_path c [])
endpoint c start_upload = ("POST", link_path c ("/upload" ∷ []))
endpoint c (upload_chunk id user_ids) = ("POST", link_path c ("/upload/" ∷ id ∷ "/chunk" ∷ []))
endpoint c (commit_upload id) = ("POST", link_path c ("/upload/" ∷ id ∷ "/commit" ∷ []))
endpoint c (cancel_upload id) = ("DELETE", link_path c ("/upload/" ∷ id ∷ []))

abbrev pub is_success : ℕ → Bool
is_success status = leb 200 status && leb status 299

abbrev link_gone : (status : ℕ) → (body : String) → Bool
unfolding contains
link_gone status body = status == 403 && contains body "Invalid or revoked token"

unfoldable pub link_inactive : (status : ℕ) → (body : String) → Bool
unfolding contains
link_inactive status body =
    status == 403
    && (contains body "This role link is disabled" || contains body "This role link is paused")

unfoldable pub is_removal_held : (status : ℕ) → (body : String) → Bool
unfolding contains
is_removal_held status body = status == 409 && contains body "confirm_required"

abbrev if_so : Bool → AppError → Option AppError
if_so true e = some e
if_so false e = none

module _ {h : Host} (c : Client h) where
  abbrev number_of : Value h.Number → Option ℕ
  number_of (number n) = c.as_u64 n
  number_of _ = none

  abbrev bool_of : Value h.Number → Option Bool
  bool_of (bool b) = some b
  bool_of _ = none

  -- `v["data"][name]`.
  abbrev data_field : String → Value h.Number → Option (Value h.Number)
  data_field name v = and_then (get "data" v) (get name)

  abbrev structured_limit : Result (Value h.Number) String → Option ℕ
  structured_limit (ok v) = and_then (data_field "user_limit" v) number_of
  structured_limit (err e) = none

  unfoldable pub parse_user_limit : (body : String) → Option ℕ
  unfolding second_piece contains take_while parse_u64
  parse_user_limit body = or_else (structured_limit (c.json body)) (
      and_then (second_piece body "Maximum ") λ after.
        if contains after "users per role link"
        then parse_u64 (take_while (λ d. leb b'0' d && leb d b'9') after)
        else none)

  -- What a status that is no success says of the link, in the order of the source.
  abbrev link_failure : (status : ℕ) → (body : String) → Option AppError
  unfolding link_inactive link_gone
  link_failure status body =
      or_else (if_so (link_gone status body) role_link_not_found)
        (if_so (link_inactive status body) role_link_disabled)

  abbrev of_limit : (status : ℕ) → (body : String) → Option AppError
  unfolding parse_user_limit
  of_limit status body =
      if status == 400 || status == 403
      then and_then (parse_user_limit body) (λ limit. some (user_limit_reached limit))
      else none

  abbrev of_hold : (status : ℕ) → (body : String) → Option AppError
  unfolding is_removal_held
  of_hold status body = if_so (is_removal_held status body) removal_held

  abbrev known_failure : Call → (status : ℕ) → (body : String) → Option AppError
  unfolding link_failure of_limit of_hold
  known_failure (add_user id) status body =
      or_else (link_failure status body) (of_limit status body)
  known_failure (remove_user id) status body = link_failure status body
  known_failure (replace_users ids) status body =
      or_else (link_failure status body) (or_else (of_limit status body) (of_hold status body))
  known_failure start_upload status body = link_failure status body
  known_failure (upload_chunk id ids) status body = none
  known_failure (commit_upload id) status body = of_hold status body
  known_failure (cancel_upload id) status body = none

  abbrev failed : Call → String
  failed (add_user id) = "Add user failed: "
  failed (remove_user id) = "Remove user failed: "
  failed (replace_users ids) = "Replace users failed: "
  failed start_upload = "Start upload failed: "
  failed (upload_chunk id ids) = "Upload chunk failed: "
  failed (commit_upload id) = "Commit upload failed: "
  failed (cancel_upload id) = "Cancel upload failed: "

  abbrev text_failure : Call → (status : ℕ) → (body : String) → AppError
  text_failure call status body =
      role_logic (joined (failed call ∷ c.status_text status ∷ " - " ∷ body ∷ []))

  unfoldable pub failure : Call → (status : ℕ) → (body : String) → AppError
  unfolding known_failure
  failure call status body =
      map_or (text_failure call status body) (λ e. e) (known_failure call status body)

  -- The body of a reply with success.
  unfoldable pub request : List Call → Call → Result String AppError
  unfolding failure
  request past call = do
    r ← map_err role_logic (c.send past call)
    if is_success r.status then ok r.body else err (failure call r.status r.body)

  abbrev reply_json : List Call → Call → Result (Value h.Number) AppError
  unfolding request
  reply_json past call = request past call >>= λ body. map_err role_logic (c.json body)

  -- What the operations read of the reply.
  unfoldable pub is_added : List Call → (user_id : String) → Result Bool AppError
  unfolding reply_json
  is_added past user_id = reply_json past (add_user user_id) >>= λ v.
      ok (map_or false (λ b. b) (and_then (data_field "added" v) bool_of))

  unfoldable pub is_removed : List Call → (user_id : String) → Result Bool AppError
  unfolding reply_json
  is_removed past user_id = reply_json past (remove_user user_id) >>= λ v.
      ok (map_or false (λ b. b) (and_then (data_field "removed" v) bool_of))

  unfoldable pub user_count : List Call → Call → Result ℕ AppError
  unfolding reply_json
  user_count past call = reply_json past call >>= λ v.
      ok (map_or 0 (λ n. n) (and_then (data_field "user_count" v) number_of))

  unfoldable pub opened : List Call → Result String AppError
  unfolding reply_json
  opened past = reply_json past start_upload >>= λ v.
      ok_or (and_then (data_field "upload_id" v) as_str)
        (role_logic "Start upload response missing upload_id")
