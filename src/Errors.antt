-- ===== src/Errors.antt =====
-- error.rs: the errors of the program, their texts, and the HTTP responses that they become.
pub mod Responses
use Prim.Native.String
use form_respondent_role.Prelude.{
  ℕ, String, List, [], ◌∷◌, Option, none, some, map_or, str_eq, if◌then◌else◌,
}
use form_respondent_role.Prelude.Int.{ℤ, pos}
use form_respondent_role.Text.Decimal.{print_i64}
use form_respondent_role.Json.{Value, str, number, arr, of_items, obj, of_entries, Host}
use form_respondent_role.Validator.Answers.{FieldError, AnswerError}

-- `sqlx::Error`: a failure that the database reports has a code and the name of a constraint.
pub data DbError : Type 0 where
  reported : (code constraint : Option String) → (text : String) → DbError
  failed : (text : String) → DbError

abbrev db_text : DbError → String
db_text (reported code constraint text) = text
db_text (failed text) = text

pub data AppError : Type 0 where
  database : DbError → AppError
  role_logic : String → AppError
  role_link_not_found role_link_disabled removal_held : AppError
  user_limit_reached : ℕ → AppError
  bad_request : String → AppError
  unauthorized : AppError
  unauthorized_with forbidden not_found form_not_found : String → AppError
  form_closed submission_rate_limited : AppError
  validation_failed : List FieldError → AppError
  duplicate_submission : AppError
  attempts_exhausted : (max : ℤ) → AppError
  retry_cooldown : (retry_after_seconds : ℕ) → AppError
  already_passed stale_version : AppError
  internal : String → AppError

-- The text of an error, by its `#[error(…)]`.
unfoldable pub display : AppError → String
display (database e) = String.◌++◌ "Database error: " (db_text e)
display (role_logic e) = String.◌++◌ "RoleLogic API error: " e
display role_link_not_found = "Role link not found on RoleLogic"
display role_link_disabled = "Role link is disabled or paused on RoleLogic"
display removal_held = "Role link removals are held for owner confirmation on RoleLogic"
display (user_limit_reached limit) =
    String.◌++◌ "Role link user limit reached (" (String.◌++◌ (print_i64 (pos limit)) ")")
display (bad_request e) = String.◌++◌ "Invalid request: " e
display unauthorized = "Unauthorized"
display (unauthorized_with e) = String.◌++◌ "Unauthorized: " e
display (forbidden e) = String.◌++◌ "Forbidden: " e
display (not_found e) = String.◌++◌ "Not found: " e
display (form_not_found e) = String.◌++◌ "Form not found: " e
display form_closed = "Form is not currently accepting submissions"
display submission_rate_limited = "Submission rate limited"
display (validation_failed errors) = "Validation failed"
display duplicate_submission = "Duplicate submission"
display (attempts_exhausted max) = "No attempts remaining"
display (retry_cooldown seconds) = "Retry cooldown active"
display already_passed = "Already passed; no further attempts"
display stale_version = "Form was edited; reload and try again"
display (internal e) = String.◌++◌ "Internal error: " e

-- The status, the `Retry-After` header where there is one, and the body.
pub record Response (N : Type 0) : Type 0 where
  pub status : ℕ
  pub retry_after : Option String
  pub body : Value N

module _ (h : Host) (message_text : AnswerError → String) where
  open h use {Number}

  abbrev json_reply : ℕ → List (String × Value Number) → Response Number
  json_reply status fields = record {
    status = status;
    retry_after = none;
    body = obj (of_entries fields);
  }

  abbrev error_reply : ℕ → String → Response Number
  error_reply status message = json_reply status (("error", str message) ∷ [])

  abbrev coded_reply : ℕ → String → String → List (String × Value Number) → Response Number
  coded_reply status message code more =
      json_reply status (("error", str message) ∷ ("code", str code) ∷ more)

  abbrev field_error : FieldError → Value Number
  field_error e = obj (
      of_entries
        (("question_id", str e.question_id) ∷ ("message", str (message_text e.message)) ∷ []))

  abbrev field_errors : List FieldError → List (Value Number)
  field_errors [] = []
  field_errors (e ∷ es) = field_error e ∷ field_errors es

  -- What the client caused has a code of its own; the rest is a server error.
  unfoldable pub classify_db_error : DbError → Response Number
  classify_db_error (failed text) = error_reply 500 "Internal server error"
  classify_db_error (reported code constraint text) =
      let code' = map_or "" (λ c. c) code in
      let named = ("constraint", str (map_or "" (λ c. c) constraint)) ∷ [] in
      if str_eq code' "23505"
      then coded_reply 409 "A record with that value already exists." "UNIQUE_VIOLATION" named
      else if str_eq code' "23503"
      then coded_reply 409 "Operation would violate a referential constraint."
          "FOREIGN_KEY_VIOLATION" named
      else if str_eq code' "23514"
      then coded_reply 400 "One or more fields failed a database check." "CHECK_VIOLATION" named
      else if str_eq code' "23502"
      then coded_reply 400 "A required field was missing." "NOT_NULL_VIOLATION" []
      else error_reply 500 "Internal server error"

  unfoldable pub into_response : AppError → Response Number
  unfolding classify_db_error
  into_response (database e) = classify_db_error e
  into_response (role_logic e) = error_reply 502 "Failed to sync roles"
  into_response role_link_not_found = error_reply 404 "Role link not found"
  into_response role_link_disabled = error_reply 403 "Role link is disabled"
  into_response removal_held =
      error_reply 409 "Removals are waiting for confirmation in the RoleLogic dashboard"
  into_response (user_limit_reached limit) = error_reply 403 "Role link user limit reached"
  into_response (bad_request e) = error_reply 400 e
  into_response unauthorized = error_reply 401 "Invalid or missing authorization"
  into_response (unauthorized_with e) = error_reply 401 e
  into_response (forbidden e) = error_reply 403 e
  into_response (not_found e) = error_reply 404 e
  into_response (form_not_found slug) = error_reply 404 (String.◌++◌ "Form not found: " slug)
  into_response form_closed = error_reply 403 "This form is not currently accepting submissions."
  into_response submission_rate_limited = error_reply 429 "Too many submissions. Please slow down."
  into_response (validation_failed errors) = json_reply 422 (
      ("error", str "Validation failed")
      ∷ ("field_errors", arr (of_items (field_errors errors)))
      ∷ [])
  into_response duplicate_submission =
      coded_reply 409 "You've already submitted this form." "DUPLICATE_SUBMISSION" []
  into_response (attempts_exhausted max) =
      coded_reply 409
        (String.◌++◌ "You've used all "
          (String.◌++◌ (print_i64 max) " of your attempts for this form."))
        "ATTEMPTS_EXHAUSTED" (("max_attempts", number (h.of_i64 max)) ∷ [])
  into_response (retry_cooldown seconds) = record {
    status = 429;
    retry_after = some (print_i64 (pos seconds));
    body = obj (
        of_entries (
          ("error", str "Please wait before trying again.")
          ∷ ("code", str "RETRY_COOLDOWN")
          ∷ ("retry_after_seconds", number (h.of_i64 (pos seconds)))
          ∷ []));
  }
  into_response already_passed =
      coded_reply 409 "You've already passed — no further attempts are needed." "ALREADY_PASSED" []
  into_response stale_version =
      coded_reply 409 "The form was edited while you were filling it out. Please reload."
        "STALE_VERSION" []
  into_response (internal e) = error_reply 500 "Internal server error"
