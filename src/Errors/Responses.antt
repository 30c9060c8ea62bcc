-- ===== src/Errors/Responses.antt =====
-- error.rs: what a response tells the client of a failure inside.
use form_respondent_role.Prelude.{◌≤◌, ◌<◌, String, [], ◌∷◌, ◌≡◌, ◌⊎◌, inl, inr, refl, arith}
use form_respondent_role.Json.{Host, str, obj, of_entries}
use form_respondent_role.Errors.{
  AppError, database, reported, failed, Response, into_response, classify_db_error,
}
use form_respondent_role.Validator.Answers.{AnswerError}

module _ (h : Host) (message_text : AnswerError → String) where
  abbrev pub IsOpaque : Response h.Number → Type 0
  IsOpaque r =
      (r.body ≡ obj (of_entries (("error", str "Internal server error") ∷ [])))
      ⊎ (r.body ≡ obj (of_entries (("error", str "Failed to sync roles") ∷ [])))

  -- The status of an error's response is between 400 and 502, and a response that blames the
  -- server has one of two fixed bodies, so that nothing of the failure inside reaches the client.
  pub into_response-IsOpaque :
      (e : AppError)
      → (400 ≤ (into_response h message_text e).status)
        × ((into_response h message_text e).status ≤ 502)
        × (((into_response h message_text e).status < 500)
            ⊎ IsOpaque (into_response h message_text e))
  unfolding into_response classify_db_error
  into_response-IsOpaque (database (failed text)) = (omega arith, omega arith, inr (inl refl))
  into_response-IsOpaque (database (reported code constraint text)) = ground arith
  into_response-IsOpaque e = ground arith
