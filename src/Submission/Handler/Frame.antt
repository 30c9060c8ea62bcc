-- ===== src/Submission/Handler/Frame.antt =====
-- What an accepted submission leaves as it was.
use form_respondent_role.Prelude.{String, false, ◌&&◌, ok, str_eq, ◌≡◌}
use form_respondent_role.Prelude.Int.{ℤ}
use form_respondent_role.Json.{Value, Host}
use form_respondent_role.Submission.{Form, Store, Clock, Service}
use form_respondent_role.Submission.Persist.Rows.{rows_of, IsKeyed}
use form_respondent_role.Submission.Persist.Outcome.{persist-frame}
use form_respondent_role.Submission.Handler.{submit, commit}
use form_respondent_role.Submission.Handler.Accepted.{submit-IsAccepted}
use form_respondent_role.Submission.Page.Agreement.{graded_member}

module _ (h : Host) (service : Service h) (clock : Clock) (new_id : String) (f : Form h.Number)
    (discord_id name : String) (answers : Value h.Number) (version : ℤ) (store : Store h.Number)
    (result : Value h.Number × Store h.Number) where
  -- Over rows with distinct ids, an accepted submission leaves the responses of every other
  -- member, and those to every other form, as they were.
  pub submit-frame :
      (form_id member : String)
      → IsKeyed store.responses
      → submit h service clock new_id f discord_id name answers version store ≡ ok result
      → (str_eq f.id form_id && str_eq discord_id member) ≡ false
      → rows_of form_id member result.1.responses ≡ rows_of form_id member store.responses
  unfolding commit
  submit-frame form_id member keyed e other =
      let (g, p, admitted, graded, stored, same) =
        submit-IsAccepted h service clock new_id f discord_id name answers version store result e in
      let mine = graded_member h service f answers discord_id g graded in
      rw same (
        persist-frame new_id clock f g store.responses p form_id member keyed stored
          (rw mine other))
