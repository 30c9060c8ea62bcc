-- ===== src/Submission/Handler/Accepted.antt =====
-- What an accepted submission went through.
use form_respondent_role.Prelude.{String, ok, ◌≡◌, arith, Result-cases, inl, inr}
use form_respondent_role.Prelude.Int.{ℤ}
use form_respondent_role.Json.{Value, Host}
use form_respondent_role.Submission.{Form, Store, Clock, Service}
use form_respondent_role.Submission.Persist.{Graded, Persisted, persist}
use form_respondent_role.Submission.Handler.{admit, check_answers, commit, submit}

module _ (h : Host) (service : Service h) (clock : Clock) (new_id : String) (f : Form h.Number)
    (discord_id display_name : String) (answers : Value h.Number) (version : ℤ)
    (store : Store h.Number) where
  abbrev pub IsAccepted : Value h.Number × Store h.Number → Type 0
  IsAccepted result =
      (g : Graded h.Number) × (p : Persisted h.Number) × (admit h service clock.now f version
          discord_id
        ≡ ok tt)
      × (check_answers h service f answers discord_id ≡ ok g)
      × (persist new_id clock f g store.responses ≡ ok p)
      × (result ≡ commit h service clock f display_name g store p)

  -- The gates are open, the answers validate, and the attempt is stored.
  pub submit-IsAccepted :
      (result : Value h.Number × Store h.Number)
      → submit h service clock new_id f discord_id display_name answers version store ≡ ok result
      → IsAccepted result
  unfolding submit
  submit-IsAccepted result e =
      elim (Result-cases (admit h service clock.now f version discord_id)) [
        | inr (x, refused) ↦ absurd (ground arith)
        | inl (u, admitted) ↦ elim (Result-cases (check_answers h service f answers discord_id)) [
          | inr (x, refused) ↦ absurd (ground arith)
          | inl (g, graded) ↦ elim (Result-cases (persist new_id clock f g store.responses)) [
            | inr (x, refused) ↦ absurd (ground arith)
            | inl (p, stored) ↦ (g, p, admitted, graded, stored, ground arith)
          ]
        ]
      ]
