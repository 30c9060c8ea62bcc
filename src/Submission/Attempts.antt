-- ===== src/Submission/Attempts.antt =====
-- A run of submissions to one form, by any members: how many of a member's are accepted.
pub mod Bounded
use form_respondent_role.Prelude.{
  ℕ, zero, suc, ◌+◌, ◌≤◌, ◌<◌, String, Bool, true, false, ◌&&◌, List, [], ◌∷◌, Result, ok, err,
  is_ok, str_eq, str_eq_iff, All, if◌then◌else◌, ◌≡◌, ◌≢◌, ◌⊎◌, refl, ap, sym, ◌∙◌, arith,
  Bool-cases, Result-cases, inl, inr,
}
use form_respondent_role.Prelude.Int.{ℤ, pos, i32_max}
use form_respondent_role.Json.{Value, Host}
use form_respondent_role.Errors.{AppError}
use form_respondent_role.Submission.{Form, StoredResponse, Store, Clock, Service}
use form_respondent_role.Submission.Persist.{is_single, is_editable}
use form_respondent_role.Submission.Persist.Rows.{rows_of, IsKeyed}
use form_respondent_role.Submission.Persist.Outcome.{persist-frame, persist-IsKeyed}
use form_respondent_role.Submission.Persist.Tally.{IsTallied, persist-IsTallied}
use form_respondent_role.Submission.Handler.{submit, end_transaction}
use form_respondent_role.Submission.Handler.Accepted.{submit-IsAccepted}
use form_respondent_role.Submission.Page.Agreement.{graded_member}

-- One submission of a member: the time, the id of the row it may insert, and what was sent.
pub record Visit (N : Type 0) : Type 0 where
  pub clock : Clock
  pub new_id : String
  pub discord_id : String
  pub display_name : String
  pub answers : Value N
  pub version : ℤ

module _ (h : Host) (service : Service h) (f : Form h.Number) where
  open h use {Number}

  unfoldable pub visit : Visit Number → Store Number → Result (Value Number × Store Number) AppError
  unfolding submit
  visit v store =
      submit h service v.clock v.new_id f v.discord_id v.display_name v.answers v.version store

  abbrev pub after : Visit Number → Store Number → Store Number
  unfolding visit
  after v store = (end_transaction h store (visit v store)).0

  unfoldable pub run : List (Visit Number) → Store Number → Store Number
  unfolding after
  run [] store = store
  run (v ∷ vs) store = run vs (after v store)

  -- How many submissions of a member are accepted.
  unfoldable pub accepted : String → List (Visit Number) → Store Number → ℕ
  unfolding after visit
  accepted member [] store = 0
  accepted member (v ∷ vs) store =
      let rest = accepted member vs (after v store) in
      if str_eq v.discord_id member && is_ok (visit v store) then suc rest else rest

  -- The id of a new row is no row's, as the primary key demands.
  unfoldable pub IsFresh : List (Visit Number) → Store Number → Type 0
  unfolding after
  IsFresh [] store = Unit
  IsFresh (v ∷ vs) store =
      All (λ (r : StoredResponse Number). r.id ≢ v.new_id) store.responses
      × IsFresh vs (after v store)
