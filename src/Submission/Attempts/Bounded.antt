-- ===== src/Submission/Attempts/Bounded.antt =====
-- A member's accepted submissions to a form that limits the attempts, and the row they leave.
use form_respondent_role.Prelude.{
  ℕ, suc, ◌+◌, ◌≤◌, ◌<◌, String, Bool, true, false, ◌&&◌, List, [], ◌∷◌, ok, err, str_eq,
  str_eq_iff, All, ◌≡◌, ◌≢◌, refl, ap, ◌∙◌, arith, Bool-cases, Result-cases, inl, inr,
}
use form_respondent_role.Prelude.Int.{pos, i32_max}
use form_respondent_role.Json.{Value, Host}
use form_respondent_role.Errors.{AppError}
use form_respondent_role.Submission.{Form, StoredResponse, Store, Service}
use form_respondent_role.Submission.Persist.{is_single, is_editable}
use form_respondent_role.Submission.Persist.Rows.{rows_of, IsKeyed}
use form_respondent_role.Submission.Persist.Outcome.{persist-frame, persist-IsKeyed}
use form_respondent_role.Submission.Persist.Tally.{IsTallied, persist-IsTallied}
use form_respondent_role.Submission.Handler.Accepted.{submit-IsAccepted}
use form_respondent_role.Submission.Page.Agreement.{graded_member}
use form_respondent_role.Submission.Attempts.{Visit, visit, after, run, accepted, IsFresh}

and_false : (b : Bool) → (b && false) ≡ false
and_false true = refl
and_false false = refl

module _ (h : Host) (service : Service h) (f : Form h.Number) where
  open h use {Number}

  module _ (single : is_single f ≡ true) (governed : is_editable f ≡ false) (m : ℕ)
      (limit : f.max_attempts ≡ pos m) (some_room : 0 < m) (fits : m ≤ i32_max)
      (member : String) where
    step-own :
        (v : Visit Number) (store : Store Number) (k : ℕ) (result : Value Number × Store Number)
        → visit h service f v store ≡ ok result
        → v.discord_id ≡ member
        → IsTallied k (rows_of f.id member store.responses)
        → (suc k ≤ m) × IsTallied (suc k) (rows_of f.id member result.1.responses)
    unfolding visit
    step-own v store k result e own tallied =
        let (g, p, admitted, graded, stored, same) =
          submit-IsAccepted h service v.clock v.new_id f v.discord_id v.display_name v.answers
            v.version store result e in
        let mine : g.discord_id ≡ member =
          graded_member h service f v.answers v.discord_id g graded ∙ own in
        let counted =
          persist-IsTallied v.new_id v.clock f g single governed m limit some_room fits
            store.responses k p (rw mine tallied) stored in
        rw same (rw mine at counted)

    step-other :
        (v : Visit Number) (store : Store Number) (result : Value Number × Store Number)
        → visit h service f v store ≡ ok result
        → str_eq v.discord_id member ≡ false
        → IsKeyed store.responses
        → rows_of f.id member result.1.responses ≡ rows_of f.id member store.responses
    unfolding visit
    step-other v store result e other k =
        let (g, p, admitted, graded, stored, same) =
          submit-IsAccepted h service v.clock v.new_id f v.discord_id v.display_name v.answers
            v.version store result e in
        rw same (
          persist-frame v.new_id v.clock f g store.responses p f.id member k stored
            (rw (graded_member h service f v.answers v.discord_id g graded, other) (ground arith)))

    step-IsKeyed :
        (v : Visit Number) (store : Store Number) (result : Value Number × Store Number)
        → visit h service f v store ≡ ok result
        → IsKeyed store.responses
        → All (λ (r : StoredResponse Number). r.id ≢ v.new_id) store.responses
        → IsKeyed result.1.responses
    unfolding visit
    step-IsKeyed v store result e k fresh =
        let (g, p, admitted, graded, stored, same) =
          submit-IsAccepted h service v.clock v.new_id f v.discord_id v.display_name v.answers
            v.version store result e in
        rw same (persist-IsKeyed v.new_id v.clock f g store.responses p k fresh stored)

    after_ok :
        (v : Visit Number) (store : Store Number) (result : Value Number × Store Number)
        → visit h service f v store ≡ ok result
        → after h service f v store ≡ result.1
    unfolding after
    after_ok v store result e = rw (after, e) refl

    after_err :
        (v : Visit Number) (store : Store Number) (x : AppError)
        → visit h service f v store ≡ err x
        → after h service f v store ≡ store
    unfolding after
    after_err v store x e = rw (after, e) refl

    run_ok :
        (v : Visit Number) (vs : List (Visit Number)) (store : Store Number)
        (result : Value Number × Store Number)
        → visit h service f v store ≡ ok result
        → run h service f (v ∷ vs) store ≡ run h service f vs result.1
    unfolding run
    run_ok v vs store result e = ap (run h service f vs) (after_ok v store result e)

    run_err :
        (v : Visit Number) (vs : List (Visit Number)) (store : Store Number) (x : AppError)
        → visit h service f v store ≡ err x
        → run h service f (v ∷ vs) store ≡ run h service f vs store
    unfolding run
    run_err v vs store x e = ap (run h service f vs) (after_err v store x e)

    accepted_own :
        (v : Visit Number) (vs : List (Visit Number)) (store : Store Number)
        (result : Value Number × Store Number)
        → visit h service f v store ≡ ok result
        → str_eq v.discord_id member ≡ true
        → accepted h service f member (v ∷ vs) store ≡ suc (accepted h service f member vs result.1)
    unfolding accepted
    accepted_own v vs store result e own = rw (own, e, after_ok v store result e) refl

    accepted_other :
        (v : Visit Number) (vs : List (Visit Number)) (store : Store Number)
        (result : Value Number × Store Number)
        → visit h service f v store ≡ ok result
        → str_eq v.discord_id member ≡ false
        → accepted h service f member (v ∷ vs) store ≡ accepted h service f member vs result.1
    unfolding accepted
    accepted_other v vs store result e other = rw (other, after_ok v store result e) refl

    accepted_refused :
        (v : Visit Number) (vs : List (Visit Number)) (store : Store Number) (x : AppError)
        → visit h service f v store ≡ err x
        → accepted h service f member (v ∷ vs) store ≡ accepted h service f member vs store
    unfolding accepted
    accepted_refused v vs store x e =
        rw (e, and_false (str_eq v.discord_id member), after_err v store x e) refl

    -- The tally goes with the accepted submissions.
    abbrev Counts : ℕ → List (Visit Number) → Store Number → Type 0
    Counts k vs store =
        (k + accepted h service f member vs store ≤ m)
        × IsTallied (k + accepted h service f member vs store)
            (rows_of f.id member (run h service f vs store).responses)

    Counts-none :
        (store : Store Number) (k : ℕ)
        → k ≤ m
        → IsTallied k (rows_of f.id member store.responses)
        → Counts k [] store
    unfolding run accepted
    Counts-none store k b tallied =
        let none_more : k + 0 ≡ k = omega arith in rw none_more (b, tallied)

    counts :
        (vs : List (Visit Number)) (store : Store Number) (k : ℕ)
        → IsFresh h service f vs store
        → IsKeyed store.responses
        → k ≤ m
        → IsTallied k (rows_of f.id member store.responses)
        → Counts k vs store
    unfolding IsFresh
    counts [] store k fresh keyed b tallied = Counts-none store k b tallied
    counts (v ∷ vs) store k (new, fresh) keyed b tallied =
        elim (Result-cases (visit h service f v store)) [
          | inr (x, e) ↦
              let ih = counts vs store k (rw (after_err v store x e) at fresh) keyed b tallied in
              rw (accepted_refused v vs store x e, run_err v vs store x e) ih
          | inl (result, e) ↦
              let fresh' = rw (after_ok v store result e) at fresh in
              let keyed' = step-IsKeyed v store result e keyed new in
              elim (Bool-cases (str_eq v.discord_id member)) [
                | inl own ↦
                    let mine = (str_eq_iff v.discord_id member).0 own in
                    let (room, tallied') = step-own v store k result e mine tallied in
                    let n = accepted h service f member vs result.1 in
                    let shift : k + suc n ≡ suc k + n = omega arith in
                    rw (accepted_own v vs store result e own, run_ok v vs store result e, shift)
                      (counts vs result.1 (suc k) fresh' keyed' room tallied')
                | inr other ↦
                    rw (accepted_other v vs store result e other, run_ok v vs store result e)
                      (counts vs result.1 k fresh' keyed' b
                        (rw (step-other v store result e other keyed) tallied))
              ]
        ]

    -- On a form that keeps one response, is not edited freely and limits the attempts, starting
    -- without a response of the member, any run of submissions by anyone accepts at most the
    -- limit of the member's own; and afterwards the member has no response, where none was
    -- accepted, or one, whose attempt count is the number of those accepted.
    pub accepted-bounded :
        (vs : List (Visit Number)) (store : Store Number)
        → IsFresh h service f vs store
        → IsKeyed store.responses
        → rows_of f.id member store.responses ≡ []
        → (accepted h service f member vs store ≤ m)
          × IsTallied
              (accepted h service f member vs store)
              (rows_of f.id member (run h service f vs store).responses)
    accepted-bounded vs store fresh keyed empty =
        let n = accepted h service f member vs store in
        let start : 0 + n ≡ n = omega arith in
        rw start at (counts vs store 0 fresh keyed (omega arith) (inl (empty, refl)))
