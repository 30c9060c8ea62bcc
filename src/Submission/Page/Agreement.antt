-- ===== src/Submission/Page/Agreement.antt =====
-- The page of a form offers the form exactly when a submission would be accepted.
use form_respondent_role.Prelude.{
  ℕ, String, Bool, true, false, not, ◌&&◌, List, Option, none, some, map_or, Result, ok, err, ◌>>◌,
  is_ok, is_ok-seq, is_ok-map, refuse_if, is_some, ◌≡◌, refl, ap, sym, ◌∙◌, arith, Option-cases,
  Result-cases, inl, inr, if◌then◌else◌,
}
use form_respondent_role.Prelude.Int.{ℤ, eqb_ℤ}
use form_respondent_role.Json.{Value, Host}
use form_respondent_role.Validator.Answers.{validate}
use form_respondent_role.Errors.{AppError, form_closed}
use form_respondent_role.Retry.{RetryConfig, ExistingAttempt, NewSubmission, decide}
use form_respondent_role.Tokens.Cookie.{verify_session}
use form_respondent_role.Submission.{
  is_past, Form, StoredResponse, Store, Clock, Service, seconds_of, is_retry_governed,
  load_canonical_attempt, existing_attempt, retry_config_from_form,
}
use form_respondent_role.Submission.Persist.{Graded, new_submission, persist}
use form_respondent_role.Submission.Handler.{
  grade, commit, is_closed, check_age, check_verified, check_answers, admit, submit,
}
use form_respondent_role.Submission.Page.{
  RetryStatus, Page, form_page, build_retry_status, gate_age, gate_verified, retry_status,
  form_gates, gate_open, closed,
}

abbrev pub is_free : Option RetryStatus → Bool
is_free none = true
is_free (some s) = not s.blocked && not (is_some s.next_attempt_at)

-- A page with the form, no block and no time to wait.
abbrev pub is_offered : Result Page Page → Bool
is_offered (ok (form_page id name preview status)) = is_free status
is_offered _ = false

decide-is_free :
    (now : ℕ) (c : RetryConfig) (e : Option ExistingAttempt) (n : NewSubmission)
    → is_ok (decide now c e n) ≡ is_free (some (build_retry_status c e now))
unfolding decide build_retry_status
decide-is_free now c none n = refl
decide-is_free now c (some e) n = ground arith

module _ (h : Host) (service : Service h) (now : ℕ) where
  age_agrees : (m : ℤ) (id : String) → is_ok (check_age h now m id) ≡ is_ok (gate_age h now m id)
  unfolding check_age gate_age
  age_agrees m id = ground arith

  verified_agrees :
      (f : Form h.Number) (id : String)
      → is_ok (check_verified h service f id) ≡ is_ok (gate_verified h service f id)
  unfolding check_verified gate_verified
  verified_agrees f id = elim (Result-cases (service.fetch_user_guild_ids id)) [
    | inl (ids, e) ↦ ground arith
    | inr (x, e) ↦ ground arith
  ]

module _ {N : Type 0} where
  persist-is_free :
      (new_id : String) (clock : Clock) (f : Form N) (g : Graded N) (rows : List (StoredResponse N))
      → is_ok (persist new_id clock f g rows)
        ≡ is_free (
            if is_retry_governed f.single_submission f.allow_edits f.is_quiz
            then some (
                build_retry_status
                  (retry_config_from_form f)
                  (map_or none
                    (λ r. some (existing_attempt r))
                    (load_canonical_attempt f.id g.discord_id rows))
                  clock.now)
            else none)
  unfolding persist is_retry_governed
  persist-is_free new_id clock f g rows =
      let existing =
        map_or none (λ r. some (existing_attempt r))
          (load_canonical_attempt f.id g.discord_id rows) in
      let n = new_submission new_id clock f g in
      let free = decide-is_free clock.now (retry_config_from_form f) existing n in
      elim (Result-cases (decide clock.now (retry_config_from_form f) existing n)) [
        | inl (a, e) ↦ ground (arith, free)
        | inr (x, e) ↦ ground (arith, free)
      ]

offered_gates :
    (open' close age verified : Result (Unit {0}) Page) (k : Result Page Page)
    → is_offered (open' >> (close >> (age >> (verified >> k))))
      ≡ ((is_ok open' && is_ok close) && (is_ok age && (is_ok verified && is_offered k)))
offered_gates (err e) close age verified k = refl
offered_gates (ok _) (err e) age verified k = refl
offered_gates (ok _) (ok _) (err e) verified k = refl
offered_gates (ok _) (ok _) (ok _) (err e) k = refl
offered_gates (ok _) (ok _) (ok _) (ok _) k = refl

module _ (h : Host) where
  gates-is_closed :
      (now : ℕ) (f : Form h.Number)
      → (is_ok (gate_open h f.open_at now) && is_ok (refuse_if (is_past f.close_at now) closed))
        ≡ not (is_closed h now f)
  gates-is_closed now f = elim (Option-cases f.open_at) [
    | inl always ↦ ground arith
    | inr (t, opens) ↦ ground arith
  ]

-- The answers are stored under the id of the session.
pub graded_member :
    (h : Host) (service : Service h) (f : Form h.Number) (answers : Value h.Number) (id : String)
    (g : Graded h.Number)
    → check_answers h service f answers id ≡ ok g
    → g.discord_id ≡ id
unfolding check_answers grade
graded_member h service f answers id g e = elim (Result-cases (service.schema_of f.schema)) [
  | inr (x, unread) ↦ absurd (ground arith)
  | inl (schema, read) ↦ elim (Result-cases (validate h schema answers)) [
    | inr (x, refused) ↦ absurd (ground arith)
    | inl (verified, valid) ↦ ground arith
  ]
]

admitted :
    (b : Bool) (age verified : Result (Unit {0}) AppError)
    → is_ok (refuse_if b form_closed >> (age >> verified))
      ≡ (not b && (is_ok age && is_ok verified))
admitted true age verified = refl
admitted false (err e) verified = refl
admitted false (ok _) verified = refl

and_last : (a b c d : Bool) → ((a && (b && c)) && d) ≡ (a && (b && (c && d)))
and_last true true c d = refl
and_last true false c d = refl
and_last false b c d = refl

eqb_refl : (n : ℤ) → eqb_ℤ n n ≡ true
eqb_refl n = ground arith

module _ (h : Host) (service : Service h) (clock : Clock) (f : Form h.Number)
    (cookie id name : String) where
  -- A session, a form that is not archived and answers that validate.
  module _
      (session : verify_session service.crypto (seconds_of clock.now) cookie service.session_secret
        ≡ some (id, name))
      (current : f.archived ≡ false) where
    page-offered :
        (rows : List (StoredResponse h.Number))
        → is_offered (form_gates h service clock.now f (some cookie) rows) ≡ (
            not (is_closed h clock.now f)
            && (is_ok (check_age h clock.now f.min_account_age_days id)
                && (is_ok (check_verified h service f id)
                    && is_free (retry_status h f clock.now id rows))))
    unfolding form_gates
    page-offered rows =
        let status = retry_status h f clock.now id rows in
        rw
          (
            session,
            age_agrees h service clock.now f.min_account_age_days id,
            verified_agrees h service clock.now f id,
          )
          (offered_gates (gate_open h f.open_at clock.now)
              (refuse_if (is_past f.close_at clock.now) closed)
              (gate_age h clock.now f.min_account_age_days id) (gate_verified h service f id)
              (ok (form_page id name false status))
            ∙ ap
                (λ b.
                  b
                  && (is_ok (gate_age h clock.now f.min_account_age_days id)
                      && (is_ok (gate_verified h service f id) && is_free status)))
                (gates-is_closed h clock.now f))

    admit-is_ok : is_ok (admit h service clock.now f f.version id) ≡ (
        not (is_closed h clock.now f)
        && (is_ok (check_age h clock.now f.min_account_age_days id)
            && is_ok (check_verified h service f id)))
    unfolding admit
    admit-is_ok =
        rw (current, eqb_refl f.version)
          (admitted (is_closed h clock.now f) (check_age h clock.now f.min_account_age_days id)
            (check_verified h service f id))

    submit-accepted :
        (new_id : String) (answers : Value h.Number) (g : Graded h.Number) (store : Store h.Number)
        → check_answers h service f answers id ≡ ok g
        → is_ok (submit h service clock new_id f id name answers f.version store) ≡ (
            not (is_closed h clock.now f)
            && (is_ok (check_age h clock.now f.min_account_age_days id)
                && (is_ok (check_verified h service f id)
                    && is_ok (persist new_id clock f g store.responses))))
    unfolding submit admit
    submit-accepted new_id answers g store graded =
        is_ok-seq (admit h service clock.now f f.version id) _
        ∙ rw
            (
              graded,
              is_ok-map (persist new_id clock f g store.responses)
                  (commit h service clock f name g store),
              admit-is_ok,
            )
            (and_last (not (is_closed h clock.now f))
              (is_ok (check_age h clock.now f.min_account_age_days id))
              (is_ok (check_verified h service f id))
              (is_ok (persist new_id clock f g store.responses)))

    -- Over a form that is not archived and that the member's session opens, with answers that
    -- validate against its current version, a submission is accepted exactly when the page, shown
    -- at the same time and over the same responses, offers the form: it shows none of the
    -- gates, and its retry status neither blocks the member nor names a time to wait for.
    pub submit-is_offered :
        (new_id : String) (answers : Value h.Number) (g : Graded h.Number) (store : Store h.Number)
        → check_answers h service f answers id ≡ ok g
        → is_ok (submit h service clock new_id f id name answers f.version store)
          ≡ is_offered (form_gates h service clock.now f (some cookie) store.responses)
    unfolding retry_status is_retry_governed
    submit-is_offered new_id answers g store graded =
        submit-accepted new_id answers g store graded
        ∙ ap
            (λ b.
              not (is_closed h clock.now f)
              && (is_ok (check_age h clock.now f.min_account_age_days id)
                  && (is_ok (check_verified h service f id) && b)))
            (rw (← graded_member h service f answers id g graded)
              (persist-is_free new_id clock f g store.responses))
        ∙ sym (page-offered store.responses)
