-- ===== src/Submission/Persist/Tally.antt =====
-- How a retry-governed form counts the attempts of a member, in one row.
use form_respondent_role.Prelude.{
  ℕ, suc, ◌≤◌, ◌<◌, String, true, false, List, [], ◌∷◌, none, some, ok, str_eq_refl, ◌≡◌, ◌⊎◌, refl,
  ◌∙◌, arith, Result-cases, inl, inr,
}
use form_respondent_role.Prelude.Int.{pos, i32_max, saturating_add, ◌+ℤ◌}
use form_respondent_role.Retry.{
  RetryConfig, ExistingAttempt, NewSubmission, AcceptedAttempt, decide, accept,
}
use form_respondent_role.Submission.{
  Form, StoredResponse, Clock, load_canonical_attempt, existing_attempt, retry_config_from_form,
}
use form_respondent_role.Submission.Persist.{
  Graded, Persisted, insert_response, overwrite, record_attempt, persist, is_single, is_editable,
  persist_attempt, new_submission,
}
use form_respondent_role.Submission.Persist.Rows.{rows_of, rows_of-update}
use form_respondent_role.Submission.Persist.Outcome.{
  retry_of, persist_accepted, persist_refused, record_attempt-IsUpdate, ok_inj,
}

-- No row before the first attempt, and one row with the count afterwards.
abbrev pub IsTallied : {N : Type 0} → ℕ → List (StoredResponse N) → Type 0
IsTallied {N} n rows =
    ((rows ≡ []) × (n ≡ 0)) ⊎ ((r : StoredResponse N) × (rows ≡ r ∷ []) × (r.attempt_count ≡ pos n))

count_up : (k : ℕ) → suc k ≤ i32_max → saturating_add (pos k) (pos 1) ≡ pos (suc k)
unfolding ◌+ℤ◌ saturating_add
count_up k b = ground arith

accept-count :
    (c : RetryConfig) (e : ExistingAttempt) (n : NewSubmission)
    → (accept c e n).attempt_count ≡ saturating_add e.attempt_count (pos 1)
unfolding accept
accept-count c e n = ground arith

module _ (now : ℕ) (c : RetryConfig) (n : NewSubmission) (a : AcceptedAttempt) where
  first-count : decide now c none n ≡ ok a → a.attempt_count ≡ pos 1
  unfolding decide
  first-count h = ground arith

  left :
      (e : ExistingAttempt) (k m : ℕ)
      → decide now c (some e) n ≡ ok a
      → e.attempt_count ≡ pos k
      → c.max_attempts ≡ pos m
      → 0 < m
      → (suc k ≤ m) × (a ≡ accept c e n)
  unfolding decide
  left e k m h count limit p = ground arith

  next-count :
      (e : ExistingAttempt) (k m : ℕ)
      → decide now c (some e) n ≡ ok a
      → e.attempt_count ≡ pos k
      → c.max_attempts ≡ pos m
      → 0 < m
      → m ≤ i32_max
      → (suc k ≤ m) × (a.attempt_count ≡ pos (suc k))
  next-count e k m h count limit p b =
      let (room, same) = left e k m h count limit p in
      (room, rw (same, accept-count c e n, count) (count_up k (omega arith)))

module _ {N : Type 0} (new_id : String) (clock : Clock) (f : Form N) (g : Graded N) where
  -- The canonical row of a member with a tally is their one row.
  canonical_none :
      (rows : List (StoredResponse N))
      → rows_of f.id g.discord_id rows ≡ []
      → load_canonical_attempt f.id g.discord_id rows ≡ none
  unfolding load_canonical_attempt
  canonical_none rows h = rw h refl

  canonical_one :
      (rows : List (StoredResponse N)) (r : StoredResponse N)
      → rows_of f.id g.discord_id rows ≡ r ∷ []
      → load_canonical_attempt f.id g.discord_id rows ≡ some r
  unfolding load_canonical_attempt
  canonical_one rows r h = rw h refl

  record_attempt-count :
      (a : AcceptedAttempt) (r : StoredResponse N)
      → (record_attempt new_id clock f g a r).attempt_count ≡ a.attempt_count
  unfolding record_attempt overwrite
  record_attempt-count a r = ground arith

  module _ (single : is_single f ≡ true) (governed : is_editable f ≡ false) (m : ℕ)
      (limit : f.max_attempts ≡ pos m) (some_room : 0 < m) (fits : m ≤ i32_max)
      (rows : List (StoredResponse N)) where
    tally_first :
        (a : AcceptedAttempt)
        → rows_of f.id g.discord_id rows ≡ []
        → retry_of new_id clock f g rows ≡ ok a
        → IsTallied 1 (
            rows_of f.id g.discord_id
              (persist_attempt new_id clock f g a
                (load_canonical_attempt f.id g.discord_id rows)
                rows).responses)
    unfolding persist_attempt insert_response
    tally_first a empty accepted =
        rw (canonical_none rows empty, str_eq_refl f.id, str_eq_refl g.discord_id, empty)
          (inr (
            _,
            refl,
            first-count clock.now (retry_config_from_form f) (new_submission new_id clock f g) a
                (rw (canonical_none rows empty) at accepted),
          ))

    tally_next :
        (a : AcceptedAttempt) (r : StoredResponse N) (k : ℕ)
        → rows_of f.id g.discord_id rows ≡ r ∷ []
        → r.attempt_count ≡ pos k
        → retry_of new_id clock f g rows ≡ ok a
        → (suc k ≤ m)
          × IsTallied (suc k) (
              rows_of f.id g.discord_id
                (persist_attempt new_id clock f g a
                  (load_canonical_attempt f.id g.discord_id rows)
                  rows).responses)
    unfolding persist_attempt retry_config_from_form
    tally_next a r k one count accepted =
        let (room, counted) =
          next-count clock.now (retry_config_from_form f) (new_submission new_id clock f g) a
            (existing_attempt r) k m (rw (canonical_one rows r one) at accepted) count limit
            some_room fits in
        (
          room,
          rw
              (
                canonical_one rows r one,
                rows_of-update r.id (record_attempt new_id clock f g a) f.id g.discord_id rows
                    (record_attempt-IsUpdate new_id clock f g a),
                one,
                str_eq_refl r.id,
              )
              (inr (_, refl, record_attempt-count a r ∙ counted)),
        )

    -- Each accepted attempt counts one more, and the count stays within the limit.
    pub persist-IsTallied :
        (k : ℕ) (p : Persisted N)
        → IsTallied k (rows_of f.id g.discord_id rows)
        → persist new_id clock f g rows ≡ ok p
        → (suc k ≤ m) × IsTallied (suc k) (rows_of f.id g.discord_id p.responses)
    persist-IsTallied k p tallied h = elim (Result-cases (retry_of new_id clock f g rows)) [
      | inr (x, refused) ↦
          absurd (ground (arith, persist_refused new_id clock f g rows x single governed refused))
      | inl (a, accepted) ↦
          let same =
            ok_inj new_id clock f g _ p _
              (persist_accepted new_id clock f g rows a single governed accepted) h in
          elim tallied [
            | inl (empty, none') ↦
                rw (← same) (omega arith, rw none' (tally_first a empty accepted))
            | inr (r, one, count) ↦ rw (← same) (tally_next a r k one count accepted)
          ]
    ]
