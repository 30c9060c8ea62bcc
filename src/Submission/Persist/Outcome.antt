-- ===== src/Submission/Persist/Outcome.antt =====
-- What storing a submission does to the table: one new row, or one changed row of the member.
use form_respondent_role.Prelude.{
  String, Bool, true, false, ◌&&◌, List, map, Option, none, some, Result, ok, err, str_eq,
  str_eq_iff, In, All, ◌≡◌, ◌≢◌, ◌⊎◌, refl, arith, Bool-cases, Result-cases, inl, inr, map_or,
}
use form_respondent_role.Prelude.Int.{ℤ, pos}
use form_respondent_role.Errors.{AppError}
use form_respondent_role.Retry.{AcceptedAttempt, DenyReason, decide}
use form_respondent_role.Submission.{
  Form, StoredResponse, Clock, belongs, load_canonical_attempt, existing_attempt,
  retry_config_from_form,
}
use form_respondent_role.Submission.Persist.{
  Graded, Persisted, insert_response, overwrite, record_attempt, new_submission, persist, is_single,
  is_editable, persist_edit, persist_attempt, first_response, denied,
}
use form_respondent_role.Submission.Persist.Rows.{rows_of, IsKeyed, IsUpdate, at_id}
use form_respondent_role.Submission.Persist.Frame.{canonical-In, frame-update, update-IsKeyed}

module _ {N : Type 0} (new_id : String) (clock : Clock) (f : Form N) (g : Graded N)
    (rows : List (StoredResponse N)) where
  persist_many :
      is_single f ≡ false
      → persist new_id clock f g rows ≡ ok (first_response new_id clock f g rows)
  unfolding persist
  persist_many many = ground arith

  persist_editable :
      is_single f ≡ true
      → is_editable f ≡ true
      → persist new_id clock f g rows
        ≡ ok (persist_edit new_id clock f g (load_canonical_attempt f.id g.discord_id rows) rows)
  unfolding persist
  persist_editable single editable = rw (single, editable) refl

  -- The decision on a form that keeps one response.
  abbrev pub retry_of : Result AcceptedAttempt DenyReason
  retry_of =
      decide clock.now (retry_config_from_form f)
        (map_or none (λ r. some (existing_attempt r))
          (load_canonical_attempt f.id g.discord_id rows))
        (new_submission new_id clock f g)

  pub persist_accepted :
      (a : AcceptedAttempt)
      → is_single f ≡ true
      → is_editable f ≡ false
      → retry_of ≡ ok a
      → persist new_id clock f g rows
        ≡ ok (
            persist_attempt new_id clock f g a (load_canonical_attempt f.id g.discord_id rows) rows)
  unfolding persist
  persist_accepted a single governed accepted = rw (single, governed, accepted) refl

  pub persist_refused :
      (x : DenyReason)
      → is_single f ≡ true
      → is_editable f ≡ false
      → retry_of ≡ err x
      → persist new_id clock f g rows ≡ err (denied x)
  unfolding persist
  persist_refused x single governed refused = rw (single, governed, refused) refl

module _ {N : Type 0} (new_id : String) (clock : Clock) (f : Form N) (g : Graded N) where
  overwrite-IsUpdate :
      (score : Option ℤ) (passed : Option Bool) (count : StoredResponse N → ℤ)
      → IsUpdate (λ s. overwrite new_id clock f g score passed (count s) s)
  unfolding overwrite
  overwrite-IsUpdate score passed count s = (refl, refl, refl)

  pub record_attempt-IsUpdate : (a : AcceptedAttempt) → IsUpdate (record_attempt new_id clock f g a)
  unfolding record_attempt
  record_attempt-IsUpdate a s = elim (Bool-cases a.overwrite_answers) [
    | inl all' ↦ rw all' (overwrite-IsUpdate a.total_score a.passed (λ t. a.attempt_count) s)
    | inr part ↦ rw part (refl, refl, refl)
  ]

  abbrev pub IsStored : List (StoredResponse N) → List (StoredResponse N) → Type 0
  IsStored before after =
      ((score : Option ℤ) × (passed : Option Bool) × (count : ℤ) × (after
          ≡ insert_response new_id clock f g score passed count before))
      ⊎ ((r : StoredResponse N) × (change : StoredResponse N → StoredResponse N) × In r before
          × (belongs f.id g.discord_id r ≡ true)
          × IsUpdate change
          × (after ≡ map (at_id r.id change) before))

  persist_attempt-IsStored :
      (a : AcceptedAttempt) (existing : Option (StoredResponse N)) (rows : List (StoredResponse N))
      → load_canonical_attempt f.id g.discord_id rows ≡ existing
      → IsStored rows (persist_attempt new_id clock f g a existing rows).responses
  unfolding persist_attempt
  persist_attempt-IsStored a none rows h = inl (a.total_score, a.passed, a.attempt_count, refl)
  persist_attempt-IsStored a (some r) rows h =
      let (stored, own) = canonical-In f.id g.discord_id rows r h in
      inr (r, record_attempt new_id clock f g a, stored, own, record_attempt-IsUpdate a, refl)

  persist_edit-IsStored :
      (existing : Option (StoredResponse N)) (rows : List (StoredResponse N))
      → load_canonical_attempt f.id g.discord_id rows ≡ existing
      → IsStored rows (persist_edit new_id clock f g existing rows).responses
  unfolding persist_edit first_response
  persist_edit-IsStored none rows h = inl (g.total_score, g.passed, pos 1, refl)
  persist_edit-IsStored (some r) rows h =
      let (stored, own) = canonical-In f.id g.discord_id rows r h in
      inr (
        r,
        (λ s. overwrite new_id clock f g g.total_score g.passed s.attempt_count s),
        stored,
        own,
        overwrite-IsUpdate g.total_score g.passed (λ s. s.attempt_count),
        refl,
      )

  pub ok_inj : (p q : Persisted N) (r : Result (Persisted N) AppError) → r ≡ ok p → r ≡ ok q → p ≡ q
  ok_inj p q r e e' = cc

  pub persist-IsStored :
      (rows : List (StoredResponse N)) (p : Persisted N)
      → persist new_id clock f g rows ≡ ok p
      → IsStored rows p.responses
  unfolding first_response
  persist-IsStored rows p h = elim (Bool-cases (is_single f)) [
    | inr many ↦
        rw (← ok_inj _ p _ (persist_many new_id clock f g rows many) h)
          (inl (g.total_score, g.passed, pos 1, refl))
    | inl single ↦ elim (Bool-cases (is_editable f)) [
      | inl editable ↦
          rw (← ok_inj _ p _ (persist_editable new_id clock f g rows single editable) h)
            (persist_edit-IsStored (load_canonical_attempt f.id g.discord_id rows) rows refl)
      | inr governed ↦ elim (Result-cases (retry_of new_id clock f g rows)) [
        | inr (x, refused) ↦
            absurd (ground (arith, persist_refused new_id clock f g rows x single governed refused))
        | inl (a, accepted) ↦
            rw
              (← ok_inj _ p _ (persist_accepted new_id clock f g rows a single governed accepted) h)
              (persist_attempt-IsStored a (load_canonical_attempt f.id g.discord_id rows) rows refl)
      ]
    ]
  ]

  insert-other :
      (score : Option ℤ) (passed : Option Bool) (count : ℤ) (a b : String)
      (rows : List (StoredResponse N))
      → (str_eq f.id a && str_eq g.discord_id b) ≡ false
      → rows_of a b (insert_response new_id clock f g score passed count rows) ≡ rows_of a b rows
  unfolding insert_response
  insert-other score passed count a b rows other = rw other refl

  belongs-other :
      (r : StoredResponse N) (a b : String)
      → belongs f.id g.discord_id r ≡ true
      → (str_eq f.id a && str_eq g.discord_id b) ≡ false
      → belongs a b r ≡ false
  belongs-other r a b own other =
      ground
        (arith, str_eq_iff r.response.form_id f.id, str_eq_iff r.response.discord_id g.discord_id)

  -- The rows of another member, or for another form, stay.
  pub persist-frame :
      (rows : List (StoredResponse N)) (p : Persisted N) (a b : String)
      → IsKeyed rows
      → persist new_id clock f g rows ≡ ok p
      → (str_eq f.id a && str_eq g.discord_id b) ≡ false
      → rows_of a b p.responses ≡ rows_of a b rows
  persist-frame rows p a b k h other = elim (persist-IsStored rows p h) [
    | inl (score, passed, count, e) ↦ rw e (insert-other score passed count a b rows other)
    | inr (r, change, i, own, u, e) ↦
        rw e (frame-update change a b rows r u k i (belongs-other r a b own other))
  ]

  -- The ids stay distinct, where the id of the new row is new.
  pub persist-IsKeyed :
      (rows : List (StoredResponse N)) (p : Persisted N)
      → IsKeyed rows
      → All (λ (s : StoredResponse N). s.id ≢ new_id) rows
      → persist new_id clock f g rows ≡ ok p
      → IsKeyed p.responses
  unfolding insert_response
  persist-IsKeyed rows p k fresh h = elim (persist-IsStored rows p h) [
    | inl (score, passed, count, e) ↦ rw e (fresh, k)
    | inr (r, change, i, own, u, e) ↦ rw e (update-IsKeyed r.id change rows u k)
  ]
