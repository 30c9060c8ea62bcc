-- ===== src/Submission/Persist/Frame.antt =====
-- What storing a submission leaves alone: the rows of the other members and forms, and the keys.
use form_respondent_role.Prelude.{
  String, true, false, List, [], ◌∷◌, map, some, str_eq, In, All, All-of_In, ◌≡◌, ◌≢◌, refl, ◌∙◌,
  arith, Bool-cases, Option-cases, inl, inr, keep_iff, ltb,
}
use form_respondent_role.Submission.{StoredResponse, belongs, latest, load_canonical_attempt}
use form_respondent_role.Submission.Persist.Rows.{
  rows_of, IsKeyed, IsUpdate, at_id, rows_of-update, update-absent, keyed_same,
}

module _ {N : Type 0} where
  latest-In :
      (rows : List (StoredResponse N)) (r : StoredResponse N) → latest rows ≡ some r → In r rows
  unfolding latest
  latest-In [] r h = absurd (cc)
  latest-In (x ∷ rows) r h = elim (Option-cases (latest rows)) [
    | inl none' ↦ inl (ground arith)
    | inr (s, e) ↦ elim (Bool-cases (ltb x.last_edited_at s.last_edited_at)) [
      | inl newer ↦ inr (latest-In rows r (ground arith))
      | inr older ↦ inl (ground arith)
    ]
  ]

  pub canonical-In :
      (a b : String) (rows : List (StoredResponse N)) (r : StoredResponse N)
      → load_canonical_attempt a b rows ≡ some r
      → In r rows × (belongs a b r ≡ true)
  unfolding load_canonical_attempt
  canonical-In a b rows r h = (keep_iff (belongs a b) r rows).0 (latest-In (rows_of a b rows) r h)

  -- The rows that are another member's or another form's stay.
  pub frame-update :
      (change : StoredResponse N → StoredResponse N) (a b : String) (rows : List (StoredResponse N))
      (r : StoredResponse N)
      → IsUpdate change
      → IsKeyed rows
      → In r rows
      → belongs a b r ≡ false
      → rows_of a b (map (at_id r.id change) rows) ≡ rows_of a b rows
  frame-update change a b rows r u k i other =
      rows_of-update r.id change a b rows u
      ∙ update-absent r.id change (rows_of a b rows) (
          All-of_In (λ (s : StoredResponse N). s.id ≢ r.id) (rows_of a b rows)
            λ s j e.
              let (stored, own) = (keep_iff (belongs a b) s rows).0 j in
              let same : s ≡ r = keyed_same r s rows k i stored e in
              let clash : belongs a b r ≡ true = rw (← same) own in absurd (ground arith))

  update-All :
      (id : String) (change : StoredResponse N → StoredResponse N) (key : String)
      (rows : List (StoredResponse N))
      → IsUpdate change
      → All (λ (s : StoredResponse N). s.id ≢ key) rows
      → All (λ (s : StoredResponse N). s.id ≢ key) (map (at_id id change) rows)
  update-All id change key [] u h = tt
  update-All id change key (r ∷ rows) u (n, h) = (
    elim (Bool-cases (str_eq r.id id)) [
      | inl here ↦ rw here (rw ((u r).0) n)
      | inr there ↦ rw there n
    ],
    update-All id change key rows u h,
  )

  at_id-key :
      (id : String) (change : StoredResponse N → StoredResponse N) (r : StoredResponse N)
      → IsUpdate change
      → (at_id id change r).id ≡ r.id
  at_id-key id change r u = elim (Bool-cases (str_eq r.id id)) [
    | inl here ↦ rw here ((u r).0)
    | inr there ↦ rw there refl
  ]

  pub update-IsKeyed :
      (id : String) (change : StoredResponse N → StoredResponse N) (rows : List (StoredResponse N))
      → IsUpdate change
      → IsKeyed rows
      → IsKeyed (map (at_id id change) rows)
  update-IsKeyed id change [] u k = tt
  update-IsKeyed id change (r ∷ rows) u (n, k) = (
    rw (at_id-key id change r u) (update-All id change r.id rows u n),
    update-IsKeyed id change rows u k,
  )
