-- ===== src/Submission/Persist/Rows.antt =====
-- The rows of a member for a form, after an insert and after an update of one row.
use form_respondent_role.Prelude.{
  String, List, [], ◌∷◌, map, keep, str_eq, str_eq_iff, if◌then◌else◌, In, All, In-of_All, ◌≡◌, ◌≢◌,
  refl, ap, sym, ◌∙◌, arith, Bool-cases, inl, inr,
}
use form_respondent_role.Submission.{StoredResponse, belongs}

module _ {N : Type 0} where
  abbrev pub rows_of :
      (form_id discord_id : String) → List (StoredResponse N) → List (StoredResponse N)
  rows_of form_id discord_id rows = keep (belongs form_id discord_id) rows

  -- No two rows have the same id.
  abbrev pub IsKeyed : List (StoredResponse N) → Type 0
  IsKeyed [] = Unit
  IsKeyed (r ∷ rows) = All (λ (s : StoredResponse N). s.id ≢ r.id) rows × IsKeyed rows

  -- A change that leaves the form, the member and the id.
  abbrev pub IsUpdate : (StoredResponse N → StoredResponse N) → Type 0
  IsUpdate change =
      (s : StoredResponse N)
      → ((change s).id ≡ s.id)
        × ((change s).response.form_id ≡ s.response.form_id)
        × ((change s).response.discord_id ≡ s.response.discord_id)

  abbrev pub at_id :
      String → (StoredResponse N → StoredResponse N) → StoredResponse N → StoredResponse N
  at_id id change r = if str_eq r.id id then change r else r

  at_id-belongs :
      (id : String) (change : StoredResponse N → StoredResponse N) (a b : String)
      (r : StoredResponse N)
      → IsUpdate change
      → belongs a b (at_id id change r) ≡ belongs a b r
  at_id-belongs id change a b r u = elim (Bool-cases (str_eq r.id id)) [
    | inl here ↦ let (i, f, d) = u r in rw (here, f, d) refl
    | inr there ↦ rw there refl
  ]

  -- The rows of a member are updated one by one.
  pub rows_of-update :
      (id : String) (change : StoredResponse N → StoredResponse N) (a b : String)
      (rows : List (StoredResponse N))
      → IsUpdate change
      → rows_of a b (map (at_id id change) rows) ≡ map (at_id id change) (rows_of a b rows)
  rows_of-update id change a b [] u = refl
  rows_of-update id change a b (r ∷ rows) u = elim (Bool-cases (belongs a b r)) [
    | inl own ↦
        rw (at_id-belongs id change a b r u, own)
          (ap (λ rs. at_id id change r ∷ rs) (rows_of-update id change a b rows u))
    | inr other ↦ rw (at_id-belongs id change a b r u, other) (rows_of-update id change a b rows u)
  ]

  -- Rows with other ids stay.
  pub update-absent :
      (id : String) (change : StoredResponse N → StoredResponse N) (rows : List (StoredResponse N))
      → All (λ (s : StoredResponse N). s.id ≢ id) rows
      → map (at_id id change) rows ≡ rows
  update-absent id change [] h = refl
  update-absent id change (r ∷ rows) (n, h) =
      rw (update-absent id change rows h) (ground (arith, str_eq_iff r.id id))

  pub keyed_same :
      (r s : StoredResponse N) (rows : List (StoredResponse N))
      → IsKeyed rows
      → In r rows
      → In s rows
      → s.id ≡ r.id
      → s ≡ r
  keyed_same r s [] k i j e = absurd i
  keyed_same r s (x ∷ rows) (n, k) (inl p) (inl q) e = sym q ∙ p
  keyed_same r s (x ∷ rows) (n, k) (inl p) (inr j) e =
      absurd
        (In-of_All (λ (t : StoredResponse N). t.id ≢ x.id) s rows j n (e ∙ ap (λ t. t.id) (sym p)))
  keyed_same r s (x ∷ rows) (n, k) (inr i) (inl q) e = absurd (
      In-of_All (λ (t : StoredResponse N). t.id ≢ x.id) r rows i n (sym e ∙ ap (λ t. t.id) (sym q)))
  keyed_same r s (x ∷ rows) (n, k) (inr i) (inr j) e = keyed_same r s rows k i j e
