-- ===== src/Sync/Qualifying.antt =====
-- The list that the bulk synchronisation uploads: who is on it, and in what order.
use form_respondent_role.Prelude.{
  ℕ, String, Bool, true, false, List, [], ◌∷◌, Option, none, some, ◌≡◌, ◌↔◌, ◌⊎◌, refl, inl, inr,
  arith, str_eq_iff, In, keep_iff,
}
use form_respondent_role.Text.{is_empty}
use form_respondent_role.Text.Order.{member, IsSorted}
use form_respondent_role.Text.Order.Laws.{
  In-insert_iff, insert-IsSorted, member_iff, sorted_ext, take-IsSorted,
}
use form_respondent_role.Json.{Host}
use form_respondent_role.Models.Condition.{Condition}
use form_respondent_role.Eval.{evaluate}
use form_respondent_role.Sync.{
  FormResponse, response_data, candidates, collect_row, collect, query_qualifying,
}

module _ (h : Host) (grant : Bool) (conditions : List (Condition h.Number)) where
  open h use {Number}

  abbrev pub Passes : FormResponse Number → Type 0
  Passes r = evaluate h grant conditions (response_data r) ≡ true

  In-collect_row_iff :
      (a : String) (r : FormResponse Number) (q : List String)
      → In a (collect_row h grant conditions r q) ↔ (In a q ⊎ ((r.discord_id ≡ a) × Passes r))
  unfolding collect_row
  In-collect_row_iff a r q =
      ground (arith, member_iff r.discord_id q, In-insert_iff r.discord_id a q)

  In-collect_iff :
      (a : String) (rows : List (FormResponse Number)) (q : List String)
      → In a (collect h grant conditions rows q)
        ↔ (In a q ⊎ ((r : FormResponse Number) × In r rows × (r.discord_id ≡ a) × Passes r))
  unfolding collect
  In-collect_iff a [] q = (λ i. inl i, elim [ inl i ↦ i | inr (r, i, _, _) ↦ absurd i ])
  In-collect_iff a (row ∷ rows) q =
      let (to, from) = In-collect_iff a rows (collect_row h grant conditions row q) in
      let (to_row, from_row) = In-collect_row_iff a row q in
      (
        λ i. elim (to i) [
          | inl j ↦ elim (to_row j) [ inl k ↦ inl k | inr (e, p) ↦ inr (row, inl refl, e, p) ]
          | inr (r, j, e, p) ↦ inr (r, inr j, e, p)
        ],
        elim [
          | inl i ↦ from (inl (from_row (inl i)))
          | inr (r, inl s, e, p) ↦ from (inl (from_row (inr (rw s (e, p)))))
          | inr (r, inr j, e, p) ↦ from (inr (r, j, e, p))
        ],
      )

  collect-IsSorted :
      (rows : List (FormResponse Number)) (q : List String)
      → IsSorted q
      → IsSorted (collect h grant conditions rows q)
  unfolding collect collect_row
  collect-IsSorted [] q sorted = sorted
  collect-IsSorted (r ∷ rows) q sorted =
      collect-IsSorted rows (collect_row h grant conditions r q)
        (ground (arith, insert-IsSorted r.discord_id q))

  module _ (responses : List (FormResponse Number)) (form_id : String)
      (optout_ids : List String) where
    -- Somebody with a response to the form that passes.
    abbrev pub HasPassed : String → Type 0
    HasPassed id =
        (r : FormResponse Number) × In r responses
        × (r.form_id ≡ form_id)
        × (r.discord_id ≡ id)
        × Passes r

    In-candidates_iff :
        (r : FormResponse Number)
        → In r (candidates h form_id optout_ids responses) ↔ (
            In r responses
            × (r.form_id ≡ form_id)
            × (is_empty r.discord_id ≡ false)
            × (member r.discord_id optout_ids ≡ false))
    unfolding candidates
    In-candidates_iff r =
        let (to, from) = keep_iff _ r responses in
        (
          λ i.
              let (j, t) = to i in
              (j, ground (arith, str_eq_iff r.form_id form_id), ground arith, ground arith),
          λ w. from (w.0, ground (arith, str_eq_iff r.form_id form_id)),
        )

    -- A member is on the full list exactly when the id is not blank, is not opted out, and some
    -- response of theirs to the form passes.
    pub In-query_qualifying_iff :
        (id : String)
        → In id (query_qualifying h responses form_id optout_ids grant conditions none)
          ↔ ((is_empty id ≡ false) × (member id optout_ids ≡ false) × HasPassed id)
    unfolding query_qualifying
    In-query_qualifying_iff id =
        let rows = candidates h form_id optout_ids responses in
        let (to, from) = In-collect_iff id rows [] in
        (
          λ i. elim (to i) [
            | inl none' ↦ absurd none'
            | inr (r, j, e, p) ↦
                let (k, f, blank, out) = (In-candidates_iff r).0 j in
                (rw (← e) blank, rw (← e) out, (r, k, f, e, p))
          ],
          λ w.
              let (r, k, f, e, p) = w.2 in
              from (inr (r, (In-candidates_iff r).1 (k, f, rw e w.0, rw e w.1), e, p)),
        )

    -- The list is strictly sorted, capped or not.
    pub query_qualifying-IsSorted :
        (limit : Option ℕ)
        → IsSorted (query_qualifying h responses form_id optout_ids grant conditions limit)
    unfolding query_qualifying
    query_qualifying-IsSorted none =
        collect-IsSorted (candidates h form_id optout_ids responses) [] tt
    query_qualifying-IsSorted (some n) =
        take-IsSorted n _ (collect-IsSorted (candidates h form_id optout_ids responses) [] tt)

  -- The full list is fixed by the set of the responses: neither their order nor a row that is
  -- read twice changes it.
  pub query_qualifying_order :
      (rows rows' : List (FormResponse Number)) (form_id : String) (optout_ids : List String)
      → ((r : FormResponse Number) → In r rows ↔ In r rows')
      → query_qualifying h rows form_id optout_ids grant conditions none
        ≡ query_qualifying h rows' form_id optout_ids grant conditions none
  query_qualifying_order rows rows' form_id optout_ids same =
      sorted_ext _ _ (query_qualifying-IsSorted rows form_id optout_ids none)
        (query_qualifying-IsSorted rows' form_id optout_ids none)
        λ id.
          let (to, from) = In-query_qualifying_iff rows form_id optout_ids id in
          let (to', from') = In-query_qualifying_iff rows' form_id optout_ids id in
          (
            λ i.
                let (b, o, w) = to i in
                let (r, j, f, e, p) = w in from' (b, o, (r, (same r).0 j, f, e, p)),
            λ i.
                let (b, o, w) = to' i in
                let (r, j, f, e, p) = w in from (b, o, (r, (same r).1 j, f, e, p)),
          )
