-- ===== src/RoleConfig/Shapes.antt =====
-- The shapes of stored values: what `normalize_condition_value` and the end of a range give.
use form_respondent_role.Prelude.{
  refl, ◌⊎◌, String, true, false, not, List, [], ◌∷◌, map, Option, none, some, ok, Result-cases,
  ◌≡◌, ◌≢◌, inl, inr, arith, All, is_nil, map_or, Bool-cases, Option-cases, keep-All,
}
use form_respondent_role.Prelude.Int.{ℤ}
use form_respondent_role.Text.{is_empty, trim, split}
use form_respondent_role.Text.Laws.{trim_idem}
use form_respondent_role.Json.{Value, null, number, str, arr, Host, of_items, as_str, items}
use form_respondent_role.Models.Condition.{
  ConditionOperator, one_of, contains_all, contains_any, not_contains, gt, gte, lt, lte, between,
  before, after,
}
use form_respondent_role.RoleConfig.{
  is_entry, split_list, as_list, numeric, listing, dated, plain, normalize_condition_value,
  normalize_end, as_integer,
}

module _ (h : Host) where
  open h use {Number}

  -- The shape of a stored value, by the operator.
  abbrev pub IsNumeric : Value Number → Type 0
  IsNumeric v = (i : ℤ) × (v ≡ number (h.of_i64 i))

  abbrev pub IsListing : Value Number → Type 0
  IsListing v =
      (xs : List (Value Number)) × (v ≡ arr (of_items xs))
      × (xs ≢ [])
      × All (λ x. is_entry x ≡ true) xs

  abbrev pub IsDated : Value Number → Type 0
  IsDated v = (s : String) × (v ≡ str s) × (is_empty s ≡ false) × (trim s ≡ s)

  -- Any other value: a text, which is not blank or was a number, or a value of another shape.
  abbrev pub IsPlain : Value Number → Type 0
  IsPlain (str s) = (is_empty (trim s) ≡ false) ⊎ ((n : Number) × (s ≡ h.number_text n))
  IsPlain (number n) = ⊥
  IsPlain null = ⊥
  IsPlain v = Unit

  abbrev pub HasShape : ConditionOperator → Value Number → Type 0
  HasShape gt v = IsNumeric v
  HasShape gte v = IsNumeric v
  HasShape lt v = IsNumeric v
  HasShape lte v = IsNumeric v
  HasShape between v = IsNumeric v
  HasShape one_of v = IsListing v
  HasShape contains_all v = IsListing v
  HasShape contains_any v = IsListing v
  HasShape not_contains v = IsListing v
  HasShape before v = IsDated v
  HasShape after v = IsDated v
  HasShape _ v = IsPlain v

  numeric-IsNumeric : (raw v : Value Number) → numeric h raw ≡ ok v → IsNumeric v
  unfolding numeric
  numeric-IsNumeric raw v e = elim (Option-cases (as_integer h raw)) [
    | inl missing ↦ absurd (ground arith)
    | inr (i, found) ↦ (i, ground arith)
  ]

  str-entries :
      (ps : List String)
      → All (λ p. not (is_empty p) ≡ true) ps
      → All (λ (x : Value Number). is_entry x ≡ true) (map str ps)
  str-entries [] _ = tt
  str-entries (p ∷ ps) (q, qs) = (q, str-entries ps qs)

  split_list-present : (s : String) → All (λ p. not (is_empty p) ≡ true) (split_list s)
  unfolding split_list
  split_list-present s = keep-All (λ p. not (is_empty p)) (map trim (split b',' s))

  as_list-entries : (raw : Value Number) → All (λ x. is_entry x ≡ true) (as_list h raw)
  as_list-entries (arr vs) = keep-All is_entry (items vs)
  as_list-entries (str s) = str-entries (split_list s) (split_list-present s)
  as_list-entries _ = ground arith

  listing-IsListing : (raw v : Value Number) → listing h raw ≡ ok v → IsListing v
  unfolding listing
  listing-IsListing raw v e = elim (Bool-cases (is_nil (as_list h raw))) [
    | inl empty ↦ absurd (ground arith)
    | inr full ↦ (as_list h raw, ground arith, ground arith, as_list-entries raw)
  ]

  dated-IsDated : (raw v : Value Number) → dated h raw ≡ ok v → IsDated v
  unfolding dated
  dated-IsDated raw v e =
      let s = map_or "" (λ t. t) (as_str raw) in
      elim (Bool-cases (is_empty (trim s))) [
        | inl blank ↦ absurd (ground arith)
        | inr present ↦ (trim s, ground arith, present, trim_idem s)
      ]

  plain-IsPlain : (raw v : Value Number) → plain h raw ≡ ok v → IsPlain v
  unfolding plain
  plain-IsPlain (str s) v e = elim (Bool-cases (is_empty (trim s))) [
    | inl blank ↦ absurd (ground arith)
    | inr present ↦ let same : str s ≡ v = ground arith in rw (← same) (inl present)
  ]
  plain-IsPlain (number n) v e =
      let same : str (h.number_text n) ≡ v = ground arith in rw (← same) (inr (n, refl))
  plain-IsPlain null v e = cc
  plain-IsPlain raw v e = let same : raw ≡ v = ground arith in rw (← same) tt

  pub normalize-HasShape :
      (op : ConditionOperator) (raw v : Value Number)
      → normalize_condition_value h op raw ≡ ok v
      → HasShape op v
  unfolding normalize_condition_value
  normalize-HasShape gt raw v e = numeric-IsNumeric raw v e
  normalize-HasShape gte raw v e = numeric-IsNumeric raw v e
  normalize-HasShape lt raw v e = numeric-IsNumeric raw v e
  normalize-HasShape lte raw v e = numeric-IsNumeric raw v e
  normalize-HasShape between raw v e = numeric-IsNumeric raw v e
  normalize-HasShape one_of raw v e = listing-IsListing raw v e
  normalize-HasShape contains_all raw v e = listing-IsListing raw v e
  normalize-HasShape contains_any raw v e = listing-IsListing raw v e
  normalize-HasShape not_contains raw v e = listing-IsListing raw v e
  normalize-HasShape before raw v e = dated-IsDated raw v e
  normalize-HasShape after raw v e = dated-IsDated raw v e
  normalize-HasShape _ raw v e = plain-IsPlain raw v e

  -- The end of a range is stored for `between` alone, and is then a number.
  abbrev pub HasEnd : ConditionOperator → Option (Value Number) → Type 0
  HasEnd between v = (end : Value Number) × (v ≡ some end) × IsNumeric end
  HasEnd _ v = v ≡ none

  pub normalize_end-HasEnd :
      (op : ConditionOperator) (raw v : Option (Value Number))
      → normalize_end h op raw ≡ ok v
      → HasEnd op v
  unfolding normalize_end
  normalize_end-HasEnd between (some end) v e =
      elim (Result-cases (normalize_condition_value h between end)) [
        | inl (n, found) ↦ (n, ground arith, normalize-HasShape between end n found)
        | inr (x, bad) ↦ absurd (ground arith)
      ]
  normalize_end-HasEnd between none v e = cc
  normalize_end-HasEnd _ raw v e = ground arith
