-- ===== src/Validator/Answers/Shapes.antt =====
-- The shape of an answer that the validation of a question accepts.
use form_respondent_role.Prelude.{
  none, false, String, true, List, [], ◌∷◌, Option, some, ok, is_some, ◌≡◌, ◌⊎◌, ◌≤◌, refl, inl,
  inr, arith, and_then, ltb, Option-cases, Result-cases, Bool-cases,
}
use Prim.Native.String.{count, len}
use form_respondent_role.Text.{trim}
use form_respondent_role.Json.{Value, str, arr, Host, of_items, as_str, as_array}
use form_respondent_role.Models.Form.{
  QuestionKind, QuestionOption, Question, short_text, long_text, single_choice, multi_choice,
  dropdown, scale, date, email, agreement, info, image, video,
}
use form_respondent_role.Validator.Answers.{
  Answer, validate_kind, check_text, check_number, check_single_choice, check_multi_choice,
  check_date, check_email, validate_agreement, require, unless_blank, float_of, choose_all,
  has_option, max_len, looks_like_email, at_least, at_most, canonical,
}

module _ (h : Host) where
  open h use {Number, Float}

  -- A text that stands in the list of the options' ids.
  abbrev pub IsOption : List QuestionOption → Value Number → Type 0
  IsOption options v = (s : String) × (v ≡ str s) × (has_option options s ≡ true)

  abbrev pub AreOptions : List QuestionOption → List (Value Number) → Type 0
  AreOptions options [] = Unit
  AreOptions options (v ∷ vs) = IsOption options v × AreOptions options vs

  -- No limit of the question, as floats compare, is passed; a NaN passes none.
  abbrev pub IsWithin : Question h → Float → Type 0
  IsWithin q n =
      ((q.min ≡ none) ⊎ ((min : Float) × (q.min ≡ some min) × (h.f64_lt n min ≡ false)))
      × ((q.max ≡ none) ⊎ ((max : Float) × (q.max ≡ some max) × (h.f64_lt max n ≡ false)))

  limits-IsWithin :
      (q : Question h) (n : Float) → at_least h q n ≡ ok tt → at_most h q n ≡ ok tt → IsWithin q n
  limits-IsWithin q n low high = (least, most)
    where
      least : (q.min ≡ none) ⊎ ((min : Float) × (q.min ≡ some min) × (h.f64_lt n min ≡ false))
      least = elim (Option-cases q.min) [
        | inl free ↦ inl free
        | inr (min, limit) ↦ inr (min, limit, ground arith)
      ]

      most : (q.max ≡ none) ⊎ ((max : Float) × (q.max ≡ some max) × (h.f64_lt max n ≡ false))
      most = elim (Option-cases q.max) [
        | inl free ↦ inl free
        | inr (max, limit) ↦ inr (max, limit, ground arith)
      ]

  -- What each kind of question stores, as the comment on `VerifiedAnswers` lists it, with the
  -- limits that the question sets.
  abbrev pub HasShape : QuestionKind → Question h → Value Number → Type 0
  HasShape short_text q v = (s : String) × (v ≡ str (trim s)) × (count (trim s) ≤ max_len h q)
  HasShape long_text q v = (s : String) × (v ≡ str (trim s)) × (count (trim s) ≤ max_len h q)
  HasShape QuestionKind.number q v = (n : Float) × (v ≡ str (canonical h n)) × IsWithin q n
  HasShape scale q v = (n : Float) × (v ≡ str (canonical h n)) × IsWithin q n
  HasShape single_choice q v =
      (options : List QuestionOption) × (q.options ≡ some options) × IsOption options v
  HasShape dropdown q v =
      (options : List QuestionOption) × (q.options ≡ some options) × IsOption options v
  HasShape multi_choice q v =
      (options : List QuestionOption) × (vs : List (Value Number)) × (q.options ≡ some options)
      × (v ≡ arr (of_items vs))
      × AreOptions options vs
  HasShape date q v =
      (s : String) × (v ≡ str (trim s))
      × ((is_some (h.parse_date (trim s)) ≡ true) ⊎ (is_some (h.parse_rfc3339 (trim s)) ≡ true))
  HasShape email q v =
      (s : String) × (v ≡ str (trim s)) × (looks_like_email (trim s) ≡ true) × (len (trim s) ≤ 320)
  HasShape agreement q v = v ≡ str "true"
  HasShape _ q v = ⊥

  choose_all-AreOptions :
      (options : List QuestionOption) (vs chosen : List (Value Number))
      → choose_all h options vs ≡ ok chosen
      → AreOptions options chosen
  unfolding choose_all
  choose_all-AreOptions options [] chosen e = ground arith
  choose_all-AreOptions options (v ∷ vs) chosen e = elim (Option-cases (as_str v)) [
    | inl other ↦ absurd (ground arith)
    | inr (s, text) ↦ elim (Bool-cases (has_option options s)) [
      | inr other ↦ absurd (ground arith)
      | inl chosen_one ↦ elim (Result-cases (choose_all h options vs)) [
        | inr (x, f) ↦ absurd (ground arith)
        | inl (rest, f) ↦
            let tail = choose_all-AreOptions options vs rest f in
            let same : chosen ≡ str s ∷ rest = ground arith in rw same ((s, refl, chosen_one), tail)
      ]
    ]
  ]

  check_text-IsText :
      (q : Question h) (raw : Option (Value Number)) (v : Value Number)
      → check_text h q raw ≡ ok (some v)
      → (s : String) × (v ≡ str (trim s)) × (count (trim s) ≤ max_len h q)
  unfolding check_text
  check_text-IsText q raw v e = elim (Option-cases (and_then raw as_str)) [
    | inl other ↦ absurd (ground arith)
    | inr (s, text) ↦ elim (Bool-cases (ltb (max_len h q) (count (trim s)))) [
      | inl long ↦ absurd (ground arith)
      | inr fits ↦ (s, ground arith, ground arith)
    ]
  ]

  check_number-IsNumber :
      (q : Question h) (raw : Option (Value Number)) (v : Value Number)
      → check_number h q raw ≡ ok (some v)
      → (n : Float) × (v ≡ str (canonical h n)) × IsWithin q n
  unfolding check_number
  check_number-IsNumber q raw v e = elim (Option-cases (float_of h raw)) [
    | inl other ↦ absurd (ground arith)
    | inr (n, text) ↦ elim (Result-cases (at_least h q n)) [
      | inr (x, f) ↦ absurd (ground arith)
      | inl (u, f) ↦ elim (Result-cases (at_most h q n)) [
        | inr (x, g) ↦ absurd (ground arith)
        | inl (w, g) ↦ (n, ground arith, limits-IsWithin q n f g)
      ]
    ]
  ]

  check_single_choice-IsOption :
      (q : Question h) (raw : Option (Value Number)) (v : Value Number)
      → check_single_choice h q raw ≡ ok (some v)
      → (options : List QuestionOption) × (q.options ≡ some options) × IsOption options v
  unfolding check_single_choice
  check_single_choice-IsOption q raw v e = elim (Option-cases (and_then raw as_str)) [
    | inl other ↦ absurd (ground arith)
    | inr (s, text) ↦ elim (Option-cases q.options) [
      | inl none' ↦ absurd (ground arith)
      | inr (options, f) ↦ elim (Bool-cases (has_option options s)) [
        | inr other ↦ absurd (ground arith)
        | inl chosen_one ↦ (options, f, (s, ground arith, chosen_one))
      ]
    ]
  ]

  check_multi_choice-AreOptions :
      (q : Question h) (raw : Option (Value Number)) (v : Value Number)
      → check_multi_choice h q raw ≡ ok (some v)
      → (options : List QuestionOption) × (vs : List (Value Number)) × (q.options ≡ some options)
        × (v ≡ arr (of_items vs))
        × AreOptions options vs
  unfolding check_multi_choice
  check_multi_choice-AreOptions q raw v e = elim (Option-cases (and_then raw as_array)) [
    | inl other ↦ absurd (ground arith)
    | inr (vs, text) ↦ elim (Option-cases q.options) [
      | inl none' ↦ absurd (ground arith)
      | inr (options, f) ↦ elim (Result-cases (choose_all h options vs)) [
        | inr (x, g) ↦ absurd (ground arith)
        | inl (chosen, g) ↦
            (options, chosen, f, ground arith, choose_all-AreOptions options vs chosen g)
      ]
    ]
  ]

  check_date-IsDate :
      (q : Question h) (raw : Option (Value Number)) (v : Value Number)
      → check_date h q raw ≡ ok (some v)
      → (s : String) × (v ≡ str (trim s))
        × ((is_some (h.parse_date (trim s)) ≡ true) ⊎ (is_some (h.parse_rfc3339 (trim s)) ≡ true))
  unfolding check_date
  check_date-IsDate q raw v e = elim (Option-cases (and_then raw as_str)) [
    | inl other ↦ absurd (ground arith)
    | inr (s, text) ↦ elim (Bool-cases (is_some (h.parse_date (trim s)))) [
      | inl day ↦ (s, ground arith, inl day)
      | inr other ↦ elim (Bool-cases (is_some (h.parse_rfc3339 (trim s)))) [
        | inl time ↦ (s, ground arith, inr time)
        | inr bad ↦ absurd (ground arith)
      ]
    ]
  ]

  check_email-IsEmail :
      (q : Question h) (raw : Option (Value Number)) (v : Value Number)
      → check_email h q raw ≡ ok (some v)
      → (s : String) × (v ≡ str (trim s))
        × (looks_like_email (trim s) ≡ true)
        × (len (trim s) ≤ 320)
  unfolding check_email
  check_email-IsEmail q raw v e = elim (Option-cases (and_then raw as_str)) [
    | inl other ↦ absurd (ground arith)
    | inr (s, text) ↦ elim (Bool-cases (looks_like_email (trim s))) [
      | inr bad ↦ absurd (ground arith)
      | inl good ↦ elim (Bool-cases (ltb 320 (len (trim s)))) [
        | inl long ↦ absurd (ground arith)
        | inr fits ↦ (s, ground arith, good, ground arith)
      ]
    ]
  ]

  validate_agreement-IsTrue :
      (q : Question h) (raw : Option (Value Number)) (v : Value Number)
      → validate_agreement h q raw ≡ ok (some v)
      → v ≡ str "true"
  unfolding validate_agreement
  validate_agreement-IsTrue q raw v e = ground arith

  -- A blank answer gives no value.
  unless_blank-answer :
      (q : Question h) (raw : Option (Value Number)) (a : Answer h) (v : Value Number)
      → unless_blank h q raw a ≡ ok (some v)
      → a ≡ ok (some v)
  unfolding require
  unless_blank-answer q raw a v e = ground arith

  -- A value that the validation of a question accepts for storage has the shape of the question's
  -- kind: trimmed text within the limit, the canonical text of a float that compares as neither
  -- below the minimum nor above the maximum, ids
  -- of the question's options, a date, an address, or "true".
  pub validate_kind-HasShape :
      (k : QuestionKind) (q : Question h) (raw : Option (Value Number)) (v : Value Number)
      → validate_kind h k q raw ≡ ok (some v)
      → HasShape k q v
  unfolding validate_kind
  validate_kind-HasShape short_text q raw v e =
      check_text-IsText q raw v (unless_blank-answer q raw _ v e)
  validate_kind-HasShape long_text q raw v e =
      check_text-IsText q raw v (unless_blank-answer q raw _ v e)
  validate_kind-HasShape QuestionKind.number q raw v e =
      check_number-IsNumber q raw v (unless_blank-answer q raw _ v e)
  validate_kind-HasShape scale q raw v e =
      check_number-IsNumber q raw v (unless_blank-answer q raw _ v e)
  validate_kind-HasShape single_choice q raw v e =
      check_single_choice-IsOption q raw v (unless_blank-answer q raw _ v e)
  validate_kind-HasShape dropdown q raw v e =
      check_single_choice-IsOption q raw v (unless_blank-answer q raw _ v e)
  validate_kind-HasShape multi_choice q raw v e =
      check_multi_choice-AreOptions q raw v (unless_blank-answer q raw _ v e)
  validate_kind-HasShape date q raw v e =
      check_date-IsDate q raw v (unless_blank-answer q raw _ v e)
  validate_kind-HasShape email q raw v e =
      check_email-IsEmail q raw v (unless_blank-answer q raw _ v e)
  validate_kind-HasShape agreement q raw v e = validate_agreement-IsTrue q raw v e
  validate_kind-HasShape info q raw v e = cc
  validate_kind-HasShape image q raw v e = cc
  validate_kind-HasShape video q raw v e = cc
