-- ===== src/Eval/Laws.antt =====
-- Laws of the condition evaluator: which operators are complements, what an unanswered question
-- satisfies, and when a response qualifies.
use form_respondent_role.Prelude.{
  String, Bool, true, false, not, ◌&&◌, List, [], ◌∷◌, Option, none, some, ◌≡◌, ◌≢◌, ◌↔◌, ◌⊎◌, refl,
  sym, any_congr, any-false, map_or, inl, inr, arith, all, any, All, Bool-cases, str_eq, str_eq_iff,
  if◌then◌else◌,
}
use form_respondent_role.Text.{is_empty}
use form_respondent_role.Json.{Value, null, str, Host, is_null, as_str}
use form_respondent_role.Models.Condition.{
  ConditionOperator, eq, neq, one_of, contains_any, not_contains, gte, lte, between, Condition,
}
use form_respondent_role.Eval.{
  ResponseEvalData, unanswered_ok, str_items, sole, listed, string_value, selections, numeric_value,
  compare_numbers, numeric_test, actual_value, operator_test, evaluate_single, evaluate,
}

module _ (h : Host) where
  open h use {Number}

  all_iff :
      (d : ResponseEvalData Number) (cs : List (Condition Number))
      → (all (λ c. evaluate_single h c d) cs ≡ true) ↔ All (λ c. evaluate_single h c d ≡ true) cs
  all_iff d [] = (λ _. tt, λ _. refl)
  all_iff d (c ∷ cs) = ground (arith, all_iff d cs)

  -- A response qualifies exactly when the link grants on any submission, or there is a condition
  -- and every condition holds: with no condition and no grant, nobody qualifies.
  pub evaluate_iff :
      (grant : Bool) (cs : List (Condition Number)) (d : ResponseEvalData Number)
      → (evaluate h grant cs d ≡ true)
        ↔ ((grant ≡ true) ⊎ ((cs ≢ []) × All (λ c. evaluate_single h c d ≡ true) cs))
  unfolding evaluate
  evaluate_iff true cs d = ground arith
  evaluate_iff false [] d = ground arith
  evaluate_iff false (c ∷ cs) d =
      let (to, from) = all_iff d (c ∷ cs) in
      (λ t. inr (λ e. cc, to t), elim [ inl e ↦ cc | inr (_, holds) ↦ from holds ])

  eq_null : (v : Value Number) → is_null v ≡ true → v ≡ null
  eq_null null _ = refl
  eq_null _ e = cc

  unlisted_null : (needs : List String) → any (listed (selections h null)) needs ≡ false
  unfolding selections
  unlisted_null [] = refl
  unlisted_null (need ∷ needs) = unlisted_null needs

  unlisted_null_list :
      (needs : Option (List String))
      → map_or true (λ ns. not (any (listed (selections h null)) ns)) needs ≡ true
  unlisted_null_list none = refl
  unlisted_null_list (some needs) = ground (arith, unlisted_null needs)

  text_iff :
      (v : Value Number)
      → (not (is_empty (map_or "" (λ s. s) (as_str v))) ≡ true)
        ↔ ((s : String) × (v ≡ str s) × (is_empty s ≡ false))
  text_iff (str s) = (λ t. (s, refl, ground arith), λ w. ground arith)
  text_iff _ = ground arith

  null_test_iff :
      (op : ConditionOperator) (c : Condition Number)
      → ((if is_null {N = Number} null && not (unanswered_ok op)
            then false
            else operator_test h op c null)
          ≡ true)
        ↔ (((op ≡ neq) × ((s : String) × (c.value ≡ str s) × (is_empty s ≡ false)))
            ⊎ (op ≡ not_contains))
  unfolding operator_test
  null_test_iff neq c =
      let (to, from) = text_iff c.value in
      (λ t. inl (refl, to t), elim [ inl (_, w) ↦ from w | inr e ↦ cc ])
  null_test_iff not_contains c = (λ _. inr refl, λ _. unlisted_null_list (str_items c.value))
  null_test_iff _ c = ground arith

  str_eq_comm : (s t : String) → str_eq s t ≡ str_eq t s
  str_eq_comm s t = ground (arith, str_eq_iff s t, str_eq_iff t s)

  -- `in` over texts is `eq` to one of them.
  one_of_test :
      (chosen needs : List String)
      → sole (λ only. any (λ s. str_eq s only) needs) chosen
        ≡ any (λ s. sole (λ only. str_eq only s) chosen) needs
  one_of_test [] needs = sym (any-false needs)
  one_of_test (only ∷ []) needs = any_congr _ _ needs (λ s. str_eq_comm s only)
  one_of_test (x ∷ y ∷ rest) needs = sym (any-false needs)

  module _ (c : Condition Number) (d : ResponseEvalData Number) where
    -- The same condition with another operator.
    abbrev pub with_operator : ConditionOperator → Condition Number
    with_operator op = record c { operator = op }

    abbrev pub IsAnswered : Type 0
    IsAnswered = is_null (actual_value h c.target d) ≡ false

    -- On an answered question, `neq` is the negation of `eq` where the expected value has a text
    -- form, and both are false where it has none.
    neq_complements_eq :
        IsAnswered
        → ((string_value h c.value ≢ none)
            × (evaluate_single h (with_operator neq) d
                ≡ not (evaluate_single h (with_operator eq) d)))
          ⊎ ((string_value h c.value ≡ none)
              × (evaluate_single h (with_operator neq) d ≡ false)
              × (evaluate_single h (with_operator eq) d ≡ false))
    unfolding evaluate_single operator_test
    neq_complements_eq answered = ground arith

    -- On an unanswered question only `neq`, against a text that is not empty, and `not_contains`
    -- hold.
    pub unanswered_iff :
        is_null (actual_value h c.target d) ≡ true
        → (evaluate_single h c d ≡ true) ↔ (
            ((c.operator ≡ neq) × ((s : String) × (c.value ≡ str s) × (is_empty s ≡ false)))
            ⊎ (c.operator ≡ not_contains))
    unfolding evaluate_single
    unanswered_iff missing = rw (eq_null _ missing) (null_test_iff c.operator c)

    -- Against a list, `not_contains` is the negation of `contains_any`, answered or not.
    not_contains_complements_contains_any :
        (needs : List String)
        → str_items c.value ≡ some needs
        → evaluate_single h (with_operator not_contains) d
          ≡ not (evaluate_single h (with_operator contains_any) d)
    unfolding evaluate_single operator_test
    not_contains_complements_contains_any needs e =
        ground (arith, unlisted_null needs, eq_null (actual_value h c.target d))

    -- Against a list, `in` is `eq` to some text of the list.
    one_of-eq-any_eq :
        (needs : List String)
        → str_items c.value ≡ some needs
        → evaluate_single h (with_operator one_of) d
          ≡ any (λ s. evaluate_single h (record c { operator = eq; value = str s }) d) needs
    unfolding evaluate_single operator_test
    one_of-eq-any_eq needs e = elim (Bool-cases (is_null (actual_value h c.target d))) [
      | inl missing ↦ rw missing (sym (any-false needs))
      | inr answered ↦
          rw (answered, e) (one_of_test (selections h (actual_value h c.target d)) needs)
    ]

    -- `between` is `gte` the value and `lte` the end, where the end is a number.
    between-eq-gte_lte :
        (end : Value Number)
        → c.value_end ≡ some end
        → numeric_value h end ≢ none
        → evaluate_single h (with_operator between) d ≡ (
            evaluate_single h (with_operator gte) d
            && evaluate_single h (record c { operator = lte; value = end }) d)
    unfolding evaluate_single operator_test numeric_test compare_numbers
    between-eq-gte_lte end e numeric = ground arith
