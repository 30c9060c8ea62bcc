-- ===== src/Validator/Sanity/Unique.antt =====
-- What `sanity_check` establishes for a form, the distinct ids above all.
use form_respondent_role.Prelude.{
  ℕ, suc, ◌≤◌, String, Bool, true, false, ◌&&◌, List, [], ◌∷◌, ◌++◌, Result, ok, err, if◌then◌else◌,
  ◌≡◌, refl, arith, inl, inr, In, is_nil, length, keep, keep_iff, flat_map, str_eq_iff, Bool-cases,
}
use form_respondent_role.Text.{is_empty, trim}
use form_respondent_role.Json.{Host}
use form_respondent_role.Models.Form.{Question, Page, FormSchema, iter_questions, is_answerable}
use form_respondent_role.Validator.Answers.Submission.{HasUniqueIds}
use form_respondent_role.Validator.Sanity.{
  SanityError, listed_id, see, check_question, check_questions, check_pages, total_qs, sanity_check,
  max_pages, max_questions,
}

nil-append :
    (xs ys : List SanityError) → is_nil (xs ++ ys) ≡ true → (is_nil xs ≡ true) × (is_nil ys ≡ true)
nil-append [] ys e = (refl, e)
nil-append (x ∷ xs) ys e = absurd (ground arith)

is_nil-append : (xs ys : List SanityError) → is_nil (xs ++ ys) ≡ (is_nil xs && is_nil ys)
is_nil-append [] ys = refl
is_nil-append (x ∷ xs) ys = refl

abbrev outcome : List SanityError → Result (Unit {0}) (List SanityError)
outcome errors = if is_nil errors then ok tt else err errors

ok-nil : (errors : List SanityError) → outcome errors ≡ ok tt → is_nil errors ≡ true
ok-nil errors e = ground arith

page_present : {A : Type 0} (xs : List A) → is_nil xs ≡ false → 1 ≤ length xs
page_present [] e = absurd (ground arith)
page_present (x ∷ xs) e = ground arith

module _ (h : Host) where
  -- No id of the list is blank, stands among those seen, or occurs twice.
  abbrev IsFresh : List String → List (Question h) → Type 0
  IsFresh seen [] = Unit
  IsFresh seen (q ∷ qs) =
      (is_empty (trim q.id) ≡ false) × (listed_id seen q.id ≡ false) × IsFresh (q.id ∷ seen) qs

  abbrev seen_after : List String → List (Question h) → List String
  seen_after seen [] = seen
  seen_after seen (q ∷ qs) = seen_after (q.id ∷ seen) qs

  IsFresh-append :
      (seen : List String) (xs ys : List (Question h))
      → IsFresh seen xs
      → IsFresh (seen_after seen xs) ys
      → IsFresh seen (xs ++ ys)
  IsFresh-append seen [] ys f g = g
  IsFresh-append seen (x ∷ xs) ys (b, n, f) g = (b, n, IsFresh-append (x.id ∷ seen) xs ys f g)

  check_question-new :
      (pi qi : ℕ) (seen : List String) (q : Question h)
      → is_nil (check_question h pi qi seen q) ≡ true
      → (is_empty (trim q.id) ≡ false) × (listed_id seen q.id ≡ false)
  unfolding check_question
  check_question-new pi qi seen q e = let f = simp is_nil-append at e in ground arith

  see-new :
      (seen : List String) (id : String)
      → is_empty (trim id) ≡ false
      → listed_id seen id ≡ false
      → see seen id ≡ id ∷ seen
  see-new seen id b n = ground arith

  check_questions-IsFresh :
      (pi qi : ℕ) (seen : List String) (qs : List (Question h))
      → is_nil (check_questions h pi qi seen qs).1 ≡ true
      → IsFresh seen qs × ((check_questions h pi qi seen qs).0 ≡ seen_after seen qs)
  unfolding check_questions
  check_questions-IsFresh pi qi seen [] e = (tt, refl)
  check_questions-IsFresh pi qi seen (q ∷ qs) e =
      let (first, rest) = nil-append _ _ e in
      let (b, n) = check_question-new pi qi seen q first in
      let new = see-new seen q.id b n in
      let (fresh, after) = check_questions-IsFresh pi (suc qi) (q.id ∷ seen) qs (rw (← new) rest) in
      ((b, n, fresh), rw new after)

  check_pages-IsFresh :
      (pi : ℕ) (pids qids : List String) (ps : List (Page h))
      → is_nil (check_pages h pi pids qids ps) ≡ true
      → IsFresh qids (flat_map (λ (p : Page h). p.questions) ps)
  unfolding check_pages
  check_pages-IsFresh pi pids qids [] e = tt
  check_pages-IsFresh pi pids qids (p ∷ ps) e =
      let (start, rest) = nil-append _ _ e in
      let (_, mid) = nil-append _ _ start in
      let (fresh, after) = check_questions-IsFresh pi 0 qids p.questions mid in
      IsFresh-append qids p.questions _ fresh
        (check_pages-IsFresh (suc pi) (see pids p.id) _ ps (rw (← after) rest))

  IsFresh-unseen :
      (seen : List String) (q : Question h) (qs : List (Question h))
      → IsFresh seen qs
      → In q qs
      → listed_id seen q.id ≡ false
  IsFresh-unseen seen q [] f i = absurd i
  IsFresh-unseen seen q (p ∷ qs) (b, n, f) (inl e) = rw (← e) n
  IsFresh-unseen seen q (p ∷ qs) (b, n, f) (inr i) =
      ground (arith, IsFresh-unseen (p.id ∷ seen) q qs f i)

  IsFresh-HasUniqueIds :
      (seen : List String) (qs : List (Question h)) → IsFresh seen qs → HasUniqueIds h qs
  IsFresh-HasUniqueIds seen [] f = tt
  IsFresh-HasUniqueIds seen (q ∷ qs) (b, n, f) = (
    λ p i same. ground (arith, IsFresh-unseen (q.id ∷ seen) p qs f i, str_eq_iff q.id p.id),
    IsFresh-HasUniqueIds (q.id ∷ seen) qs f,
  )

  keep-HasUniqueIds :
      (t : Question h → Bool) (qs : List (Question h))
      → HasUniqueIds h qs
      → HasUniqueIds h (keep t qs)
  keep-HasUniqueIds t [] u = tt
  keep-HasUniqueIds t (q ∷ qs) (n, u) = elim (Bool-cases (t q)) [
    | inl kept ↦ rw kept ((λ p i. n p ((keep_iff t p qs).0 i).0), keep-HasUniqueIds t qs u)
    | inr left ↦ rw left (keep-HasUniqueIds t qs u)
  ]

  -- What the builder's check promises of a form.
  abbrev pub IsSane : FormSchema h → Type 0
  IsSane form =
      (is_empty (trim form.title) ≡ false)
      × (1 ≤ length form.pages)
      × (length form.pages ≤ max_pages)
      × (total_qs h form.pages ≤ max_questions)
      × HasUniqueIds h (flat_map (λ (p : Page h). p.questions) form.pages)
      × HasUniqueIds h (iter_questions form)

  -- A form that the builder's check accepts has a title, one to ten pages and at most fifty
  -- questions, and all its questions, so also the answerable ones, have distinct ids.
  pub sanity_check-IsSane : (form : FormSchema h) → sanity_check h form ≡ ok tt → IsSane form
  unfolding sanity_check iter_questions
  sanity_check-IsSane form e =
      let errors = simp is_nil-append at (ok-nil _ e) in
      let pages : is_nil (check_pages h 0 [] [] form.pages) ≡ true = ground arith in
      let unique = IsFresh-HasUniqueIds [] _ (check_pages-IsFresh 0 [] [] form.pages pages) in
      (
        ground arith,
        page_present form.pages (ground arith),
        ground arith,
        ground arith,
        unique,
        keep-HasUniqueIds (λ q. is_answerable q.kind) _ unique,
      )
