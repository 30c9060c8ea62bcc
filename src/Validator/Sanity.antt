-- ===== src/Validator/Sanity.antt =====
-- services/form_validator.rs: `sanity_check` on the schema that the builder saves.
-- A message of the source is a constructor here, with what the message names.
pub mod Unique
use Prim.Native.String.{count}
use form_respondent_role.Prelude.{
  ℕ, suc, ◌+◌, String, Bool, true, false, not, ◌&&◌, ◌||◌, List, [], ◌∷◌, ◌++◌, Option, none, some,
  Result, ok, err, map_or, is_nil, any, ltb, length, str_eq, if◌then◌else◌,
}
use form_respondent_role.Text.{is_empty, trim, starts_with_lower}
use form_respondent_role.Json.{Host}
use form_respondent_role.Models.Form.{
  QuestionKind, QuestionOption, Question, Page, FormSchema, single_choice, multi_choice, dropdown,
  scale, agreement, info, image, video,
}

abbrev pub max_questions : ℕ
max_questions = 50

abbrev pub max_pages : ℕ
max_pages = 10

abbrev pub max_options_per_question : ℕ
max_options_per_question = 50

-- The places and the ids that the messages name.
pub data SanityError : Type 0 where
  title_missing title_long description_long no_page many_pages : SanityError
  page_no_id : ℕ → SanityError
  page_duplicate : ℕ → String → SanityError
  question_no_id : ℕ → ℕ → SanityError
  question_duplicate no_title no_option many_options option_no_id : String → SanityError
  option_duplicate label_long : String → String → SanityError
  min_above_max not_required no_url bad_url long_url long_alt : String → SanityError
  many_questions : ℕ → SanityError

abbrev pub listed_id : List String → String → Bool
listed_id seen id = any (λ s. str_eq s id) seen

abbrev pub note_if : Bool → SanityError → List SanityError
note_if true e = e ∷ []
note_if false e = []

unfoldable pub is_safe_image_url : String → Bool
is_safe_image_url url =
    let u = trim url in
    if starts_with_lower u "javascript:"
      || starts_with_lower u "data:"
      || (starts_with_lower u "vbscript:" || starts_with_lower u "file:")
    then false
    else starts_with_lower u "http://" || starts_with_lower u "https://"

-- The ids seen so far, after an id that is present and new.
abbrev pub see : List String → String → List String
see seen id = if is_empty (trim id) || listed_id seen id then seen else id ∷ seen

abbrev pub is_display : QuestionKind → Bool
is_display info = true
is_display image = true
is_display video = true
is_display _ = false

-- The loop over the options, on the ids seen so far.
unfoldable pub check_options : String → List String → List QuestionOption → List SanityError
check_options q_id seen [] = []
check_options q_id seen (o ∷ os) =
    (if is_empty (trim o.id)
      then option_no_id q_id ∷ []
      else note_if (listed_id seen o.id) (option_duplicate q_id o.id))
    ++ note_if (ltb 200 (count o.label)) (label_long q_id o.id)
    ++ check_options q_id (see seen o.id) os

abbrev check_choice : String → List QuestionOption → List SanityError
unfolding check_options
check_choice q_id options =
    note_if (is_nil options) (no_option q_id)
    ++ note_if (ltb max_options_per_question (length options)) (many_options q_id)
    ++ check_options q_id [] options

-- `q.image_url.as_deref().unwrap_or("").trim()`, and the tests of it.
abbrev check_url : String → Option String → List SanityError
unfolding is_safe_image_url
check_url q_id image_url =
    let url = trim (map_or "" (λ u. u) image_url) in
    if is_empty url
    then no_url q_id ∷ []
    else if not (is_safe_image_url url)
    then bad_url q_id ∷ []
    else note_if (ltb 2048 (count url)) (long_url q_id)

module _ (h : Host) where
  abbrev check_bounds : Question h → List SanityError
  check_bounds q =
      map_or [] (λ low. map_or [] (λ high. note_if (h.f64_lt high low) (min_above_max q.id)) q.max)
        q.min

  -- What `check_question_kind` adds, by the kind.
  unfoldable pub check_kind : QuestionKind → Question h → List SanityError
  unfolding is_safe_image_url check_options
  check_kind single_choice q = check_choice q.id (map_or [] (λ os. os) q.options)
  check_kind multi_choice q = check_choice q.id (map_or [] (λ os. os) q.options)
  check_kind dropdown q = check_choice q.id (map_or [] (λ os. os) q.options)
  check_kind scale q = check_bounds q
  check_kind QuestionKind.number q = check_bounds q
  check_kind agreement q = note_if (not q.required) (not_required q.id)
  check_kind image q =
      check_url q.id q.image_url
      ++ map_or [] (λ alt. note_if (ltb 200 (count alt)) (long_alt q.id)) q.alt_text
  check_kind video q = check_url q.id q.image_url
  check_kind _ q = []

  -- The body of the loop over the questions, on the ids seen so far.
  unfoldable pub check_question : ℕ → ℕ → List String → Question h → List SanityError
  unfolding check_kind
  check_question pi qi seen q =
      (if is_empty (trim q.id)
        then question_no_id (suc qi) (suc pi) ∷ []
        else note_if (listed_id seen q.id) (question_duplicate q.id))
      ++ note_if (is_empty (trim q.title) && not (is_display q.kind)) (no_title q.id)
      ++ check_kind q.kind q

  -- The two loops give the ids seen and the messages.
  unfoldable pub check_questions :
      ℕ → ℕ → List String → List (Question h) → List String × List SanityError
  unfolding check_question
  check_questions pi qi seen [] = (seen, [])
  check_questions pi qi seen (q ∷ qs) =
      let (later, errors) = check_questions pi (suc qi) (see seen q.id) qs in
      (later, check_question pi qi seen q ++ errors)

  abbrev check_page_id : ℕ → List String → Page h → List SanityError
  check_page_id pi seen p =
      if is_empty (trim p.id)
      then page_no_id (suc pi) ∷ []
      else note_if (listed_id seen p.id) (page_duplicate (suc pi) p.id)

  unfoldable pub check_pages : ℕ → List String → List String → List (Page h) → List SanityError
  unfolding check_questions
  check_pages pi seen_pids seen_qids [] = []
  check_pages pi seen_pids seen_qids (p ∷ ps) =
      let (later, errors) = check_questions pi 0 seen_qids p.questions in
      check_page_id pi seen_pids p ++ errors ++ check_pages (suc pi) (see seen_pids p.id) later ps

  abbrev pub total_qs : List (Page h) → ℕ
  total_qs [] = 0
  total_qs (p ∷ ps) = length p.questions + total_qs ps

  unfoldable pub sanity_check : FormSchema h → Result (Unit {0}) (List SanityError)
  unfolding check_pages
  sanity_check form =
      let errors =
        note_if (is_empty (trim form.title)) title_missing
        ++ note_if (ltb 200 (count form.title)) title_long
        ++ note_if (ltb 2000 (count form.description)) description_long
        ++ note_if (is_nil form.pages) no_page
        ++ note_if (ltb max_pages (length form.pages)) many_pages
        ++ check_pages 0 [] [] form.pages
        ++ note_if (ltb max_questions (total_qs form.pages))
            (many_questions (total_qs form.pages)) in
      if is_nil errors then ok tt else err errors
