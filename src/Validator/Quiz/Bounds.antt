-- ===== src/Validator/Quiz/Bounds.antt =====
-- The quiz score as the sum of the points of the graded questions that are answered right.
use form_respondent_role.Prelude.{
  ℕ, ◌+◌, Bool, false, ◌&&◌, List, [], ◌∷◌, ◌≡◌, refl, ◌∙◌, arith, inl, inr, map_or, List-cases,
  ltb, if◌then◌else◌, Bool-cases, Option-cases,
}
use form_respondent_role.Prelude.Int.{pos, negsuc, pos_part, i32_max, saturating_add, ◌+ℤ◌}
use form_respondent_role.Json.{Value, Host}
use form_respondent_role.Json.Map.{lookup}
use form_respondent_role.Models.Form.{
  QuestionKind, Question, FormSchema, iter_questions, short_text, long_text, single_choice,
  multi_choice, dropdown, scale, date, email, agreement, info, image, video,
}
use form_respondent_role.Validator.Answers.{VerifiedAnswers}
use form_respondent_role.Validator.Quiz.{
  accepted_answers, is_graded, matches, marked, score_question, score_questions, compute_quiz_score,
}

-- The greatest score is the greatest `i32`.
abbrev pub clamp : ℕ → ℕ
clamp n = if ltb i32_max n then i32_max else n

saturating_add-pos : (a b : ℕ) → saturating_add (pos a) (pos b) ≡ pos (clamp (a + b))
unfolding ◌+ℤ◌ saturating_add
saturating_add-pos a b = ground arith

clamp-add : (a b : ℕ) → clamp (clamp a + b) ≡ clamp (a + b)
clamp-add a b = ground arith

module _ (h : Host) where
  -- The stored answer of a question matches its key.
  abbrev pub is_right : VerifiedAnswers h → Question h → Bool
  is_right verified q =
      map_or false (λ c. map_or false (marked h q c) (lookup q.id verified)) q.correct

  -- The points that a question gives, none unless it is graded.
  abbrev pub earned : VerifiedAnswers h → Question h → ℕ
  earned verified q = if is_graded h q && is_right verified q then map_or 0 pos_part q.points else 0

  abbrev pub total : VerifiedAnswers h → List (Question h) → ℕ
  total verified [] = 0
  total verified (q ∷ qs) = earned verified q + total verified qs

  -- An empty key is matched by no answer.
  matches_nil : (k : QuestionKind) (v : Value h.Number) → matches h k [] v ≡ false
  unfolding matches
  matches_nil multi_choice v = refl
  matches_nil short_text v = ground arith
  matches_nil long_text v = ground arith
  matches_nil single_choice v = ground arith
  matches_nil dropdown v = ground arith
  matches_nil scale v = ground arith
  matches_nil QuestionKind.number v = ground arith
  matches_nil date v = ground arith
  matches_nil email v = ground arith
  matches_nil agreement v = ground arith
  matches_nil info v = ground arith
  matches_nil image v = ground arith
  matches_nil video v = ground arith

  score_question-earned :
      (verified : VerifiedAnswers h) (q : Question h) (t : ℕ)
      → score_question h q verified (pos (clamp t)) ≡ pos (clamp (t + earned verified q))
  unfolding score_question is_graded
  score_question-earned verified q t = elim (Option-cases q.points) [
    | inl none' ↦ ground arith
    | inr (negsuc n, e) ↦ ground arith
    | inr (pos n, e) ↦ elim (Option-cases q.correct) [
      | inl none' ↦ ground arith
      | inr (c, f) ↦ elim (Option-cases (lookup q.id verified)) [
        | inl none' ↦ ground arith
        | inr (v, g) ↦ elim (List-cases (accepted_answers h c)) [
          | inl empty ↦
              let no_match : marked h q c v ≡ false = rw empty (matches_nil q.kind v) in
              ground arith
          | inr (w, ws, full) ↦ elim (Bool-cases (marked h q c v)) [
            | inl right ↦ ground (arith, saturating_add-pos (clamp t) n, clamp-add t n)
            | inr wrong ↦ ground arith
          ]
        ]
      ]
    ]
  ]

  score_questions-total :
      (verified : VerifiedAnswers h) (qs : List (Question h)) (t : ℕ)
      → score_questions h qs verified (pos (clamp t)) ≡ pos (clamp (t + total verified qs))
  unfolding score_questions
  score_questions-total verified [] t = ground arith
  score_questions-total verified (q ∷ qs) t =
      rw (score_question-earned verified q t)
        (score_questions-total verified qs (t + earned verified q) ∙ ground arith)

  -- The quiz score of a form is the sum of the points of the graded questions whose stored answer
  -- matches the key, and the greatest `i32` where the sum exceeds it: no other question counts,
  -- and the score is never negative.
  pub compute_quiz_score-total :
      (form : FormSchema h) (verified : VerifiedAnswers h)
      → compute_quiz_score h form verified ≡ pos (clamp (total verified (iter_questions form)))
  unfolding compute_quiz_score
  compute_quiz_score-total form verified =
      ground (arith, score_questions-total verified (iter_questions form) 0)
