-- ===== src/Tests/Attempts.antt =====
-- The theorems on repeated attempts, on a config with every gate.
use form_respondent_role.Prelude.{true, false, some, ◌≡◌, ◌↔◌, ◌⊎◌, refl}
use form_respondent_role.Prelude.Int.{pos, ◌<ℤ◌, max_ℤ}
use form_respondent_role.Retry.{RetryConfig, ExistingAttempt, NewSubmission, keep_best, accept}
use form_respondent_role.Retry.Laws.{IsDecided, decide-IsDecided, accept-keep_best}

abbrev gated : RetryConfig
gated = record {
  max_attempts = pos 3;
  cooldown_seconds = pos 60;
  policy = keep_best;
  lock_on_pass = true;
}

abbrev first_try : ExistingAttempt
first_try = record {
  attempt_count = pos 1;
  last_attempt_at = 5000000000;
  total_score = some (pos 4);
  passed = some false;
}

abbrev second_try : NewSubmission
second_try = record { total_score = some (pos 7); passed = some true }

decide-IsDecided_example : IsDecided 6000000000 gated first_try second_try
decide-IsDecided_example = decide-IsDecided 6000000000 gated first_try second_try

accept-keep_best_example :
    (((accept gated first_try second_try).overwrite_answers ≡ true) ↔ (pos 4 <ℤ pos 7))
    × ((accept gated first_try second_try).total_score ≡ some (max_ℤ (pos 4) (pos 7)))
    × (((accept gated first_try second_try).passed ≡ some true)
        ↔ ((some false ≡ some true) ⊎ (some true ≡ some true)))
accept-keep_best_example =
    accept-keep_best gated first_try second_try (pos 4) (pos 7) refl refl refl
