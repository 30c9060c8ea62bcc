-- ===== src/Retry/Laws.antt =====
-- When an attempt is accepted, what a refusal says, and what the stored attempt becomes.
use form_respondent_role.Prelude.{
  none, refl, Bool-cases, Option-cases, inl, inr, ℕ, ◌+◌, ◌-◌, ◌*◌, ◌≤◌, ◌<◌, true, some, ok, err,
  ◌≡◌, ◌↔◌, ◌⊎◌, arith,
}
use form_respondent_role.Prelude.Int.{ℤ, pos, negsuc, saturating_add, ◌≤ℤ◌, ◌<ℤ◌, max_ℤ}
use form_respondent_role.Retry.{
  RetryConfig, keep_best, keep_latest, is_keep_best, AcceptedAttempt, ExistingAttempt,
  NewSubmission, already_passed, attempts_exhausted, cooldown, nanos_per_second, nanos_per_milli,
  next_at, retry_after, accept, decide,
}

-- The three gates of an attempt after the first.
module _ (now : ℕ) (c : RetryConfig) (e : ExistingAttempt) where
  abbrev pub IsLocked : Type 0
  IsLocked = (c.lock_on_pass ≡ true) × (e.passed ≡ some true)

  abbrev pub IsExhausted : Type 0
  IsExhausted = (pos 0 <ℤ c.max_attempts) × (c.max_attempts ≤ℤ e.attempt_count)

  abbrev IsShut : Type 0
  IsShut = (pos 0 <ℤ c.cooldown_seconds) × (now < next_at c e)

  decide_cases :
      (n : NewSubmission)
      → (IsLocked × (decide now c (some e) n ≡ err already_passed))
        ⊎ ((¬ IsLocked)
            × IsExhausted
            × (decide now c (some e) n ≡ err (attempts_exhausted c.max_attempts)))
        ⊎ ((¬ IsLocked)
            × (¬ IsExhausted)
            × IsShut
            × (decide now c (some e) n
                ≡ err (cooldown (retry_after now (next_at c e)) (next_at c e))))
        ⊎ ((¬ IsLocked)
            × (¬ IsExhausted)
            × (¬ IsShut)
            × (decide now c (some e) n ≡ ok (accept c e n)))
  unfolding decide
  decide_cases n = ground arith

-- While the cooldown runs, the number of whole seconds that a refusal names is at least one;
-- waiting that long and one millisecond more opens the form, and a second less does not.
retry_after_bounds :
    (now next : ℕ)
    → now < next
    → (1 ≤ retry_after now next)
      × (next < now + retry_after now next * nanos_per_second + nanos_per_milli)
      × (now + (retry_after now next - 1) * nanos_per_second < next)
unfolding retry_after
retry_after_bounds now next cooling = ground arith

-- Under `keep_best`, an accepted scored attempt after a scored one replaces the answers exactly
-- when its score is strictly higher, keeps the higher score, and is passed exactly when either is.
pub accept-keep_best :
    (c : RetryConfig) (e : ExistingAttempt) (n : NewSubmission) (old new : ℤ)
    → c.policy ≡ keep_best
    → e.total_score ≡ some old
    → n.total_score ≡ some new
    → (((accept c e n).overwrite_answers ≡ true) ↔ (old <ℤ new))
      × ((accept c e n).total_score ≡ some (max_ℤ old new))
      × (((accept c e n).passed ≡ some true) ↔ ((e.passed ≡ some true) ⊎ (n.passed ≡ some true)))
unfolding accept
accept-keep_best c e n old new best scored rescored = (ground arith, ground arith, ground arith)

module _ (now : ℕ) (c : RetryConfig) (e : ExistingAttempt) (n : NewSubmission) where
  -- The cooldown runs for a positive number of seconds from the last attempt.
  abbrev pub IsCooling : ℕ → Type 0
  IsCooling s = (c.cooldown_seconds ≡ pos s) × (0 < s) × (now < e.last_attempt_at + s * 1000000000)

  -- The refusal names when the form opens, and whole seconds that are enough up to a millisecond,
  -- where a second less is not.
  abbrev pub IsTold : ℕ → Type 0
  IsTold s =
      (wait : ℕ) × (decide now c (some e) n
        ≡ err (cooldown wait (e.last_attempt_at + s * 1000000000)))
      × (1 ≤ wait)
      × (e.last_attempt_at + s * 1000000000 < now + wait * 1000000000 + 1000000)
      × (now + (wait - 1) * 1000000000 < e.last_attempt_at + s * 1000000000)

  -- Two scores under `keep_best`.
  abbrev pub IsCompared : AcceptedAttempt → Type 0
  IsCompared a =
      (old : ℤ) × (new : ℤ) × (c.policy ≡ keep_best)
      × (e.total_score ≡ some old)
      × (n.total_score ≡ some new)
      × ((a.overwrite_answers ≡ true) ↔ (old <ℤ new))
      × (a.total_score ≡ some (max_ℤ old new))
      × ((a.passed ≡ some true) ↔ ((e.passed ≡ some true) ⊎ (n.passed ≡ some true)))

  abbrev pub IsReplaced : AcceptedAttempt → Type 0
  IsReplaced a =
      ((c.policy ≡ keep_latest) ⊎ (e.total_score ≡ none) ⊎ (n.total_score ≡ none))
      × (a.overwrite_answers ≡ true)
      × (a.total_score ≡ n.total_score)
      × (a.passed ≡ n.passed)

  abbrev pub IsAccepted : Type 0
  IsAccepted =
      (a : AcceptedAttempt) × (decide now c (some e) n ≡ ok a)
      × (a.attempt_count ≡ saturating_add e.attempt_count (pos 1))
      × (IsCompared a ⊎ IsReplaced a)

  accept-count : (accept c e n).attempt_count ≡ saturating_add e.attempt_count (pos 1)
  unfolding accept
  accept-count = ground arith

  accept-IsAccepted : IsCompared (accept c e n) ⊎ IsReplaced (accept c e n)
  unfolding accept
  accept-IsAccepted = elim (Bool-cases (is_keep_best c.policy)) [
    | inr latest ↦ inr (ground arith)
    | inl best ↦ elim (Option-cases e.total_score) [
      | inl unscored ↦ inr (ground arith)
      | inr (old, scored) ↦ elim (Option-cases n.total_score) [
        | inl unscored ↦ inr (ground arith)
        | inr (new, rescored) ↦
            let known : c.policy ≡ keep_best = ground arith in
            let (over, most, pass) = accept-keep_best c e n old new known scored rescored in
            inl (old, new, known, scored, rescored, over, most, pass)
      ]
    ]
  ]

  -- The cooldown of the code, as a number of seconds.
  cooldown_seconds_of : (z : ℤ) → pos 0 <ℤ z → (s : ℕ) × (z ≡ pos s) × (0 < s)
  cooldown_seconds_of (pos s) positive = (s, refl, ground arith)
  cooldown_seconds_of (negsuc s) positive = absurd (ground arith)

  next_at_of :
      (s : ℕ) → c.cooldown_seconds ≡ pos s → next_at c e ≡ e.last_attempt_at + s * 1000000000
  next_at_of s seconds = rw seconds refl

  retry_after-IsTold :
      (s : ℕ)
      → c.cooldown_seconds ≡ pos s
      → now < next_at c e
      → decide now c (some e) n ≡ err (cooldown (retry_after now (next_at c e)) (next_at c e))
      → IsTold s
  retry_after-IsTold s seconds cooling told =
      let next = e.last_attempt_at + s * 1000000000 in
      let same = next_at_of s seconds in
      let (least, enough, needed) = retry_after_bounds now next (rw same at cooling) in
      (retry_after now next, rw same at told, least, enough, needed)

  IsShut-IsTold :
      IsShut now c e
      → decide now c (some e) n ≡ err (cooldown (retry_after now (next_at c e)) (next_at c e))
      → (s : ℕ) × IsCooling s × IsTold s
  IsShut-IsTold (positive, cooling) told =
      let (s, seconds, some_seconds) = cooldown_seconds_of c.cooldown_seconds positive in
      (
        s,
        (seconds, some_seconds, rw (next_at_of s seconds) at cooling),
        retry_after-IsTold s seconds cooling told,
      )

  warm : (¬ IsShut now c e) → ¬ ((s : ℕ) × IsCooling s)
  warm shut (s, (seconds, some_seconds, cooling)) =
      shut (rw seconds (omega arith), rw (next_at_of s seconds) cooling)

  abbrev pub IsDecided : Type 0
  IsDecided =
      (IsLocked now c e × (decide now c (some e) n ≡ err already_passed))
      ⊎ ((¬ IsLocked now c e)
          × IsExhausted now c e
          × (decide now c (some e) n ≡ err (attempts_exhausted c.max_attempts)))
      ⊎ ((¬ IsLocked now c e) × (¬ IsExhausted now c e) × ((s : ℕ) × IsCooling s × IsTold s))
      ⊎ ((¬ IsLocked now c e) × (¬ IsExhausted now c e) × (¬ ((s : ℕ) × IsCooling s)) × IsAccepted)

  -- An attempt after the first is refused as passed where passing locks and the last attempt
  -- passed; else as exhausted where the attempts are limited and used up; else, while the cooldown
  -- runs, with the time at which it ends, the last attempt and as many seconds, and the whole
  -- seconds until then; and else it is accepted: it counts one
  -- attempt more, up to the greatest `i32`, and keeps the better
  -- of two scores under `keep_best`, or replaces what is stored.
  pub decide-IsDecided : IsDecided
  decide-IsDecided = elim (decide_cases now c e n) [
    | inl locked ↦ inl locked
    | inr (inl exhausted) ↦ inr (inl exhausted)
    | inr (inr (inl (open_one, left, cooling, told))) ↦
        inr (inr (inl (open_one, left, IsShut-IsTold cooling told)))
    | inr (inr (inr (open_one, left, shut, accepted))) ↦ inr (
        inr (
          inr
            (open_one, left, warm shut, (accept c e n, accepted, accept-count, accept-IsAccepted))))
  ]
