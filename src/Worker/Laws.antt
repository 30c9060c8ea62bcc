-- ===== src/Worker/Laws.antt =====
-- How a claimed job ends.
use form_respondent_role.Prelude.{
  ℕ, zero, suc, ◌+◌, ◌*◌, ◌^◌, ◌<◌, ◌≤◌, String, List, [], ◌∷◌, map, Result, ok, err, ◌≡◌, ◌≢◌,
  refl, ◌⊎◌, inl, inr, arith, All, leb, ltb, Bool-cases, ◌==◌, if◌then◌else◌,
}
use form_respondent_role.Jobs.{pending, completed, dead, Job, Queue, backoff_delay}
use form_respondent_role.Worker.{Reason, JobError, terminal, retry, settle}

pow_bounds : (k : ℕ) → 1 ≤ k → k ≤ 8 → (2 ≤ 2 ^ k) × (2 ^ k ≤ 256)
pow_bounds zero a b = absurd (omega arith)
pow_bounds (suc zero) a b = omega arith
pow_bounds (suc (suc zero)) a b = omega arith
pow_bounds (suc (suc (suc zero))) a b = omega arith
pow_bounds (suc (suc (suc (suc zero)))) a b = omega arith
pow_bounds (suc (suc (suc (suc (suc zero))))) a b = omega arith
pow_bounds (suc (suc (suc (suc (suc (suc zero)))))) a b = omega arith
pow_bounds (suc (suc (suc (suc (suc (suc (suc zero))))))) a b = omega arith
pow_bounds (suc (suc (suc (suc (suc (suc (suc (suc zero)))))))) a b = omega arith
pow_bounds (suc (suc (suc (suc (suc (suc (suc (suc (suc k))))))))) a b = absurd (omega arith)

-- Whatever the attempt, a retry waits at least two seconds and at most 256 seconds, and the jitter.
backoff_bounds :
    (attempt jitter_ms : ℕ)
    → (2000 + jitter_ms ≤ backoff_delay attempt jitter_ms)
      × (backoff_delay attempt jitter_ms ≤ 256000 + jitter_ms)
unfolding backoff_delay
backoff_bounds attempt jitter_ms =
    let k = if ltb attempt 1 then 1 else if ltb 8 attempt then 8 else attempt in
    let low : 1 ≤ k = ground arith in
    let high : k ≤ 8 = ground arith in
    let (least, most) = pow_bounds k low high in (omega arith, omega arith)

-- The first retry waits two seconds and the jitter; each further one, up to the eighth, waits
-- twice as long, apart from the jitter; and from the eighth on the wait is 256 seconds and the
-- jitter.
pub backoff_delay-doubles :
    (attempt jitter_ms : ℕ)
    → (backoff_delay 1 jitter_ms ≡ 2000 + jitter_ms)
      × (((1 ≤ attempt)
            × (attempt < 8)
            × (backoff_delay (suc attempt) jitter_ms + jitter_ms
                ≡ 2 * backoff_delay attempt jitter_ms))
          ⊎ ((8 ≤ attempt) × (backoff_delay attempt jitter_ms ≡ 256000 + jitter_ms))
          ⊎ (attempt < 1))
unfolding backoff_delay
backoff_delay-doubles zero jitter_ms = ground arith
backoff_delay-doubles (suc zero) jitter_ms = ground arith
backoff_delay-doubles (suc (suc zero)) jitter_ms = ground arith
backoff_delay-doubles (suc (suc (suc zero))) jitter_ms = ground arith
backoff_delay-doubles (suc (suc (suc (suc zero)))) jitter_ms = ground arith
backoff_delay-doubles (suc (suc (suc (suc (suc zero))))) jitter_ms = ground arith
backoff_delay-doubles (suc (suc (suc (suc (suc (suc zero)))))) jitter_ms = ground arith
backoff_delay-doubles (suc (suc (suc (suc (suc (suc (suc zero))))))) jitter_ms = ground arith
backoff_delay-doubles (suc (suc (suc (suc (suc (suc (suc (suc k)))))))) jitter_ms = ground arith

module _ {N : Type 0} (now jitter_ms : ℕ) (job : Job N) where
  -- How the row of the job stands after the result of running it.
  abbrev pub IsSettled : Result (Unit {0}) JobError → Job N → Type 0
  IsSettled (ok _) j = j.status ≡ completed
  IsSettled (err (terminal reason)) j = j.status ≡ dead
  IsSettled (err (retry reason)) j =
      ((job.max_attempts ≤ job.attempts) × (j.status ≡ dead))
      ⊎ ((job.attempts < job.max_attempts)
          × (j.status ≡ pending)
          × (now + 2000 + jitter_ms ≤ j.next_run_at)
          × (j.next_run_at ≤ now + 256000 + jitter_ms))

  map-row :
      (P : Job N → Type 0) (change : Job N → Job N) (js : List (Job N))
      → ((j : Job N) → (change j).id ≡ j.id)
      → ((j : Job N) → P (change j))
      → All
          (λ j. (j.id ≢ job.id) ⊎ P j)
          (map (λ (j : Job N). if j.id == job.id then change j else j) js)
  map-row P change [] same after = tt
  map-row P change (j ∷ js) same after = elim (Bool-cases (j.id == job.id)) [
    | inl hit ↦ rw hit (inr (after j), map-row P change js same after)
    | inr miss ↦ rw miss (inl (λ e. ground arith), map-row P change js same after)
  ]

  -- A row with the id of a job that ran is completed when it succeeded, and buried when it failed for good or has no
  -- attempt left; else it is pending again, after two to 256 seconds and the jitter. It never
  -- stays in progress.
  pub settle-IsSettled :
      (describe : Reason → String) (result : Result (Unit {0}) JobError) (q : Queue N)
      → All
          (λ j. (j.id ≢ job.id) ⊎ IsSettled result j)
          (settle describe now jitter_ms job result q).jobs
  unfolding settle
  settle-IsSettled describe (ok _) q =
      map-row (λ j. j.status ≡ completed) _ q.jobs (λ j. refl) (λ j. refl)
  settle-IsSettled describe (err (terminal reason)) q =
      map-row (λ j. j.status ≡ dead) _ q.jobs (λ j. refl) (λ j. refl)
  settle-IsSettled describe (err (retry reason)) q =
      elim (Bool-cases (leb job.max_attempts job.attempts)) [
        | inl spent ↦ rw spent (
            map-row (IsSettled (err (retry reason))) _ q.jobs (λ j. refl)
              (λ j. inl (ground arith, refl)))
        | inr left ↦ rw left (
            map-row (IsSettled (err (retry reason))) _ q.jobs (λ j. refl)
              (λ j. inr (
                ground arith,
                refl,
                omega (arith, backoff_bounds job.attempts jitter_ms),
                omega (arith, backoff_bounds job.attempts jitter_ms),
              )))
      ]
