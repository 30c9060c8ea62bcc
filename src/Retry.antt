-- ===== src/Retry.antt =====
-- services/retry.rs: whether a member may submit a form again, and what the stored row becomes.
-- A time is the number of nanoseconds since the epoch.
pub mod Laws
use form_respondent_role.Prelude.{
  ℕ, ◌+◌, ◌-◌, ◌*◌, ◌/◌, String, Bool, true, false, not, ◌&&◌, ◌||◌, Option, none, some, Result, ok,
  err, ltb, leb, str_eq, is_some, if◌then◌else◌,
}
use form_respondent_role.Prelude.Int.{ℤ, pos, pos_part, ltb_ℤ, leb_ℤ, eqb_ℤ, saturating_add}

pub data RetryPolicy : Type 0 where
  keep_best keep_latest : RetryPolicy

unfoldable pub from_str_or_default : String → RetryPolicy
from_str_or_default s = if str_eq s "keep_latest" then keep_latest else keep_best

pub record RetryConfig : Type 0 where
  pub max_attempts : ℤ  -- i32
  pub cooldown_seconds : ℤ  -- i64
  pub policy : RetryPolicy
  pub lock_on_pass : Bool

unfoldable pub retries_enabled : RetryConfig → Bool
retries_enabled c = not (eqb_ℤ c.max_attempts (pos 1)) || ltb_ℤ (pos 0) c.cooldown_seconds

pub record ExistingAttempt : Type 0 where
  pub attempt_count : ℤ  -- i32
  pub last_attempt_at : ℕ
  pub total_score : Option ℤ  -- i32
  pub passed : Option Bool

pub record NewSubmission : Type 0 where
  pub total_score : Option ℤ  -- i32
  pub passed : Option Bool

pub data DenyReason : Type 0 where
  already_passed : DenyReason
  attempts_exhausted : (max : ℤ) → DenyReason
  cooldown : (retry_after_seconds : ℕ) → (next_attempt_at : ℕ) → DenyReason

pub record AcceptedAttempt : Type 0 where
  pub overwrite_answers : Bool
  pub total_score : Option ℤ
  pub passed : Option Bool
  pub attempt_count : ℤ

abbrev pub nanos_per_second : ℕ
nanos_per_second = 1000000000

abbrev pub nanos_per_milli : ℕ
nanos_per_milli = 1000000

abbrev pub is_true : Option Bool → Bool
is_true (some true) = true
is_true _ = false

abbrev pub is_keep_best : RetryPolicy → Bool
is_keep_best keep_best = true
is_keep_best keep_latest = false

-- `a > b` and `a.max(b)` of `Option<i32>`, where `None` is the least.
abbrev pub gt_score : Option ℤ → Option ℤ → Bool
gt_score none b = false
gt_score (some a) none = true
gt_score (some a) (some b) = ltb_ℤ b a

abbrev pub max_score : Option ℤ → Option ℤ → Option ℤ
max_score a b = if gt_score a b then a else b

abbrev combine_passed : Option Bool → Option Bool → Option Bool
combine_passed none none = none
combine_passed a b = some (is_true a || is_true b)

-- When the next attempt is open, and the whole seconds until then.
abbrev pub next_at : RetryConfig → ExistingAttempt → ℕ
next_at c e = e.last_attempt_at + pos_part c.cooldown_seconds * nanos_per_second

unfoldable pub retry_after : ℕ → ℕ → ℕ
retry_after now next =
    let seconds = ((next - now) / nanos_per_milli + 999) / 1000 in
    if leb seconds 1 then 1 else seconds

unfoldable pub accept : RetryConfig → ExistingAttempt → NewSubmission → AcceptedAttempt
accept c e n =
    if is_keep_best c.policy && is_some e.total_score && is_some n.total_score
    then record {
      overwrite_answers = gt_score n.total_score e.total_score;
      total_score = max_score e.total_score n.total_score;
      passed = combine_passed e.passed n.passed;
      attempt_count = saturating_add e.attempt_count (pos 1);
    }
    else record {
      overwrite_answers = true;
      total_score = n.total_score;
      passed = n.passed;
      attempt_count = saturating_add e.attempt_count (pos 1);
    }

unfoldable pub decide_again :
    ℕ → RetryConfig → ExistingAttempt → NewSubmission → Result AcceptedAttempt DenyReason
unfolding accept retry_after
decide_again now c e n =
    if c.lock_on_pass && is_true e.passed
    then err already_passed
    else if ltb_ℤ (pos 0) c.max_attempts && leb_ℤ c.max_attempts e.attempt_count
    then err (attempts_exhausted c.max_attempts)
    else if ltb_ℤ (pos 0) c.cooldown_seconds && ltb now (next_at c e)
    then err (cooldown (retry_after now (next_at c e)) (next_at c e))
    else ok (accept c e n)

unfoldable pub decide :
    ℕ → RetryConfig → Option ExistingAttempt → NewSubmission → Result AcceptedAttempt DenyReason
unfolding decide_again
decide now c none n = ok (record {
  overwrite_answers = true;
  total_score = n.total_score;
  passed = n.passed;
  attempt_count = pos 1;
})
decide now c (some e) n = decide_again now c e n
