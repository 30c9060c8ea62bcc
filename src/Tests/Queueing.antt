-- ===== src/Tests/Queueing.antt =====
-- The theorems on the queue and the worker, on a queue of one job.
use form_respondent_role.Prelude.{
  ◌<◌, ◌*◌, ◌⊎◌, ◌≡◌, ◌+◌, true, ok, ◌≡◌, ℕ, ◌+◌, ◌≤◌, String, false, none, some, err, ◌≢◌, ◌⊎◌,
  refl, inl, In, All, length,
}
use form_respondent_role.Prelude.Int.{ℤ}
use form_respondent_role.Json.{null}
use form_respondent_role.Jobs.{
  player_sync, Job, Queue, pending, in_progress, backoff_delay, enqueue, claim_batch,
}
use form_respondent_role.Jobs.{
  enqueue_config_sync_unless_queued, enqueue_player_sync, enqueue_config_sync, enqueue_webhook,
}
use form_respondent_role.Jobs.Debounce.{unless_queued_twice}
use form_respondent_role.Worker.{remove_player, sync_link, deliver}
use form_respondent_role.Worker.Payloads.{Runs, dispatch-enqueued}
use form_respondent_role.Tests.Data.{whole_host}
use form_respondent_role.Jobs.Invariant.{IsValid}
use form_respondent_role.Jobs.Claim.{
  IsClaimed, IsLeft, claim_batch-IsClaimed, claim_batch-exclusive,
}
use form_respondent_role.Jobs.Reach.{Reach, here, next, enqueued, empty_queue, Reach-IsValid}
use form_respondent_role.Worker.{link_gone, retry, settle}
use form_respondent_role.Worker.Laws.{IsSettled, settle-IsSettled, backoff_delay-doubles}

abbrev one_job : Queue ℤ
one_job = enqueue 1000 player_sync null 0 (enqueue 1000 player_sync null 0 empty_queue)

abbrev claimed_job : Job ℤ
claimed_job = record {
  id = 0;
  kind = "player_sync";
  payload = null;
  status = pending;
  attempts = 3;
  max_attempts = 8;
  next_run_at = 1000;
  last_error = none;
  locked_by = none;
  locked_at = none;
  completed_at = none;
}

one_job-Reach : Reach empty_queue one_job
one_job-Reach =
    next (next here (enqueued 1000 player_sync null 0)) (enqueued 1000 player_sync null 0)

Reach-IsValid_example : IsValid one_job
Reach-IsValid_example = Reach-IsValid one_job-Reach

claim_batch-IsClaimed_example :
    (length (claim_batch 2000 "w" (λ _. false) 8 one_job).1 ≤ 8)
    × All
        (λ c.
          IsClaimed 2000 "w" (λ _. false) one_job.jobs c
          × In c (claim_batch 2000 "w" (λ _. false) 8 one_job).0.jobs)
        (claim_batch 2000 "w" (λ _. false) 8 one_job).1
    × ((length (claim_batch 2000 "w" (λ _. false) 8 one_job).1 ≡ 8)
        ⊎ All (IsLeft 2000 "w" (λ _. false)) (claim_batch 2000 "w" (λ _. false) 8 one_job).0.jobs)
claim_batch-IsClaimed_example = claim_batch-IsClaimed 2000 "w" (λ _. false) 8 one_job

backoff_delay-doubles_example :
    (backoff_delay 1 17 ≡ 2000 + 17)
    × (((1 ≤ 3) × (3 < 8) × (backoff_delay 4 17 + 17 ≡ 2 * backoff_delay 3 17))
        ⊎ ((8 ≤ 3) × (backoff_delay 3 17 ≡ 256000 + 17))
        ⊎ (3 < 1))
backoff_delay-doubles_example = backoff_delay-doubles 3 17

settle-IsSettled_example :
    All
      (λ j. (j.id ≢ 0) ⊎ IsSettled 5000 17 claimed_job (err (retry link_gone)) j)
      (settle (λ _. "gone") 5000 17 claimed_job (err (retry link_gone)) one_job).jobs
settle-IsSettled_example =
    settle-IsSettled 5000 17 claimed_job (λ _. "gone") (err (retry link_gone)) one_job

-- The two rows as the two claims leave them.
abbrev taken : ℕ → ℕ → String → Job ℤ
taken id now worker = record {
  id = id;
  kind = "player_sync";
  payload = null;
  status = in_progress;
  attempts = 1;
  max_attempts = 8;
  next_run_at = 1000;
  last_error = none;
  locked_by = some worker;
  locked_at = some now;
  completed_at = none;
}

first-claimed : In (taken 0 2000 "w") (claim_batch 2000 "w" (λ _. false) 1 one_job).1
unfolding claim_batch enqueue
first-claimed = inl refl

second-claimed :
    In
      (taken 1 2100 "v")
      (claim_batch 2100 "v" (λ _. false) 8 (claim_batch 2000 "w" (λ _. false) 1 one_job).0).1
unfolding claim_batch enqueue
second-claimed = inl refl

claim_batch-exclusive_example : (taken 0 2000 "w").id ≢ (taken 1 2100 "v").id
claim_batch-exclusive_example =
    claim_batch-exclusive 2000 2100 "w" "v" (λ _. false) (λ _. false) 1 8 one_job (taken 0 2000 "w")
      (taken 1 2100 "v") (Reach-IsValid one_job-Reach) first-claimed second-claimed

unless_queued_twice_example :
    enqueue_config_sync_unless_queued whole_host 9000 "g1" "r1" 5
      (enqueue_config_sync_unless_queued whole_host 1000 "g1" "r1" 1200 one_job)
    ≡ enqueue_config_sync_unless_queued whole_host 1000 "g1" "r1" 1200 one_job
unless_queued_twice_example = unless_queued_twice whole_host "g1" "r1" 1000 9000 1200 5 one_job refl

dispatch-enqueued_example :
    Runs whole_host
      (λ _. ok tt)
      one_job
      (remove_player "u1")
      (enqueue_player_sync whole_host 1000 true "u1" one_job)
    × Runs whole_host
        (λ _. ok tt)
        one_job
        (sync_link "g1" "r1")
        (enqueue_config_sync whole_host 1000 "g1" "r1" one_job)
    × Runs whole_host
        (λ _. ok tt)
        one_job
        (deliver "https://example.org" null)
        (enqueue_webhook whole_host 1000 "https://example.org" null one_job)
dispatch-enqueued_example =
    dispatch-enqueued whole_host (λ _. ok tt) 1000 true "u1" "g1" "r1" "https://example.org" null
      one_job
