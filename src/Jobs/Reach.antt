-- ===== src/Jobs/Reach.antt =====
-- The queue as a state machine: whatever the replicas do, in any order, keeps the invariant.
use form_respondent_role.Prelude.{ℕ, String, Bool, [], arith}
use form_respondent_role.Json.{Value}
use form_respondent_role.Jobs.{
  JobKind, Job, Queue, enqueue, claim_batch, complete, fail_retry, fail_dead, reap_stuck,
}
use form_respondent_role.Jobs.Invariant.{
  IsValid, enqueue-IsValid, claim_batch-IsValid, complete-IsValid, fail_retry-IsValid,
  fail_dead-IsValid, reap_stuck-IsValid,
}

module _ {N : Type 0} where
  -- One statement on the table, with the clock, ids and texts as the environment has them.
  pub data Step (q : Queue N) : Queue N → Type 0 where
    enqueued :
        (now : ℕ) (kind : JobKind) (payload : Value N) (delay : ℕ)
        → Step q (enqueue now kind payload delay q)
    claimed :
        (now : ℕ) (worker : String) (skipped : ℕ → Bool) (batch : ℕ)
        → Step q (claim_batch now worker skipped batch q).0
    completed : (now id : ℕ) → Step q (complete now id q)
    retried :
        (now jitter : ℕ) (job : Job N) (error : String) → Step q (fail_retry now jitter job error q)
    buried : (now id : ℕ) (error : String) → Step q (fail_dead now id error q)
    reaped : (now max_lock : ℕ) → Step q (reap_stuck now max_lock q)

  pub data Reach (q : Queue N) : Queue N → Type 0 where
    here : Reach q q
    next : {r s : Queue N} → Reach q r → Step r s → Reach q s

  Step-IsValid : {q r : Queue N} → Step q r → IsValid q → IsValid r
  Step-IsValid {q} (enqueued now kind payload delay) v = enqueue-IsValid now kind payload delay q v
  Step-IsValid {q} (claimed now worker skipped batch) v =
      claim_batch-IsValid now worker skipped batch q v
  Step-IsValid {q} (completed now id) v = complete-IsValid now id q v
  Step-IsValid {q} (retried now jitter job error) v = fail_retry-IsValid now jitter job error q v
  Step-IsValid {q} (buried now id error) v = fail_dead-IsValid now id error q v
  Step-IsValid {q} (reaped now max_lock) v = reap_stuck-IsValid now max_lock q v

  abbrev pub empty_queue : Queue N
  empty_queue = record { jobs = []; next_id = 0 }

  -- In every queue that is reached from the empty one, ids are unique and rising, and a row holds
  -- a lock exactly while it is in progress.
  pub Reach-IsValid : {q : Queue N} → Reach empty_queue q → IsValid q
  Reach-IsValid here = record { consistent = tt; ids = omega arith }
  Reach-IsValid (next r s) = Step-IsValid s (Reach-IsValid r)
