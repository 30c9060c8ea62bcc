-- ===== src/Jobs/Invariant.antt =====
-- The invariant of the queue, kept by every operation.
use form_respondent_role.Prelude.{
  ℕ, zero, suc, ◌≤◌, String, Bool, List, [], ◌∷◌, ◌++◌, map, is_some, ◌≡◌, refl, arith, All,
}
use form_respondent_role.Json.{Value}
use form_respondent_role.Jobs.{
  JobKind, is_in_progress, Job, Queue, enqueue, claim, claim_batch, complete, fail_retry, fail_dead,
  reap_stuck,
}

module _ {N : Type 0} where
  -- A row holds a lock exactly while it is in progress.
  abbrev pub IsConsistent : Job N → Type 0
  IsConsistent j =
      (is_some j.locked_by ≡ is_in_progress j.status)
      × (is_some j.locked_at ≡ is_in_progress j.status)

  -- The ids rise from `low` on and stay below `next`.
  abbrev pub IdsFrom : ℕ → ℕ → List (Job N) → Type 0
  IdsFrom low next [] = low ≤ next
  IdsFrom low next (j ∷ js) = (low ≤ j.id) × IdsFrom (suc j.id) next js

  pub record IsValid (q : Queue N) : Type 0 where
    pub consistent : All IsConsistent q.jobs
    pub ids : IdsFrom 0 q.next_id q.jobs

  -- A change of the rows, one by one, that keeps ids and consistency.
  map-IsConsistent :
      (f : Job N → Job N) (js : List (Job N))
      → ((j : Job N) → IsConsistent j → IsConsistent (f j))
      → All IsConsistent js
      → All IsConsistent (map f js)
  map-IsConsistent f [] keep ok = tt
  map-IsConsistent f (j ∷ js) keep (c, cs) = (keep j c, map-IsConsistent f js keep cs)

  map-ids :
      (f : Job N → Job N) (js : List (Job N)) (low next : ℕ)
      → ((j : Job N) → (f j).id ≡ j.id)
      → IdsFrom low next js
      → IdsFrom low next (map f js)
  map-ids f [] low next same ids = ids
  map-ids f (j ∷ js) low next same (h, ids) = rw (same j) (h, map-ids f js (suc j.id) next same ids)

  map-IsValid :
      (f : Job N → Job N) (q : Queue N)
      → ((j : Job N) → (f j).id ≡ j.id)
      → ((j : Job N) → IsConsistent j → IsConsistent (f j))
      → IsValid q
      → IsValid (record q { jobs = map f q.jobs })
  map-IsValid f q same keep v = record {
    consistent = map-IsConsistent f q.jobs keep v.consistent;
    ids = map-ids f q.jobs 0 q.next_id same v.ids;
  }

  pub complete-IsValid : (now id : ℕ) (q : Queue N) → IsValid q → IsValid (complete now id q)
  unfolding complete
  complete-IsValid now id q = map-IsValid _ q (λ j. ground arith) (λ j c. ground arith)

  pub fail_retry-IsValid :
      (now jitter_ms : ℕ) (job : Job N) (error : String) (q : Queue N)
      → IsValid q
      → IsValid (fail_retry now jitter_ms job error q)
  unfolding fail_retry
  fail_retry-IsValid now jitter_ms job error q =
      map-IsValid _ q (λ j. ground arith) (λ j c. ground arith)

  pub fail_dead-IsValid :
      (now id : ℕ) (error : String) (q : Queue N) → IsValid q → IsValid (fail_dead now id error q)
  unfolding fail_dead
  fail_dead-IsValid now id error q = map-IsValid _ q (λ j. ground arith) (λ j c. ground arith)

  pub reap_stuck-IsValid :
      (now max_lock_secs : ℕ) (q : Queue N) → IsValid q → IsValid (reap_stuck now max_lock_secs q)
  unfolding reap_stuck
  reap_stuck-IsValid now max_lock_secs q = map-IsValid _ q (λ j. ground arith) (λ j c. ground arith)

  All-snoc :
      (js : List (Job N)) (j : Job N)
      → All IsConsistent js
      → IsConsistent j
      → All IsConsistent (js ++ j ∷ [])
  All-snoc [] j _ c = (c, tt)
  All-snoc (k ∷ js) j (d, cs) c = (d, All-snoc js j cs c)

  IdsFrom-snoc :
      (js : List (Job N)) (j : Job N) (low : ℕ)
      → IdsFrom low j.id js
      → IdsFrom low (suc j.id) (js ++ j ∷ [])
  IdsFrom-snoc [] j low h = ground arith
  IdsFrom-snoc (k ∷ js) j low (h, ids) = (h, IdsFrom-snoc js j (suc k.id) ids)

  pub enqueue-IsValid :
      (now : ℕ) (kind : JobKind) (payload : Value N) (delay_secs : ℕ) (q : Queue N)
      → IsValid q
      → IsValid (enqueue now kind payload delay_secs q)
  unfolding enqueue
  enqueue-IsValid now kind payload delay_secs q v = record {
    consistent = All-snoc q.jobs _ v.consistent (refl, refl);
    ids = IdsFrom-snoc q.jobs _ 0 v.ids;
  }

  claim-rows :
      (now : ℕ) (worker : String) (skipped : ℕ → Bool) (room : ℕ) (js : List (Job N)) (low next : ℕ)
      → All IsConsistent js × IdsFrom low next js
      → All IsConsistent (claim now worker skipped room js).0
        × IdsFrom low next (claim now worker skipped room js).0
  unfolding claim
  claim-rows now worker skipped room [] low next v = v
  claim-rows now worker skipped zero (j ∷ js) low next v = v
  claim-rows now worker skipped (suc room) (j ∷ js) low next v = ground (
    arith,
    claim-rows now worker skipped room js (suc j.id) next,
    claim-rows now worker skipped (suc room) js (suc j.id) next,
  )

  pub claim_batch-IsValid :
      (now : ℕ) (worker : String) (skipped : ℕ → Bool) (batch_size : ℕ) (q : Queue N)
      → IsValid q
      → IsValid (claim_batch now worker skipped batch_size q).0
  unfolding claim_batch
  claim_batch-IsValid now worker skipped batch_size q v =
      let (c, i) =
        claim-rows now worker skipped batch_size q.jobs 0 q.next_id (v.consistent, v.ids) in
      record { consistent = c; ids = i }
