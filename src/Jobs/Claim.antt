-- ===== src/Jobs/Claim.antt =====
-- What a claim takes: due jobs only, at most a batch, and never one that is claimed already.
use form_respondent_role.Prelude.{
  ℕ, zero, suc, ◌+◌, ◌≤◌, ◌<◌, ◌⊎◌, ap, ◌∙◌, some, String, Bool, true, false, not, ◌&&◌, List, [],
  ◌∷◌, ◌≡◌, ◌≢◌, refl, sym, inl, inr, arith, In, All, All-of_In, In-of_All, Bool-cases, length,
}
use form_respondent_role.Jobs.{
  pending, in_progress, Job, Queue, is_due, claimed_by, claim, claim_batch,
}
use form_respondent_role.Jobs.Invariant.{IdsFrom, IsValid, claim_batch-IsValid}

module _ {N : Type 0} (now : ℕ) (worker : String) (skipped : ℕ → Bool) where
  -- A claimed row: what it was before the claim.
  record WasDue (js : List (Job N)) (c : Job N) : Type 0 where
    before : Job N
    there : In before js
    due : is_due now before ≡ true
    free : skipped before.id ≡ false
    taken : c ≡ claimed_by now worker before

  WasDue-cons : (j c : Job N) (js : List (Job N)) → WasDue js c → WasDue (j ∷ js) c
  WasDue-cons j c js w = record {
    before = w.before;
    there = inr w.there;
    due = w.due;
    free = w.free;
    taken = w.taken;
  }

  claim-WasDue :
      (room : ℕ) (js : List (Job N)) (c : Job N)
      → In c (claim now worker skipped room js).1
      → WasDue js c
  unfolding claim
  claim-WasDue room [] c i = absurd i
  claim-WasDue zero (j ∷ js) c i = absurd i
  claim-WasDue (suc room) (j ∷ js) c i = elim (Bool-cases (is_due now j && not (skipped j.id))) [
    | inl due ↦ elim (rw (due, In) at i) [
      | inl e ↦ record {
        before = j;
        there = inl refl;
        due = ground arith;
        free = ground arith;
        taken = sym e;
      }
      | inr later ↦ WasDue-cons j c js (claim-WasDue room js c later)
    ]
    | inr other ↦ WasDue-cons j c js (claim-WasDue (suc room) js c (rw (other, In) at i))
  ]

  claim-stored :
      (room : ℕ) (js : List (Job N)) (c : Job N)
      → In c (claim now worker skipped room js).1
      → In c (claim now worker skipped room js).0
  unfolding claim
  claim-stored room [] c i = absurd i
  claim-stored zero (j ∷ js) c i = absurd i
  claim-stored (suc room) (j ∷ js) c i = elim (Bool-cases (is_due now j && not (skipped j.id))) [
    | inl due ↦
        rw (due, In)
          (elim (rw (due, In) at i) [
            | inl e ↦ inl e
            | inr later ↦ inr (claim-stored room js c later)
          ])
    | inr other ↦ rw (other, In) (inr (claim-stored (suc room) js c (rw (other, In) at i)))
  ]

  length-claim-le :
      (room : ℕ) (js : List (Job N)) → length (claim now worker skipped room js).1 ≤ room
  unfolding claim
  length-claim-le room [] = omega arith
  length-claim-le zero (j ∷ js) = omega arith
  length-claim-le (suc room) (j ∷ js) =
      ground (arith, length-claim-le room js, length-claim-le (suc room) js)

  claim_batch-WasDue :
      (batch_size : ℕ) (q : Queue N)
      → (length (claim_batch now worker skipped batch_size q).1 ≤ batch_size)
        × All
            (λ c. WasDue q.jobs c × In c (claim_batch now worker skipped batch_size q).0.jobs)
            (claim_batch now worker skipped batch_size q).1
  unfolding claim_batch
  claim_batch-WasDue batch_size q = (
    length-claim-le batch_size q.jobs,
    All-of_In _ _ λ c i. (claim-WasDue batch_size q.jobs c i, claim-stored batch_size q.jobs c i),
  )

  -- A row of the table as a claim found it, and the claimed row.
  pub record IsClaimed (js : List (Job N)) (c : Job N) : Type 0 where
    pub before : Job N
    pub there : In before js
    pub was_pending : before.status ≡ pending
    pub was_due : before.next_run_at ≤ now
    pub was_free : skipped before.id ≡ false
    pub same_id : c.id ≡ before.id
    pub same_work : (c.kind ≡ before.kind) × (c.payload ≡ before.payload)
    pub runs : c.status ≡ in_progress
    pub counted : c.attempts ≡ before.attempts + 1
    pub locked : (c.locked_by ≡ some worker) × (c.locked_at ≡ some now)

  -- A row that a claim leaves where it has room for more.
  abbrev pub IsLeft : Job N → Type 0
  IsLeft j = (j.status ≢ pending) ⊎ (now < j.next_run_at) ⊎ (skipped j.id ≡ true)

  WasDue-IsClaimed : (js : List (Job N)) (c : Job N) → WasDue js c → IsClaimed js c
  WasDue-IsClaimed js c w = record {
    before = w.before;
    there = w.there;
    was_pending = grind (arith, w.due);
    was_due = grind (arith, w.due);
    was_free = w.free;
    same_id = ap (λ (j : Job N). j.id) w.taken;
    same_work = (ap (λ (j : Job N). j.kind) w.taken, ap (λ (j : Job N). j.payload) w.taken);
    runs = ap (λ (j : Job N). j.status) w.taken;
    counted = ap (λ (j : Job N). j.attempts) w.taken ∙ omega arith;
    locked = (ap (λ (j : Job N). j.locked_by) w.taken, ap (λ (j : Job N). j.locked_at) w.taken);
  }

  not_due : (j : Job N) → (is_due now j && not (skipped j.id)) ≡ false → IsLeft j
  not_due j other = ground arith

  claim-IsLeft :
      (room : ℕ) (js : List (Job N))
      → (length (claim now worker skipped room js).1 ≡ room)
        ⊎ All IsLeft (claim now worker skipped room js).0
  unfolding claim
  claim-IsLeft room [] = inr tt
  claim-IsLeft zero (j ∷ js) = inl refl
  claim-IsLeft (suc room) (j ∷ js) = elim (Bool-cases (is_due now j && not (skipped j.id))) [
    | inl due ↦ elim (claim-IsLeft room js) [
      | inl filled ↦ inl (rw (due, length) (ap suc filled))
      | inr left ↦ inr (rw (due, All) (inl (λ e. cc), left))
    ]
    | inr other ↦ elim (claim-IsLeft (suc room) js) [
      | inl filled ↦ inl (rw (other, length) filled)
      | inr left ↦ inr (rw (other, All) (not_due j other, left))
    ]
  ]

  -- A claim takes at most a batch; each job that it takes was pending, due by its time, and not
  -- locked by another transaction, and is stored as in progress under the worker's lock with one
  -- attempt more, its work unchanged. A claim that is not a full batch leaves no such job.
  pub claim_batch-IsClaimed :
      (batch_size : ℕ) (q : Queue N)
      → (length (claim_batch now worker skipped batch_size q).1 ≤ batch_size)
        × All
            (λ c. IsClaimed q.jobs c × In c (claim_batch now worker skipped batch_size q).0.jobs)
            (claim_batch now worker skipped batch_size q).1
        × ((length (claim_batch now worker skipped batch_size q).1 ≡ batch_size)
            ⊎ All IsLeft (claim_batch now worker skipped batch_size q).0.jobs)
  unfolding claim_batch
  claim_batch-IsClaimed batch_size q = (
    length-claim-le batch_size q.jobs,
    All-of_In _ _ λ c i. (
      WasDue-IsClaimed q.jobs c (claim-WasDue batch_size q.jobs c i),
      claim-stored batch_size q.jobs c i,
    ),
    claim-IsLeft batch_size q.jobs,
  )

module _ {N : Type 0} where
  ids_above :
      (js : List (Job N)) (low next : ℕ) (j : Job N) → IdsFrom low next js → In j js → low ≤ j.id
  ids_above [] low next j ids i = absurd i
  ids_above (k ∷ js) low next j (h, ids) (inl e) = ground arith
  ids_above (k ∷ js) low next j (h, ids) (inr i) =
      omega (arith, ids_above js (suc k.id) next j ids i)

  -- In a valid queue an id names one row.
  pub eq_of_id :
      (js : List (Job N)) (low next : ℕ) (a b : Job N)
      → IdsFrom low next js
      → In a js
      → In b js
      → a.id ≡ b.id
      → a ≡ b
  eq_of_id [] low next a b ids i j e = absurd i
  eq_of_id (k ∷ js) low next a b (h, ids) (inl p) (inl q) e = cc
  eq_of_id (k ∷ js) low next a b (h, ids) (inl p) (inr j) e =
      let above = ids_above js (suc k.id) next b ids j in absurd (ground arith)
  eq_of_id (k ∷ js) low next a b (h, ids) (inr i) (inl q) e =
      let above = ids_above js (suc k.id) next a ids i in absurd (ground arith)
  eq_of_id (k ∷ js) low next a b (h, ids) (inr i) (inr j) e =
      eq_of_id js (suc k.id) next a b ids i j e

-- Two claims in a row on a valid queue, by any workers at any times, take no job twice.
pub claim_batch-exclusive :
    {N : Type 0} (now1 now2 : ℕ) (worker1 worker2 : String) (skipped1 skipped2 : ℕ → Bool)
    (size1 size2 : ℕ) (q : Queue N) (a b : Job N)
    → IsValid q
    → In a (claim_batch now1 worker1 skipped1 size1 q).1
    → In b (claim_batch now2 worker2 skipped2 size2 (claim_batch now1 worker1 skipped1 size1 q).0).1
    → a.id ≢ b.id
claim_batch-exclusive now1 now2 worker1 worker2 skipped1 skipped2 size1 size2 q a b v i j e =
    let q' = (claim_batch now1 worker1 skipped1 size1 q).0 in
    let (w1, stored) = In-of_All _ a _ i (claim_batch-WasDue now1 worker1 skipped1 size1 q).1 in
    let (w2, _) = In-of_All _ b _ j (claim_batch-WasDue now2 worker2 skipped2 size2 q').1 in
    let ids = (claim_batch-IsValid now1 worker1 skipped1 size1 q v).ids in
    let same = eq_of_id q'.jobs 0 q'.next_id a w2.before ids stored w2.there (cc (e, w2.taken)) in
    absurd (grind (arith, w1.taken, w2.due, same))
