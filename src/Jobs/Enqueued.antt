-- ===== src/Jobs/Enqueued.antt =====
-- The row that `enqueue` adds, and those that it keeps.
use form_respondent_role.Prelude.{ℕ, ◌+◌, ◌*◌, inl, inr, In, In-append, ◌≡◌, refl}
use form_respondent_role.Jobs.{Job, Queue, JobKind, as_str, pending, enqueue}
use form_respondent_role.Json.{Value}

module _ {N : Type 0} where
  -- The row that was added last, and those before it.
  pub enqueue-In :
      (now : ℕ) (kind : JobKind) (payload : Value N) (delay : ℕ) (q : Queue N)
      → (j : Job N) × In j (enqueue now kind payload delay q).jobs
        × (j.status ≡ pending)
        × (j.next_run_at ≡ now + delay * 1000)
        × (j.kind ≡ as_str kind)
        × (j.payload ≡ payload)
  unfolding enqueue
  enqueue-In now kind payload delay q =
      (_, (In-append _ q.jobs _).1 (inr (inl refl)), refl, refl, refl, refl)

  pub enqueue-keeps :
      (now : ℕ) (kind : JobKind) (payload : Value N) (delay : ℕ) (q : Queue N) (j : Job N)
      → In j q.jobs
      → In j (enqueue now kind payload delay q).jobs
  unfolding enqueue
  enqueue-keeps now kind payload delay q j i = (In-append j q.jobs _).1 (inl i)
