-- ===== src/Worker/Payloads.antt =====
-- What the queue writes, the worker reads back.
use form_respondent_role.Prelude.{
  ℕ, String, Bool, true, false, [], ◌∷◌, Result, ◌≡◌, sym, ap, if◌then◌else◌, ◌⊎◌, refl, inl, inr,
  In, All, All-of_In, In-append,
}
use form_respondent_role.Json.{Value, str, obj, of_entries, Host}
use form_respondent_role.Json.Map.{lookup}
use form_respondent_role.Jobs.{
  Job, Queue, JobKind, config_sync, webhook, as_str, from_db, enqueue, enqueue_player_sync,
  player_payload, enqueue_config_sync, link_payload, enqueue_webhook,
}
use form_respondent_role.Worker.{
  Work, sync_player, remove_player, sync_link, deliver, JobError, dispatch, read_work, read_player,
}

module _ (h : Host) (perform : Work h.Number → Result (Unit {0}) JobError) where
  open h use {Number}

  -- Every row is an old one, or runs as the given work.
  abbrev pub Runs : Queue Number → Work Number → Queue Number → Type 0
  Runs q work after = All (λ j. In j q.jobs ⊎ (dispatch perform j ≡ perform work)) after.jobs

  enqueue-Runs :
      (now : ℕ) (kind : JobKind) (payload : Value Number) (delay : ℕ) (q : Queue Number)
      (work : Work Number)
      → ((j : Job Number)
          → j.kind ≡ as_str kind
          → j.payload ≡ payload
          → dispatch perform j ≡ perform work)
      → Runs q work (enqueue now kind payload delay q)
  unfolding enqueue
  enqueue-Runs now kind payload delay q work reads = All-of_In _ _ λ j i.
      elim ((In-append j q.jobs _).0 i) [
        | inl old ↦ inl old
        | inr (inl e) ↦ inr (
            reads j (sym (ap (λ (k : Job Number). k.kind) e))
              (sym (ap (λ (k : Job Number). k.payload) e)))
        | inr (inr none') ↦ absurd none'
      ]

  pub reads_player :
      (unlinked : Bool) (id : String) (j : Job Number)
      → j.kind ≡ "player_sync"
      → j.payload ≡ player_payload h unlinked id
      → dispatch perform j ≡ perform (if unlinked then remove_player id else sync_player id)
  unfolding dispatch from_db player_payload read_work read_player lookup
  reads_player true id j k p = rw (k, p) refl
  reads_player false id j k p = rw (k, p) refl

  pub reads_link :
      (guild_id role_id : String) (j : Job Number)
      → j.kind ≡ "config_sync"
      → j.payload ≡ link_payload h guild_id role_id
      → dispatch perform j ≡ perform (sync_link guild_id role_id)
  unfolding dispatch from_db read_work lookup
  reads_link guild_id role_id j k p = rw (k, p) refl

  pub reads_webhook :
      (url : String) (body : Value Number) (j : Job Number)
      → j.kind ≡ "webhook"
      → j.payload ≡ obj (of_entries (("url", str url) ∷ ("body", body) ∷ []))
      → dispatch perform j ≡ perform (deliver url body)
  unfolding dispatch from_db read_work lookup
  reads_webhook url body j k p = rw (k, p) refl

  -- The worker reads back what the enqueue helpers for a member, a link without a check for a
  -- waiting one, and a webhook wrote: every row of the queue
  -- after it is an old row, or one whose dispatch performs the member's synchronisation or
  -- removal, the link's synchronisation, or the delivery of the body to the address, as asked.
  pub dispatch-enqueued :
      (now : ℕ) (unlinked : Bool) (id guild_id role_id url : String) (body : Value Number)
      (q : Queue Number)
      → Runs q
          (if unlinked then remove_player id else sync_player id)
          (enqueue_player_sync h now unlinked id q)
        × Runs q (sync_link guild_id role_id) (enqueue_config_sync h now guild_id role_id q)
        × Runs q (deliver url body) (enqueue_webhook h now url body q)
  unfolding enqueue_player_sync enqueue_config_sync enqueue_webhook as_str
  dispatch-enqueued now unlinked id guild_id role_id url body q = (
    enqueue-Runs now JobKind.player_sync _ 0 q _ (reads_player unlinked id),
    enqueue-Runs now config_sync _ 5 q _ (reads_link guild_id role_id),
    enqueue-Runs now webhook _ 0 q _ (reads_webhook url body),
  )
