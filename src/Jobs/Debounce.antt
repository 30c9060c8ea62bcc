-- ===== src/Jobs/Debounce.antt =====
-- A re-check of a held link that waits is not queued again.
use form_respondent_role.Prelude.{
  ℕ, String, Bool, true, ◌||◌, List, [], ◌∷◌, ◌++◌, any, ◌≡◌, refl, inl, inr, arith, Bool-cases,
}
use form_respondent_role.Json.{Host}
use form_respondent_role.Jobs.{
  Queue, as_str, enqueue, link_payload, is_queued, enqueue_config_sync_unless_queued,
}

any-append :
    {A : Type 0} (p : A → Bool) (xs ys : List A) → any p (xs ++ ys) ≡ (any p xs || any p ys)
any-append p [] ys = refl
any-append p (x ∷ xs) ys = ground (arith, any-append p xs ys)

module _ (h : Host) (guild_id role_id : String) where
  abbrev waits : Queue h.Number → Bool
  waits q = any (is_queued h (link_payload h guild_id role_id)) q.jobs

  unless_queued_waiting :
      (later delay : ℕ) (q : Queue h.Number)
      → waits q ≡ true
      → enqueue_config_sync_unless_queued h later guild_id role_id delay q ≡ q
  unfolding enqueue_config_sync_unless_queued
  unless_queued_waiting later delay q waiting = rw waiting refl

  unless_queued_waits :
      (now delay : ℕ) (q : Queue h.Number)
      → h.jsonb_eq (link_payload h guild_id role_id) (link_payload h guild_id role_id) ≡ true
      → waits (enqueue_config_sync_unless_queued h now guild_id role_id delay q) ≡ true
  unfolding enqueue_config_sync_unless_queued enqueue as_str
  unless_queued_waits now delay q same = elim (Bool-cases (waits q)) [
    | inl waiting ↦ rw waiting waiting
    | inr free ↦
        rw (free, any-append (is_queued h (link_payload h guild_id role_id)) q.jobs _) ground arith
  ]

  -- After a re-check of a link was asked for, a second request, at any time and with any delay,
  -- leaves the queue as it is, given that `jsonb` holds the link's payload equal to itself.
  pub unless_queued_twice :
      (now later delay delay' : ℕ) (q : Queue h.Number)
      → h.jsonb_eq (link_payload h guild_id role_id) (link_payload h guild_id role_id) ≡ true
      → enqueue_config_sync_unless_queued h later guild_id role_id delay'
          (enqueue_config_sync_unless_queued h now guild_id role_id delay q)
        ≡ enqueue_config_sync_unless_queued h now guild_id role_id delay q
  unless_queued_twice now later delay delay' q same =
      unless_queued_waiting later delay' _ (unless_queued_waits now delay q same)
