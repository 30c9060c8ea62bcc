-- ===== src/Admin/Removal/Laws.antt =====
-- What a deletion leaves: nothing of the form, and a job for each link that was bound to it.
use form_respondent_role.Prelude.{
  ℕ, String, Bool, false, not, List, [], ◌∷◌, map, some, Result, ok, any, keep, In, All, Bool-cases,
  Result-cases, ◌≡◌, refl, inl, inr, arith,
}
use form_respondent_role.Json.{Host}
use form_respondent_role.Jobs.{Job, Queue, config_sync, as_str, enqueue_config_sync}
use form_respondent_role.Worker.{Work, sync_link, JobError, dispatch}
use form_respondent_role.Worker.Payloads.{reads_link}
use form_respondent_role.Jobs.Enqueued.{enqueue-In, enqueue-keeps}
use form_respondent_role.Sync.{RoleLink}
use form_respondent_role.Admin.{Tables, Credentials, AdminService, is_form, owns, require_writer}
use form_respondent_role.Admin.Forms.{is_bound, sync_links}
use form_respondent_role.Admin.Removal.{is_of, unbind, erase, delete_form}

any-keep-not : {A : Type 0} (p : A → Bool) (xs : List A) → any p (keep (λ x. not (p x)) xs) ≡ false
any-keep-not p [] = refl
any-keep-not p (x ∷ xs) = ground (arith, any-keep-not p xs)

unbind-free :
    {N : Type 0} (form_id : String) (l : RoleLink N) → is_bound form_id (unbind form_id l) ≡ false
unfolding unbind
unbind-free form_id l = elim (Bool-cases (is_bound form_id l)) [
  | inl bound ↦ rw bound refl
  | inr free ↦ rw free free
]

any-unbind :
    {N : Type 0} (form_id : String) (ls : List (RoleLink N))
    → any (is_bound form_id) (map (unbind form_id) ls) ≡ false
any-unbind form_id [] = refl
any-unbind form_id (l ∷ ls) = rw (unbind-free form_id l) (any-unbind form_id ls)

module _ (h : Host) (a : AdminService h) (now queue_now : ℕ) where
  open h use {Number}

  -- A job of the queue synchronises the link.
  abbrev pub IsSynced :
      (perform : Work Number → Result (Unit {0}) JobError) → Queue Number → RoleLink Number → Type 0
  IsSynced perform q l =
      (j : Job Number) × In j q.jobs
      × (dispatch perform j ≡ perform (sync_link l.guild_id l.role_id))

  sync_links-keeps :
      (links : List (RoleLink Number)) (q : Queue Number) (j : Job Number)
      → In j q.jobs
      → In j (sync_links h a now queue_now links q).jobs
  unfolding sync_links enqueue_config_sync
  sync_links-keeps [] q j i = i
  sync_links-keeps (l ∷ links) q j i =
      sync_links-keeps links (enqueue_config_sync h queue_now l.guild_id l.role_id q) j
        (enqueue-keeps queue_now config_sync _ 5 q j i)

  pub sync_links-IsSynced :
      (perform : Work Number → Result (Unit {0}) JobError) (links : List (RoleLink Number))
      (q : Queue Number)
      → All (IsSynced perform (sync_links h a now queue_now links q)) links
  unfolding sync_links enqueue_config_sync as_str
  sync_links-IsSynced perform [] q = tt
  sync_links-IsSynced perform (l ∷ links) q =
      let after = enqueue_config_sync h queue_now l.guild_id l.role_id q in
      let (j, i, status, due, kind, payload) = enqueue-In queue_now config_sync _ 5 q in
      (
        (
          j,
          sync_links-keeps links after j i,
          reads_link h perform l.guild_id l.role_id j kind payload,
        ),
        sync_links-IsSynced perform links after,
      )

  -- A form that is deleted under the canonical text of its id, as the rows have it, leaves no
  -- response, no bound link and no form of the guild under that id; and the queue then has, for
  -- each link that was bound to it, a job that synchronises the link.
  pub delete_form-clean :
      (perform : Work Number → Result (Unit {0}) JobError) (c : Credentials)
      (guild_id form_id : String) (t after : Tables Number)
      → a.parse_uuid form_id ≡ some form_id
      → delete_form h a now queue_now c guild_id form_id t ≡ ok after
      → (any (is_of form_id) after.responses ≡ false)
        × (any (is_bound form_id) after.links ≡ false)
        × (owns form_id guild_id after ≡ false)
        × All (IsSynced perform after.queue) (keep (is_bound form_id) t.links)
  unfolding delete_form erase
  delete_form-clean perform c guild_id form_id t after canonical e =
      elim (Result-cases (require_writer h a now c guild_id)) [
        | inr (x, refused) ↦ absurd (ground arith)
        | inl (caller, allowed) ↦ elim (Bool-cases (owns form_id guild_id t)) [
          | inr missing ↦ absurd (ground arith)
          | inl there ↦
              let same : record (erase h a now queue_now form_id guild_id form_id t) {
                queue = sync_links h a now queue_now (keep (is_bound form_id) t.links) t.queue;
              }
                  ≡ after =
                ground arith in
              rw (← same) (
                any-keep-not (is_of form_id) t.responses,
                any-unbind form_id t.links,
                any-keep-not (is_form form_id guild_id) t.forms,
                sync_links-IsSynced perform (keep (is_bound form_id) t.links) t.queue,
              )
        ]
      ]
