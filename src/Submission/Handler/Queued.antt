-- ===== src/Submission/Handler/Queued.antt =====
-- The background work that an accepted submission leaves in the queue.
use form_respondent_role.Prelude.{
  String, false, Option, none, some, Result, ok, In, ◌≡◌, ap, ◌∙◌, arith, Bool-cases, inl, inr,
}
use form_respondent_role.Prelude.Int.{ℤ}
use form_respondent_role.Text.{is_empty, trim}
use form_respondent_role.Json.{Value, Host}
use form_respondent_role.Jobs.{
  Job, Queue, pending, as_str, player_sync, webhook, enqueue_player_sync, enqueue_webhook,
}
use form_respondent_role.Jobs.Enqueued.{enqueue-In, enqueue-keeps}
use form_respondent_role.Worker.{Work, sync_player, JobError, dispatch}
use form_respondent_role.Worker.Payloads.{reads_player}
use form_respondent_role.Submission.{Form, Store, Clock, Service}
use form_respondent_role.Submission.Persist.{Graded}
use form_respondent_role.Submission.Handler.{notify, queue_time, submit, commit}
use form_respondent_role.Submission.Handler.Accepted.{submit-IsAccepted}
use form_respondent_role.Submission.Page.Agreement.{graded_member}

module _ (h : Host) (service : Service h) (clock : Clock) (f : Form h.Number) where
  open h use {Number}

  -- The webhook's job comes after the member's, which stays.
  notify-keeps :
      (name response_id : String) (g : Graded Number) (url : Option String) (q : Queue Number)
      (j : Job Number)
      → In j q.jobs
      → In j (notify h service clock f name response_id g url q).jobs
  unfolding notify enqueue_webhook
  notify-keeps name response_id g none q j i = i
  notify-keeps name response_id g (some url) q j i = elim (Bool-cases (is_empty (trim url))) [
    | inl blank ↦ rw blank i
    | inr given ↦ rw given (enqueue-keeps _ webhook _ 0 q j i)
  ]

  -- A job that is due at once and whose run synchronises the member.
  abbrev pub IsPlayerJob :
      (perform : Work Number → Result (Unit {0}) JobError) → String → Job Number → Type 0
  IsPlayerJob perform discord_id j =
      (j.status ≡ pending)
      × (j.next_run_at ≡ queue_time h clock)
      × (dispatch perform j ≡ perform (sync_player discord_id))

  enqueued_player :
      (perform : Work Number → Result (Unit {0}) JobError) (id member : String) (q : Queue Number)
      → id ≡ member
      → (j : Job Number) × In j (enqueue_player_sync h (queue_time h clock) false id q).jobs
        × IsPlayerJob perform member j
  unfolding enqueue_player_sync as_str
  enqueued_player perform id member q mine =
      let (j, i, status, due, kind, payload) = enqueue-In (queue_time h clock) player_sync _ 0 q in
      (
        j,
        i,
        (
          status,
          due ∙ omega arith,
          reads_player h perform false id j kind payload ∙ ap (λ m. perform (sync_player m)) mine,
        ),
      )

  -- An accepted submission leaves a pending job that is due at once and whose run by the worker
  -- synchronises the member who submitted.
  pub submit-queued :
      (perform : Work Number → Result (Unit {0}) JobError) (new_id discord_id name : String)
      (answers : Value Number) (version : ℤ) (store : Store Number)
      (result : Value Number × Store Number)
      → submit h service clock new_id f discord_id name answers version store ≡ ok result
      → (j : Job Number) × In j result.1.queue.jobs × IsPlayerJob perform discord_id j
  unfolding commit
  submit-queued perform new_id discord_id name answers version store result e =
      let (g, p, admitted, graded, stored, same) =
        submit-IsAccepted h service clock new_id f discord_id name answers version store result e in
      let mine = graded_member h service f answers discord_id g graded in
      let (j, i, player) = enqueued_player perform g.discord_id discord_id store.queue mine in
      (j, rw same (notify-keeps name p.response_id g f.webhook_url _ j i), player)
