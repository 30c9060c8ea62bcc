-- ===== src/Admin/Removal.antt =====
-- routes/admin.rs: `delete_form`, `delete_response` and `delete_all_responses`.
pub mod Laws
use form_respondent_role.Prelude.{
  ℕ, String, Bool, true, false, not, ◌&&◌, List, [], ◌∷◌, map, Option, none, some, Result, ok, err,
  ◌>>=◌, ◌>>◌, ok_or, refuse_if, keep, find, length, str_eq, map_or, if◌then◌else◌,
}
use form_respondent_role.Json.{Host}
use form_respondent_role.Errors.{AppError, bad_request, not_found}
use form_respondent_role.Jobs.{enqueue_player_sync}
use form_respondent_role.Sync.{RoleLink}
use form_respondent_role.Submission.{Form, StoredResponse}
use form_respondent_role.Admin.{Tables, Credentials, AdminService, is_form, owns, require_writer}
use form_respondent_role.Admin.Forms.{is_bound, sync_links}

module _ {N : Type 0} where
  -- `form_id = …` of a response, by the text of the request.
  abbrev pub is_of : (form_id : String) → StoredResponse N → Bool
  is_of form_id r = str_eq r.response.form_id form_id

  -- `UPDATE role_links SET form_id = NULL`.
  unfoldable pub unbind : (form_id : String) → RoleLink N → RoleLink N
  unbind form_id l = if is_bound form_id l then record l { form_id = none } else l

  -- The response that is deleted: `id = … AND form_id = …`.
  abbrev pub is_response : (id form_id : String) → StoredResponse N → Bool
  is_response id form_id r = str_eq r.id id && is_of form_id r

module _ (h : Host) (a : AdminService h) (now queue_now : ℕ) where
  open h use {Number}

  -- The transaction: the links are unbound, the responses and the form deleted. The form goes by
  -- the UUID that was read, the links and the responses by the text of the request.
  unfoldable pub erase : (id guild_id form_id : String) → Tables Number → Tables Number
  unfolding unbind
  erase id guild_id form_id t = record t {
    links = map (unbind form_id) t.links;
    responses = keep (λ r. not (is_of form_id r)) t.responses;
    forms = keep (λ f. not (is_form id guild_id f)) t.forms;
  }

  unfoldable pub delete_form :
      Credentials → (guild_id form_id : String) → Tables Number → Result (Tables Number) AppError
  unfolding require_writer erase sync_links
  delete_form c guild_id form_id t = do
    caller ← require_writer h a now c guild_id
    id ← ok_or (a.parse_uuid form_id) (bad_request "Invalid form id.")
    refuse_if (not (owns id guild_id t)) (not_found "Form not found.")
    ok (record (erase id guild_id form_id t) {
      queue = sync_links h a now queue_now (keep (is_bound form_id) t.links) t.queue;
    })

  -- The member whose response is deleted is synchronised.
  unfoldable pub delete_response :
      Credentials
      → (guild_id form_id response_id : String) → Tables Number
      → Result (String × Tables Number) AppError
  unfolding require_writer enqueue_player_sync
  delete_response c guild_id form_id response_id t = do
    caller ← require_writer h a now c guild_id
    id ← ok_or (a.parse_uuid form_id) (bad_request "Invalid form id.")
    row_id ← ok_or (a.parse_uuid response_id) (bad_request "Invalid response id.")
    refuse_if (not (owns id guild_id t)) (not_found "Form not found.")
    deleted ←
        ok_or (find (is_response row_id form_id) t.responses) (not_found "Response not found.")
    ok (
      deleted.response.discord_id,
      record t {
        responses = keep (λ r. not (is_response row_id form_id r)) t.responses;
        queue = enqueue_player_sync h queue_now false deleted.response.discord_id t.queue;
      },
    )

  -- With the number of the responses that are deleted.
  unfoldable pub delete_all_responses :
      Credentials
      → (guild_id form_id : String) → Tables Number
      → Result (ℕ × Tables Number) AppError
  unfolding require_writer sync_links
  delete_all_responses c guild_id form_id t = do
    caller ← require_writer h a now c guild_id
    id ← ok_or (a.parse_uuid form_id) (bad_request "Invalid form id.")
    refuse_if (not (owns id guild_id t)) (not_found "Form not found.")
    ok (
      length (keep (is_of form_id) t.responses),
      record t {
        responses = keep (λ r. not (is_of form_id r)) t.responses;
        queue = sync_links h a now queue_now (keep (is_bound form_id) t.links) t.queue;
      },
    )
