-- ===== src/Admin/Copies.antt =====
-- routes/admin.rs: `duplicate_form`.
use Prim.Native.String
use form_respondent_role.Prelude.{
  ℕ, zero, suc, String, false, ◌∷◌, none, Result, ok, err, ◌>>=◌, ok_or, any, find, str_eq,
  if◌then◌else◌,
}
use form_respondent_role.Prelude.Int.{pos}
use form_respondent_role.Json.{Host}
use form_respondent_role.Errors.{AppError, bad_request, not_found, internal}
use form_respondent_role.Submission.{Form}
use form_respondent_role.Admin.{Tables, Credentials, AdminService, is_form, require_writer}

module _ (h : Host) (a : AdminService h) (now : ℕ) where
  open h use {Number}

  -- The columns of a copy; the others have their defaults.
  unfoldable pub copied : (id slug preview_token : String) → Form Number → Form Number
  copied id slug preview_token f = record f {
    id = id;
    slug = slug;
    title = String.◌++◌ f.title " (copy)";
    preview_token = preview_token;
    version = pos 1;
    open_at = none;
    close_at = none;
    archived = false;
  }

  -- The loop over at most `attempts` slugs, as they are drawn; a slug that is taken is drawn anew.
  unfoldable pub insert_copy :
      (attempts : ℕ)
      → (slugs : ℕ → String) → (id preview_token : String) → Form Number
      → Tables Number
      → Result (Tables Number) AppError
  unfolding copied
  insert_copy zero slugs id preview_token f t = err (internal "slug collision after 5 attempts")
  insert_copy (suc attempts) slugs id preview_token f t =
      let again = insert_copy attempts (λ n. slugs (suc n)) id preview_token f t in
      if any (λ (g : Form Number). str_eq g.slug (slugs 0)) t.forms
      then again
      else ok (record t { forms = copied id (slugs 0) preview_token f ∷ t.forms })

  unfoldable pub duplicate_form :
      (slugs : ℕ → String)
      → (new_id preview_token : String) → Credentials
      → (guild_id form_id : String) → Tables Number
      → Result (Tables Number) AppError
  unfolding require_writer insert_copy
  duplicate_form slugs new_id preview_token c guild_id form_id t = do
    caller ← require_writer h a now c guild_id
    id ← ok_or (a.parse_uuid form_id) (bad_request "Invalid form id.")
    source ← ok_or (find (is_form id guild_id) t.forms) (not_found "Form not found.")
    insert_copy 5 slugs new_id preview_token source t
