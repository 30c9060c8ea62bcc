-- ===== src/Tests/Uploads.antt =====
-- An upload to RoleLogic, and the theorem on uploads at work on it.
use form_respondent_role.Prelude.{none, ok, [], ◌∷◌}
use form_respondent_role.Json.{null}
use form_respondent_role.RoleLogic.{Client}
use form_respondent_role.RoleLogic.Upload.{upload_users}
use form_respondent_role.RoleLogic.Upload.Whole.{IsUpload, upload_users-IsUpload}
use form_respondent_role.Tests.Data.{whole_host}

abbrev calm_client : Client whole_host
calm_client = record {
  base_url = "https://rolelogic";
  guild_id = "g1";
  role_id = "r1";
  send = λ past call. ok (record { status = 200; body = "{}" });
  json = λ text. ok null;
  as_u64 = λ n. none;
  status_text = λ status. "";
}

upload_users-IsUpload_example :
    IsUpload calm_client ("u1" ∷ "u2" ∷ []) (upload_users calm_client ("u1" ∷ "u2" ∷ []))
upload_users-IsUpload_example = upload_users-IsUpload calm_client ("u1" ∷ "u2" ∷ [])
