-- ===== src/Webhook.antt =====
-- services/webhook.rs: the payload that a form's webhook is sent.
pub mod Address
pub mod Delivery
use Prim.Native.String
use form_respondent_role.Prelude.{String, [], ◌∷◌, Option, none, some}
use form_respondent_role.Prelude.Int.{ℤ}
use form_respondent_role.Text.Decimal.{print_i64}
use form_respondent_role.Json.{Value, null, str, number, obj, of_entries, Host}

infixr 60 ◌&◌
abbrev pub ◌&◌ : String → String → String
a & b = String.◌++◌ a b

-- `format!("\nScore: {s}")`, where there is a score.
abbrev pub score_line : Option ℤ → String
score_line none = ""
score_line (some s) = "\nScore: " & print_i64 s

abbrev pub content :
    (form_title form_slug member_name discord_id : String) → Option ℤ → (base_url : String) → String
content form_title form_slug member_name discord_id total_score base_url =
    "**New submission to \""
    & form_title
    & "\"**\nFrom: <@"
    & discord_id
    & "> ("
    & member_name
    & ")"
    & score_line total_score
    & "\n"
    & base_url
    & "/f/"
    & form_slug

module _ (h : Host) where
  open h use {Number}

  abbrev pub score_value : Option ℤ → Value Number
  score_value none = null
  score_value (some s) = number (h.of_i64 s)

  -- `submitted_at` is the text of the time.
  unfoldable pub build_payload :
      (form_title form_slug member_name discord_id response_id : String)
      → Option ℤ
      → (base_url submitted_at : String) → Value Number
  build_payload form_title form_slug member_name discord_id response_id total_score base_url
        submitted_at =
      obj (
        of_entries (
          (
            "content",
            str (content form_title form_slug member_name discord_id total_score base_url),
          )
          ∷ ("form_title", str form_title)
          ∷ ("form_slug", str form_slug)
          ∷ ("member_name", str member_name)
          ∷ ("discord_id", str discord_id)
          ∷ ("response_id", str response_id)
          ∷ ("total_score", score_value total_score)
          ∷ ("submitted_at", str submitted_at)
          ∷ []))
