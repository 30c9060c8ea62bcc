-- ===== src/Tests/Data.antt =====
-- Concrete values for the parameters, and small tables.
use form_respondent_role.Prelude.{
  Bool, List, ℕ, String, true, false, [], ◌∷◌, Option, ◌&&◌, none, some, ok, ltb, str_eq,
  if◌then◌else◌,
}
use form_respondent_role.Prelude.Int.{ℤ, pos, ltb_ℤ, leb_ℤ, eqb_ℤ}
use form_respondent_role.Text.Decimal.{parse_i64, print_i64}
use form_respondent_role.Json.{
  Value, null, str, arr, obj, nil, cons, Fields, entries, end, field, Host,
}
use form_respondent_role.Models.Condition.{Condition, question, eq}
use form_respondent_role.Models.Form.{Question, FormSchema, short_text, default_settings}
use form_respondent_role.Tokens.{Crypto}
use form_respondent_role.Sync.{FormResponse, RoleLink, Db, Remote}

-- Whole numbers stand for every number, and two known texts for the dates.
abbrev known_date : String → Option ℕ
known_date s =
    if str_eq s "2024-05-01" then some 1 else if str_eq s "2024-05-02" then some 2 else none

-- Equality of texts, and of objects of texts.
abbrev same_text : Value ℤ → Value ℤ → Bool
same_text (str s) (str t) = str_eq s t
same_text _ _ = false

abbrev same_entries : List (String × Value ℤ) → List (String × Value ℤ) → Bool
same_entries [] [] = true
same_entries ((k, v) ∷ m) ((j, w) ∷ n) = str_eq k j && (same_text v w && same_entries m n)
same_entries _ _ = false

abbrev same_value : Value ℤ → Value ℤ → Bool
same_value (obj fs) (obj gs) = same_entries (entries fs) (entries gs)
same_value v w = same_text v w

abbrev pub whole_host : Host
whole_host = record {
  Float = ℤ;
  Number = ℤ;
  Date = ℕ;
  DateTime = ℕ;
  as_i64 = λ n. some n;
  as_f64 = λ n. some n;
  of_i64 = λ n. n;
  number_text = λ n. print_i64 n;
  parse_f64 = λ s. parse_i64 s;
  f64_lt = λ a b. ltb_ℤ a b;
  f64_le = λ a b. leb_ℤ a b;
  f64_near = λ a b. eqb_ℤ a b;
  f64_as_i64 = λ a. a;
  f64_is_whole = λ a. true;
  f64_text = λ a. print_i64 a;
  lowercase = λ s. s;
  regex = λ p. if str_eq p "(" then none else some (λ s. str_eq s p);
  parse_rfc3339 = λ s. none;
  parse_date = λ s. known_date s;
  start_of_day = λ d. d;
  date_lt = λ a b. ltb a b;
  jsonb_eq = λ v w. same_value v w;
}

abbrev pub said_yes : Condition ℤ
said_yes = record { target = question "q1"; operator = eq; value = str "yes"; value_end = none }

-- The stored form of the one condition.
abbrev pub read_condition : Value ℤ → Option (Condition ℤ)
read_condition null = some said_yes
read_condition _ = none

abbrev pub yes_fields : Fields ℤ
yes_fields = field "q1" (str "yes") end

abbrev pub yes_row : FormResponse ℤ
yes_row = record {
  form_id = "f1";
  guild_id = "g1";
  discord_id = "u1";
  answers = obj yes_fields;
  total_score = none;
}

abbrev pub no_row : FormResponse ℤ
no_row = record {
  form_id = "f1";
  guild_id = "g1";
  discord_id = "u2";
  answers = obj (field "q1" (str "no") end);
  total_score = none;
}

abbrev pub yes_link : RoleLink ℤ
yes_link = record {
  guild_id = "g1";
  role_id = "r1";
  api_token = "t";
  form_id = some "f1";
  grant_on_any_submission = false;
  conditions = arr (cons null nil);
}

abbrev pub small_db : Db ℤ
small_db = record {
  responses = no_row ∷ yes_row ∷ [];
  links = yes_link ∷ [];
  assignments = record { guild_id = "g1"; role_id = "r1"; discord_id = "u2" } ∷ [];
  queue = record { jobs = []; next_id = 0 };
}

-- Every call succeeds, and nobody has opted out.
abbrev pub calm_remote : Remote
calm_remote = record {
  fetch_user_guild_ids = λ id. ok ("g1" ∷ []);
  fetch_guild_optout_ids = λ id. ok [];
  add_user = λ a b c d. ok tt;
  remove_user = λ a b c d. ok tt;
  upload_users = λ a b c d. ok tt;
}

abbrev pub name_question : Question whole_host
name_question = record {
  id = "q1";
  kind = short_text;
  title = "Name";
  description = "";
  required = true;
  max_length = none;
  min = none;
  max = none;
  options = none;
  correct = some (str "yes");
  points = some (pos 5);
  placeholder = none;
  help_text = none;
  image_url = none;
  alt_text = none;
}

abbrev pub name_form : FormSchema whole_host
name_form = record {
  title = "Sign-up";
  description = "";
  settings = default_settings;
  pages = record { id = "p1"; title = ""; description = ""; questions = name_question ∷ [] } ∷ [];
}

abbrev pub plain_crypto : Crypto
plain_crypto = record {
  hmac_hex = λ secret payload. "ab";
  url_encode = λ s. s;
  url_decode = λ s. some s;
}
