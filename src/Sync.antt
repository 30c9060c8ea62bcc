-- ===== src/Sync.antt =====
-- services/sync.rs: the tables that the two synchronisation paths read and write, and the members
-- that qualify for a role link. `from_value` stands for serde's reading of one stored condition.
pub mod Player
pub mod Link
pub mod Qualifying
pub mod Agreement
pub mod Settled
pub mod Unlinked
pub mod Converged
use form_respondent_role.Prelude.{
  ℕ, String, Bool, true, false, not, ◌&&◌, List, [], ◌∷◌, map, Option, none, some, any, keep,
  filter_map, map_or, take, str_eq, Result, if◌then◌else◌,
}
use form_respondent_role.Prelude.Int.{ℤ}
use form_respondent_role.Text.{is_empty}
use form_respondent_role.Text.Order.{insert, member}
use form_respondent_role.Json.{Value, Host, as_array}
use form_respondent_role.Models.Condition.{Condition}
use form_respondent_role.Eval.{ResponseEvalData, evaluate}
use form_respondent_role.Errors.{AppError}
use form_respondent_role.Jobs.{Queue}

pub record FormResponse (N : Type 0) : Type 0 where
  pub form_id : String
  pub guild_id : String
  pub discord_id : String
  pub answers : Value N
  pub total_score : Option ℤ  -- i32

pub record RoleLink (N : Type 0) : Type 0 where
  pub guild_id : String
  pub role_id : String
  pub api_token : String
  pub form_id : Option String
  pub grant_on_any_submission : Bool
  pub conditions : Value N

pub record RoleAssignment : Type 0 where
  pub guild_id : String
  pub role_id : String
  pub discord_id : String

pub record Db (N : Type 0) : Type 0 where
  pub responses : List (FormResponse N)
  pub links : List (RoleLink N)
  pub assignments : List RoleAssignment
  pub queue : Queue N

-- The auth gateway, which knows a member's guilds and the members who opted out of a guild, and
-- the RoleLogic API: what each call answers.
pub record Remote : Type 0 where
  pub fetch_user_guild_ids : String → Result (List String) AppError
  pub fetch_guild_optout_ids : String → Result (List String) AppError
  pub add_user : String → String → String → String → Result (Unit {0}) AppError
  pub remove_user : String → String → String → String → Result (Unit {0}) AppError
  pub upload_users : String → String → List String → String → Result (Unit {0}) AppError

-- `guild_id = … AND role_id = …`.
abbrev pub is_link : {N : Type 0} → String → String → RoleLink N → Bool
is_link guild_id role_id l = str_eq l.guild_id guild_id && str_eq l.role_id role_id

abbrev pub of_link : String → String → RoleAssignment → Bool
of_link guild_id role_id a = str_eq a.guild_id guild_id && str_eq a.role_id role_id

abbrev pub is_assignment : String → String → String → RoleAssignment → Bool
is_assignment guild_id role_id discord_id a =
    of_link guild_id role_id a && str_eq a.discord_id discord_id

abbrev pub truncate : Option ℕ → List String → List String
truncate none ids = ids
truncate (some n) ids = take n ids

module _ {N : Type 0} where
  abbrev pub response_data : FormResponse N → ResponseEvalData N
  response_data r = record { answers = r.answers; total_score = r.total_score }

  -- Deleting a link cascades to its assignments.
  unfoldable pub delete_orphan_role_link : String → String → Db N → Db N
  delete_orphan_role_link guild_id role_id db = record db {
    links = keep (λ l. not (is_link guild_id role_id l)) db.links;
    assignments = keep (λ a. not (of_link guild_id role_id a)) db.assignments;
  }

module _ (h : Host) (from_value : Value h.Number → Option (Condition h.Number)) where
  open h use {Number}

  -- The stored conditions that can be read.
  unfoldable pub stored_conditions : Value Number → List (Condition Number)
  stored_conditions raw = map_or [] (filter_map from_value) (as_array raw)

module _ (h : Host) where
  open h use {Number}

  -- The rows of the query: the form's respondents, but for the blank id and the opt-outs.
  unfoldable pub candidates :
      String → List String → List (FormResponse Number) → List (FormResponse Number)
  candidates form_id optout_ids rows =
      keep
        (λ r.
          str_eq r.form_id form_id
          && (not (is_empty r.discord_id) && not (member r.discord_id optout_ids)))
        rows

  -- One turn of the loop over the rows.
  unfoldable pub collect_row :
      Bool → List (Condition Number) → FormResponse Number → List String → List String
  collect_row grant conditions r qualifying =
      if member r.discord_id qualifying
      then qualifying
      else if evaluate h grant conditions (response_data r)
      then insert r.discord_id qualifying
      else qualifying

  unfoldable pub collect :
      Bool → List (Condition Number) → List (FormResponse Number) → List String → List String
  unfolding collect_row
  collect grant conditions [] qualifying = qualifying
  collect grant conditions (r ∷ rows) qualifying =
      collect grant conditions rows (collect_row grant conditions r qualifying)

  unfoldable pub query_qualifying :
      List (FormResponse Number)
      → String
      → List String
      → Bool
      → List (Condition Number)
      → Option ℕ
      → List String
  unfolding candidates collect
  query_qualifying responses form_id optout_ids grant conditions limit =
      truncate limit (collect grant conditions (candidates form_id optout_ids responses) [])
