-- ===== src/Json.antt =====
-- serde_json's `Value`, its accessors, and the code outside the repository that the program
-- computes with: numbers, floats, regular expressions and dates are parameters of the model.
pub mod Map
use form_respondent_role.Prelude.{
  String, Bool, List, [], ◌∷◌, Option, none, some, and_then, true, false,
}
use form_respondent_role.Prelude.Int.{ℤ}
use Map.{lookup}

mutual
  pub data Value (N : Type 0) : Type 0 where
    null : Value N
    bool : Bool → Value N
    number : N → Value N
    str : String → Value N
    arr : Items N → Value N
    obj : Fields N → Value N

  pub data Items (N : Type 0) : Type 0 where
    nil : Items N
    cons : Value N → Items N → Items N

  pub data Fields (N : Type 0) : Type 0 where
    end : Fields N
    field : String → Value N → Fields N → Fields N

-- What the standard library and other crates give: `f64`, `serde_json::Number`, `regex`, `chrono`,
-- and the Unicode tables behind `to_lowercase`.
pub record Host : Type 1 where
  pub Float : Type 0
  pub Number : Type 0
  pub Date : Type 0
  pub DateTime : Type 0
  pub as_i64 : Number → Option ℤ
  pub as_f64 : Number → Option Float
  pub of_i64 : ℤ → Number
  pub number_text : Number → String
  pub parse_f64 : String → Option Float
  -- `a < b` and `a <= b`, false where an operand is NaN
  pub f64_lt : Float → Float → Bool
  pub f64_le : Float → Float → Bool
  -- `(a - b).abs() < 1e-9`
  pub f64_near : Float → Float → Bool
  -- `a as i64`, `a.fract() == 0.0 && a.is_finite()`, `a.to_string()`
  pub f64_as_i64 : Float → ℤ
  pub f64_is_whole : Float → Bool
  pub f64_text : Float → String
  pub lowercase : String → String
  -- the matcher that `RegexBuilder` builds under the size limits, if it does
  pub regex : String → Option (String → Bool)
  pub parse_rfc3339 : String → Option DateTime
  pub parse_date : String → Option Date
  pub start_of_day : Date → DateTime
  pub date_lt : DateTime → DateTime → Bool
  -- the equality of `jsonb` values in Postgres
  pub jsonb_eq : Value Number → Value Number → Bool

module _ {N : Type 0} where
  abbrev pub items : Items N → List (Value N)
  items nil = []
  items (cons v vs) = v ∷ items vs

  abbrev pub of_items : List (Value N) → Items N
  of_items [] = nil
  of_items (v ∷ vs) = cons v (of_items vs)

  abbrev pub entries : Fields N → List (String × Value N)
  entries end = []
  entries (field k v fs) = (k, v) ∷ entries fs

  abbrev pub of_entries : List (String × Value N) → Fields N
  of_entries [] = end
  of_entries ((k, v) ∷ fs) = field k v (of_entries fs)

  abbrev pub as_str : Value N → Option String
  as_str (str s) = some s
  as_str _ = none

  abbrev pub as_array : Value N → Option (List (Value N))
  as_array (arr vs) = some (items vs)
  as_array _ = none

  abbrev pub as_object : Value N → Option (List (String × Value N))
  as_object (obj fs) = some (entries fs)
  as_object _ = none

  abbrev pub is_null : Value N → Bool
  is_null null = true
  is_null _ = false

  -- `Value::get` with a text.
  abbrev pub get : String → Value N → Option (Value N)
  get k v = and_then (as_object v) (lookup k)
