-- ===== src/Json/Map.antt =====
-- `serde_json::Map`: an association list with one entry for a key.
use form_respondent_role.Prelude.{
  String, true, false, List, [], ◌∷◌, Option, none, some, ◌≡◌, refl, arith, str_eq, str_eq_iff,
  if◌then◌else◌,
}

module _ {ℓ} {V : Type ℓ} where
  -- `Map::get`.
  unfoldable pub lookup : String → List (String × V) → Option V
  lookup key [] = none
  lookup key ((name, value) ∷ rest) = if str_eq name key then some value else lookup key rest

  -- `Map::insert`, which replaces the value of a key that is there.
  unfoldable pub insert : String → V → List (String × V) → List (String × V)
  insert key value [] = (key, value) ∷ []
  insert key value ((name, old) ∷ rest) =
      let later = insert key value rest in
      elim (str_eq name key) [ true ↦ (key, value) ∷ rest | false ↦ (name, old) ∷ later ]

  pub lookup-insert :
      (key asked : String) (value : V) (fields : List (String × V))
      → lookup asked (insert key value fields)
        ≡ (if str_eq key asked then some value else lookup asked fields)
  unfolding lookup insert
  lookup-insert key asked value [] = refl
  lookup-insert key asked value ((name, old) ∷ rest) = ground (
    arith,
    str_eq_iff key asked,
    str_eq_iff name key,
    str_eq_iff name asked,
    lookup-insert key asked value rest,
  )
