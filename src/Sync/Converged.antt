-- ===== src/Sync/Converged.antt =====
-- After the synchronisation of a member, with every call accepted, each link is as it should be.
use form_respondent_role.Prelude.{
  String, Bool, true, false, not, List, [], ◌∷◌, Option, none, some, ok, ◌≡◌, ◌⊎◌, refl, sym, ap,
  ◌∙◌, inl, inr, arith, In, keep, keep_iff, filter_map, str_eq_iff, if◌then◌else◌, Bool-cases,
  Option-cases, Result-cases,
}
use form_respondent_role.Json.{Value, Host}
use form_respondent_role.Models.Condition.{Condition}
use form_respondent_role.Sync.{RoleLink, RoleAssignment, Db, Remote, is_link, is_assignment}
use form_respondent_role.Sync.Player.{
  Action, add, remove, is_assigned, choose, perform, perform_all, plan, plan_link, player_links,
  qualifies, sync_for_player,
}

-- RoleLogic accepts every change for the member.
abbrev pub AcceptsChanges : Remote → String → Type 0
AcceptsChanges remote id =
    ((g r t : String) → remote.add_user g r id t ≡ ok tt)
    × ((g r t : String) → remote.remove_user g r id t ≡ ok tt)

-- The primary key of the links.
abbrev pub HasUniqueKeys : {N : Type 0} → List (RoleLink N) → Type 0
HasUniqueKeys [] = Unit
HasUniqueKeys (l ∷ ls) =
    ((m : RoleLink _) → In m ls → is_link l.guild_id l.role_id m ≡ false) × HasUniqueKeys ls

module _ {A B : Type 0} (f : A → Option B) (x : A) (xs : List A) where
  filter_map-none : f x ≡ none → filter_map f (x ∷ xs) ≡ filter_map f xs
  filter_map-none e = ground arith

  filter_map-some : (b : B) → f x ≡ some b → filter_map f (x ∷ xs) ≡ b ∷ filter_map f xs
  filter_map-some b e = ground arith

module _ {N : Type 0} (g r id : String) where
  -- What an action does to the assignment of the role (g, r).
  abbrev effect : Option (Action N) → Bool → Bool
  effect none b = b
  effect (some (add l)) b = if is_link g r l then true else b
  effect (some (remove l)) b = if is_link g r l then false else b

  same_key :
      (l : RoleLink N) (rows : List RoleAssignment)
      → is_link g r l ≡ true
      → is_assigned l.guild_id l.role_id id rows ≡ is_assigned g r id rows
  same_key l rows e =
      let a : l.guild_id ≡ g = ground (arith, str_eq_iff l.guild_id g) in
      let b : l.role_id ≡ r = ground (arith, str_eq_iff l.role_id r) in rw (a, b) refl

  kept_effect :
      (l : RoleLink N) (rows : List RoleAssignment)
      → is_assigned g r id (keep (λ a. not (is_assignment l.guild_id l.role_id id a)) rows)
        ≡ effect (some (remove l)) (is_assigned g r id rows)
  kept_effect l [] = ground arith
  kept_effect l (a ∷ rows) = ground (
    arith,
    kept_effect l rows,
    str_eq_iff a.guild_id g,
    str_eq_iff a.guild_id l.guild_id,
    str_eq_iff l.guild_id g,
    str_eq_iff a.role_id r,
    str_eq_iff a.role_id l.role_id,
    str_eq_iff l.role_id r,
  )

  module _ (remote : Remote) where
    perform-effect :
        (a : Action N) (d : Db N)
        → AcceptsChanges remote id
        → is_assigned g r id (perform remote id a d).assignments
          ≡ effect (some a) (is_assigned g r id d.assignments)
    unfolding perform
    perform-effect (add l) d (yes', _) =
        rw (yes' l.guild_id l.role_id l.api_token) ground
          (arith, same_key l d.assignments, str_eq_iff id id)
    perform-effect (remove l) d (_, yes') =
        rw (yes' l.guild_id l.role_id l.api_token) (kept_effect l d.assignments)

module _ (h : Host) (from_value : Value h.Number → Option (Condition h.Number)) (remote : Remote)
    (id : String) (db : Db h.Number) where
  open h use {Number}

  -- The action planned for a link, over the tables before the first action.
  abbrev planned : RoleLink Number → Option (Action Number)
  planned l = plan_link h from_value (remote.fetch_guild_optout_ids l.guild_id) db id l

  planned_own :
      (l : RoleLink Number)
      → (planned l ≡ none) ⊎ ((planned l ≡ some (add l)) ⊎ (planned l ≡ some (remove l)))
  unfolding plan_link
  planned_own l = elim (Result-cases (remote.fetch_guild_optout_ids l.guild_id)) [
    | inr (e, f) ↦ rw f (inl refl)
    | inl (ids, f) ↦ rw f ground arith
  ]

  plan_idle :
      (l : RoleLink Number) (ls : List (RoleLink Number))
      → planned l ≡ none
      → plan h from_value remote db id (l ∷ ls) ≡ plan h from_value remote db id ls
  unfolding plan
  plan_idle l ls idle = filter_map-none planned l ls idle

  plan_acts :
      (l : RoleLink Number) (ls : List (RoleLink Number)) (a : Action Number)
      → planned l ≡ some a
      → plan h from_value remote db id (l ∷ ls) ≡ a ∷ plan h from_value remote db id ls
  unfolding plan
  plan_acts l ls a acts = filter_map-some planned l ls a acts

  module _ (g r : String) where
    abbrev after_links : List (RoleLink Number) → Bool → Bool
    after_links [] b = b
    after_links (l ∷ ls) b = after_links ls (effect g r id (planned l) b)

    plan_nil :
        (d : Db Number)
        → is_assigned g r id
            (perform_all remote id (plan h from_value remote db id []) d).assignments
          ≡ is_assigned g r id d.assignments
    unfolding perform_all plan
    plan_nil d = refl

    perform_all-effect :
        (ls : List (RoleLink Number)) (d : Db Number)
        → AcceptsChanges remote id
        → is_assigned g r id
            (perform_all remote id (plan h from_value remote db id ls) d).assignments
          ≡ after_links ls (is_assigned g r id d.assignments)
    unfolding perform_all
    perform_all-effect [] d accepted = plan_nil d
    perform_all-effect (l ∷ ls) d accepted = elim (Option-cases (planned l)) [
      | inl idle ↦
          ap (λ acts. is_assigned g r id (perform_all remote id acts d).assignments)
            (plan_idle l ls idle)
          ∙ (perform_all-effect ls d accepted
              ∙ ap (λ o. after_links ls (effect g r id o (is_assigned g r id d.assignments)))
                  (sym idle))
      | inr (a, acts) ↦
          ap (λ acts. is_assigned g r id (perform_all remote id acts d).assignments)
            (plan_acts l ls a acts)
          ∙ (perform_all-effect ls (perform remote id a d) accepted
              ∙ (ap (after_links ls) (perform-effect g r id remote a d accepted)
                  ∙ ap (λ o. after_links ls (effect g r id o (is_assigned g r id d.assignments)))
                      (sym acts)))
    ]

    effect_other :
        (l : RoleLink Number) (b : Bool) → is_link g r l ≡ false → effect g r id (planned l) b ≡ b
    effect_other l b e = elim (planned_own l) [
      | inl f ↦ rw f refl
      | inr (inl f) ↦ rw (f, e) refl
      | inr (inr f) ↦ rw (f, e) refl
    ]

    after_links_other :
        (ls : List (RoleLink Number)) (b : Bool)
        → ((l : RoleLink Number) → In l ls → is_link g r l ≡ false)
        → after_links ls b ≡ b
    after_links_other [] b n = refl
    after_links_other (l ∷ ls) b n =
        ap (after_links ls) (effect_other l b (n l (inl refl)))
        ∙ after_links_other ls b (λ m i. n m (inr i))

  is_link_own : (l : RoleLink Number) → is_link l.guild_id l.role_id l ≡ true
  is_link_own l = ground (arith, str_eq_iff l.guild_id l.guild_id, str_eq_iff l.role_id l.role_id)

  is_link_comm :
      (l m : RoleLink Number)
      → is_link l.guild_id l.role_id m ≡ false
      → is_link m.guild_id m.role_id l ≡ false
  is_link_comm l m e = ground (
    arith,
    str_eq_iff l.guild_id m.guild_id,
    str_eq_iff m.guild_id l.guild_id,
    str_eq_iff l.role_id m.role_id,
    str_eq_iff m.role_id l.role_id,
  )

  effect-choose :
      (q b : Bool) (l : RoleLink Number) → effect l.guild_id l.role_id id (choose q b l) b ≡ q
  effect-choose true true l = refl
  effect-choose true false l = rw (is_link_own l) refl
  effect-choose false true l = rw (is_link_own l) refl
  effect-choose false false l = refl

  after_links_at :
      (l : RoleLink Number) (ls : List (RoleLink Number)) (q b : Bool)
      → HasUniqueKeys ls
      → In l ls
      → planned l ≡ choose q b l
      → after_links l.guild_id l.role_id ls b ≡ q
  after_links_at l [] q b u i e = absurd i
  after_links_at l (m ∷ ls) q b (n, u) (inl same) e =
      after_links_other l.guild_id l.role_id ls _ (λ k i. rw same at (n k i))
      ∙ (ap (λ k. effect l.guild_id l.role_id id (planned k) b) same
          ∙ (ap (λ a. effect l.guild_id l.role_id id a b) e ∙ effect-choose q b l))
  after_links_at l (m ∷ ls) q b (n, u) (inr i) e =
      ap (after_links l.guild_id l.role_id ls)
        (effect_other l.guild_id l.role_id m b (is_link_comm m l (n l i)))
      ∙ after_links_at l ls q b u i e

  keep-HasUniqueKeys :
      (t : RoleLink Number → Bool) (ls : List (RoleLink Number))
      → HasUniqueKeys ls
      → HasUniqueKeys (keep t ls)
  keep-HasUniqueKeys t [] u = tt
  keep-HasUniqueKeys t (l ∷ ls) (n, u) = elim (Bool-cases (t l)) [
    | inl kept ↦ rw kept ((λ m i. n m ((keep_iff t m ls).0 i).0), keep-HasUniqueKeys t ls u)
    | inr left ↦ rw left (keep-HasUniqueKeys t ls u)
  ]

  synced :
      (gateway_guilds : List String)
      → remote.fetch_user_guild_ids id ≡ ok gateway_guilds
      → (sync_for_player h from_value remote id db).0
        ≡ perform_all remote id
            (plan h from_value remote db id (player_links id gateway_guilds db))
            db
  unfolding sync_for_player
  synced gateway_guilds known = ground arith

  planned_bound :
      (l : RoleLink Number) (form_id : String) (optout_ids : List String)
      → remote.fetch_guild_optout_ids l.guild_id ≡ ok optout_ids
      → l.form_id ≡ some form_id
      → planned l
        ≡ choose
            (qualifies h from_value optout_ids db.responses l form_id id)
            (is_assigned l.guild_id l.role_id id db.assignments)
            l
  unfolding plan_link
  planned_bound l form_id optout_ids opts bound = rw (opts, bound) refl

  -- With the member's guilds and a guild's opt-outs known, every change accepted, and one link
  -- for a guild and role, the synchronisation of a member leaves the member assigned to a link of
  -- theirs that is bound to a form exactly when the member qualifies for it.
  pub sync_for_player-converges :
      (l : RoleLink Number) (form_id : String) (gateway_guilds optout_ids : List String)
      → AcceptsChanges remote id
      → HasUniqueKeys db.links
      → remote.fetch_user_guild_ids id ≡ ok gateway_guilds
      → remote.fetch_guild_optout_ids l.guild_id ≡ ok optout_ids
      → In l (player_links id gateway_guilds db)
      → l.form_id ≡ some form_id
      → is_assigned l.guild_id l.role_id id
          (sync_for_player h from_value remote id db).0.assignments
        ≡ qualifies h from_value optout_ids db.responses l form_id id
  unfolding player_links
  sync_for_player-converges l form_id gateway_guilds optout_ids accepted u known opts i bound =
      ap (λ d. is_assigned l.guild_id l.role_id id d.assignments) (synced gateway_guilds known)
      ∙ (perform_all-effect l.guild_id l.role_id (player_links id gateway_guilds db) db accepted
          ∙ after_links_at l _ _ _ (keep-HasUniqueKeys _ db.links u) i
              (planned_bound l form_id optout_ids opts bound))
