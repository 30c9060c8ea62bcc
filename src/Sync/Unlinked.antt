-- ===== src/Sync/Unlinked.antt =====
-- What the removal of a member who unlinked leaves.
use form_respondent_role.Errors.{AppError, role_link_not_found}
use form_respondent_role.Prelude.{
  sym, ap, In-append, true, Result, err, ◌≢◌, ◌↔◌, In, keep_iff, str_eq_iff, Bool-cases, inl, inr,
  flat_map, ◌&&◌, String, not, List, [], ◌∷◌, keep, ◌≡◌, refl, arith, str_eq,
}
use form_respondent_role.Sync.{
  RoleLink, RoleAssignment, Db, Remote, delete_orphan_role_link, is_link, of_link,
}
use form_respondent_role.Sync.Player.{unlink, unlink_all, assigned_links, remove_all_assignments}

same_key : (g r a b : String) → (not (str_eq a g && str_eq b r) ≡ true) ↔ (¬ ((g ≡ a) × (r ≡ b)))
same_key g r a b = elim (Bool-cases (str_eq a g && str_eq b r)) [
  | inl same ↦
      let first : a ≡ g = (str_eq_iff a g).0 (ground arith) in
      let second : b ≡ r = (str_eq_iff b r).0 (ground arith) in
      rw same (λ e. cc, λ other. absurd (other (sym first, sym second)))
  | inr other ↦ rw other (
    λ e. λ same.
        let first : str_eq a g ≡ true = (str_eq_iff a g).1 (sym same.0) in
        let second : str_eq b r ≡ true = (str_eq_iff b r).1 (sym same.1) in absurd (ground arith),
    λ e. refl,
  )
]

other_member :
    (id : String) (a : RoleAssignment) (rows : List RoleAssignment)
    → In a (keep (λ b. not (str_eq b.discord_id id)) rows) ↔ (In a rows × (a.discord_id ≢ id))
other_member id a rows =
    let (to, from) = keep_iff (λ (b : RoleAssignment). not (str_eq b.discord_id id)) a rows in
    (
      λ i.
          let (row, other) = to i in
          (
            row,
            λ same.
                let own : str_eq a.discord_id id ≡ true = (str_eq_iff a.discord_id id).1 same in
                absurd (ground arith),
          ),
      λ both. elim (Bool-cases (str_eq a.discord_id id)) [
        | inl own ↦ absurd (both.1 ((str_eq_iff a.discord_id id).0 own))
        | inr other ↦ from (both.0, ap not other)
      ],
    )

module _ {N : Type 0} (remote : Remote) (id : String) where
  unlink_all-responses :
      (links : List (RoleLink N)) (db : Db N)
      → (unlink_all remote id links db).responses ≡ db.responses
  unfolding unlink_all delete_orphan_role_link
  unlink_all-responses [] db = refl
  unlink_all-responses (l ∷ links) db = ground (
    arith,
    unlink_all-responses links
        (unlink (remote.remove_user l.guild_id l.role_id id l.api_token) l db),
  )

  -- A link that RoleLogic says is gone, under a guild and role.
  abbrev pub IsGone : (guild_id role_id : String) → RoleLink N → Type 0
  IsGone guild_id role_id k =
      (k.guild_id ≡ guild_id)
      × (k.role_id ≡ role_id)
      × (remote.remove_user k.guild_id k.role_id id k.api_token ≡ err role_link_not_found)

  unlink-links :
      (answer : Result (Unit {0}) AppError) (k l : RoleLink N) (db : Db N)
      → In l (unlink answer k db).links ↔ (
          In l db.links
          × ¬ (
              (k.guild_id ≡ l.guild_id)
              × (k.role_id ≡ l.role_id)
              × (answer ≡ err role_link_not_found)))
  unfolding unlink delete_orphan_role_link
  unlink-links (err role_link_not_found) k l db =
      let (to, from) = keep_iff (λ m. not (is_link k.guild_id k.role_id m)) l db.links in
      let (apart, parts) = same_key k.guild_id k.role_id l.guild_id l.role_id in
      (
        λ i. ((to i).0, λ gone. apart (to i).1 (gone.0, gone.1)),
        λ both. from (both.0, parts λ same. both.1 (same.0, same.1, refl)),
      )
  unlink-links answer k l db = (λ i. (i, λ gone. cc), λ both. both.0)

  unlink-assignments :
      (answer : Result (Unit {0}) AppError) (k : RoleLink N) (a : RoleAssignment) (db : Db N)
      → In a (unlink answer k db).assignments ↔ (
          In a db.assignments
          × ¬ (
              (k.guild_id ≡ a.guild_id)
              × (k.role_id ≡ a.role_id)
              × (answer ≡ err role_link_not_found)))
  unfolding unlink delete_orphan_role_link
  unlink-assignments (err role_link_not_found) k a db =
      let (to, from) = keep_iff (λ b. not (of_link k.guild_id k.role_id b)) a db.assignments in
      let (apart, parts) = same_key k.guild_id k.role_id a.guild_id a.role_id in
      (
        λ i. ((to i).0, λ gone. apart (to i).1 (gone.0, gone.1)),
        λ both. from (both.0, parts λ same. both.1 (same.0, same.1, refl)),
      )
  unlink-assignments answer k a db = (λ i. (i, λ gone. cc), λ both. both.0)

  abbrev IsKept : (guild_id role_id : String) → List (RoleLink N) → Type 0
  IsKept guild_id role_id links = ¬ ((k : RoleLink N) × In k links × IsGone guild_id role_id k)

  IsKept-cons :
      (guild_id role_id : String) (k : RoleLink N) (links : List (RoleLink N))
      → (¬ IsGone guild_id role_id k)
      → IsKept guild_id role_id links
      → IsKept guild_id role_id (k ∷ links)
  IsKept-cons guild_id role_id k links this rest (j, inl e, gone) = this (rw (← e) at gone)
  IsKept-cons guild_id role_id k links this rest (j, inr i, gone) = rest (j, i, gone)

  unlink_all-links :
      (links : List (RoleLink N)) (l : RoleLink N) (db : Db N)
      → In l (unlink_all remote id links db).links
        ↔ (In l db.links × IsKept l.guild_id l.role_id links)
  unfolding unlink_all
  unlink_all-links [] l db = (λ i. (i, λ gone. absurd gone.1), λ both. both.0)
  unlink_all-links (k ∷ links) l db =
      let answer : Result (Unit {0}) AppError =
        remote.remove_user k.guild_id k.role_id id k.api_token in
      let (to, from) = unlink_all-links links l (unlink answer k db) in
      let (first_to, first_from) = unlink-links answer k l db in
      (
        λ i.
            let (there, rest) = to i in
            let (old, this) = first_to there in
            (old, IsKept-cons l.guild_id l.role_id k links this rest),
        λ both. from (
          first_from (both.0, λ gone. both.1 (k, inl refl, gone)),
          λ gone. let (j, i, g) = gone in both.1 (j, inr i, g),
        ),
      )

  unlink_all-assignments :
      (links : List (RoleLink N)) (a : RoleAssignment) (db : Db N)
      → In a (unlink_all remote id links db).assignments
        ↔ (In a db.assignments × IsKept a.guild_id a.role_id links)
  unfolding unlink_all
  unlink_all-assignments [] a db = (λ i. (i, λ gone. absurd gone.1), λ both. both.0)
  unlink_all-assignments (k ∷ links) a db =
      let answer : Result (Unit {0}) AppError =
        remote.remove_user k.guild_id k.role_id id k.api_token in
      let (to, from) = unlink_all-assignments links a (unlink answer k db) in
      let (first_to, first_from) = unlink-assignments answer k a db in
      (
        λ i.
            let (there, rest) = to i in
            let (old, this) = first_to there in
            (old, IsKept-cons a.guild_id a.role_id k links this rest),
        λ both. from (
          first_from (both.0, λ gone. both.1 (k, inl refl, gone)),
          λ gone. let (j, i, g) = gone in both.1 (j, inr i, g),
        ),
      )

  -- A link of the member, through an assignment.
  abbrev pub IsHeld : Db N → RoleLink N → Type 0
  IsHeld db k =
      In k db.links
      × ((a : RoleAssignment) × In a db.assignments
          × (a.discord_id ≡ id)
          × (a.guild_id ≡ k.guild_id)
          × (a.role_id ≡ k.role_id))

  In-flat :
      (f : RoleAssignment → List (RoleLink N)) (k : RoleLink N) (rows : List RoleAssignment)
      → In k (flat_map f rows) ↔ ((a : RoleAssignment) × In a rows × In k (f a))
  In-flat f k [] = (λ i. absurd i, λ found. absurd found.1)
  In-flat f k (a ∷ rows) =
      let (to, from) = In-flat f k rows in
      let (split_to, split_from) = In-append k (f a) (flat_map f rows) in
      (
        λ i. elim (split_to i) [
          | inl here ↦ (a, inl refl, here)
          | inr later ↦ let (b, j, there) = to later in (b, inr j, there)
        ],
        λ found.
            let (b, row, there) = found in
            split_from
              (elim row [ inl e ↦ inl (rw (← e) at there) | inr j ↦ inr (from (b, j, there)) ]),
      )

  assigned_links_iff : (k : RoleLink N) (db : Db N) → In k (assigned_links id db) ↔ IsHeld db k
  unfolding assigned_links
  assigned_links_iff k db =
      let mine = keep (λ (b : RoleAssignment). str_eq b.discord_id id) db.assignments in
      let links_of = λ (a : RoleAssignment). keep (is_link a.guild_id a.role_id) db.links in
      let (to, from) = In-flat links_of k mine in
      (
        λ i.
            let (a, there, linked) = to i in
            let (row, own) =
              (keep_iff (λ (b : RoleAssignment). str_eq b.discord_id id) a db.assignments).0
                there in
            let (link, same) = (keep_iff (is_link a.guild_id a.role_id) k db.links).0 linked in
            (
              link,
              (
                a,
                row,
                (str_eq_iff a.discord_id id).0 own,
                sym ((str_eq_iff k.guild_id a.guild_id).0 (ground arith)),
                sym ((str_eq_iff k.role_id a.role_id).0 (ground arith)),
              ),
            ),
        λ held.
            let (link, (a, row, own, guild, role)) = held in
            let first : str_eq k.guild_id a.guild_id ≡ true =
              (str_eq_iff k.guild_id a.guild_id).1 (sym guild) in
            let second : str_eq k.role_id a.role_id ≡ true =
              (str_eq_iff k.role_id a.role_id).1 (sym role) in
            from (
              a,
              (keep_iff (λ (b : RoleAssignment). str_eq b.discord_id id) a db.assignments).1
                  (row, (str_eq_iff a.discord_id id).1 own),
              (keep_iff (is_link a.guild_id a.role_id) k db.links).1 (link, ground arith),
            ),
      )

  -- No link of the member under the guild and role is gone.
  abbrev pub IsLive : Db N → (guild_id role_id : String) → Type 0
  IsLive db guild_id role_id = ¬ ((k : RoleLink N) × IsHeld db k × IsGone guild_id role_id k)

  IsKept-IsLive :
      (db : Db N) (guild_id role_id : String)
      → IsKept guild_id role_id (assigned_links id db) ↔ IsLive db guild_id role_id
  IsKept-IsLive db guild_id role_id = (
    λ kept.
        λ found. let (k, held, gone) = found in kept (k, (assigned_links_iff k db).1 held, gone),
    λ live. λ found. let (k, i, gone) = found in live (k, (assigned_links_iff k db).0 i, gone),
  )

  -- What the removal leaves of a link and of an assignment.
  abbrev pub IsUnlinked : Db N → RoleLink N → RoleAssignment → Type 0
  unfolding remove_all_assignments
  IsUnlinked db l a =
      (In l (remove_all_assignments remote id db).links
        ↔ (In l db.links × IsLive db l.guild_id l.role_id))
      × (In a (remove_all_assignments remote id db).assignments
          ↔ (In a db.assignments × (a.discord_id ≢ id) × IsLive db a.guild_id a.role_id))
      × ((remove_all_assignments remote id db).responses ≡ db.responses)

  -- After the removal of a member, the links are those before, save the ones under the guild and
  -- role of a link of the member whose removal RoleLogic answered by saying that the link is gone;
  -- the assignments are those before, save the member's own and those of the links that went; and
  -- the responses are as they were.
  pub remove_all_assignments_iff :
      (db : Db N) (l : RoleLink N) (a : RoleAssignment) → IsUnlinked db l a
  unfolding remove_all_assignments
  remove_all_assignments_iff db l a =
      let held = assigned_links id db in
      let (link_to, link_from) = unlink_all-links held l db in
      let (row_to, row_from) = unlink_all-assignments held a db in
      let (live_link, kept_link) = IsKept-IsLive db l.guild_id l.role_id in
      let (live_row, kept_row) = IsKept-IsLive db a.guild_id a.role_id in
      let (other_to, other_from) = other_member id a (unlink_all remote id held db).assignments in
      (
        (
          λ i. let (old, kept) = link_to i in (old, live_link kept),
          λ both. link_from (both.0, kept_link both.1),
        ),
        (
          λ i.
              let (row, other) = other_to i in
              let (old, kept) = row_to row in (old, other, live_row kept),
          λ found.
              let (old, other, live) = found in other_from (row_from (old, kept_row live), other),
        ),
        unlink_all-responses held db,
      )
