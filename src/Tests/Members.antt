-- ===== src/Tests/Members.antt =====
-- The synchronisation of a member, on a small table.
use form_respondent_role.Prelude.{[], ◌∷◌, ◌≡◌, refl, inl, In}
use form_respondent_role.Sync.Player.{
  is_assigned, is_candidate_guild, player_links, qualifies, sync_for_player,
}
use form_respondent_role.Sync.Converged.{sync_for_player-converges}
use form_respondent_role.Tests.Data.{whole_host, read_condition, yes_link, small_db, calm_remote}

yes_link-listed : In yes_link (player_links "u2" ("g1" ∷ []) small_db)
unfolding player_links is_candidate_guild
yes_link-listed = inl refl

sync_for_player-converges_example :
    is_assigned "g1" "r1" "u2"
      (sync_for_player whole_host read_condition calm_remote "u2" small_db).0.assignments
    ≡ qualifies whole_host read_condition [] small_db.responses yes_link "f1" "u2"
sync_for_player-converges_example =
    sync_for_player-converges whole_host read_condition calm_remote "u2" small_db yes_link "f1"
      ("g1" ∷ []) [] (λ g r t. refl, λ g r t. refl) (λ m i. absurd i, tt) refl refl yes_link-listed
      refl
