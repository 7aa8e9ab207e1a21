-- ===== src/Game/Desync/Runs.antt =====
-- Two players of the small game of src/game/actor.rs who report different game states.
use ghostpp_rs.Prelude.{◌≡◌, true, false, [], ◌∷◌}
use ghostpp_rs.Game.{GameActor}
use ghostpp_rs.Game.Fixture.{player, game, env}
use ghostpp_rs.Game.Desync.{check_desync}
use ghostpp_rs.Game.Desync.Ends.{is_due, check_desync_ends}

abbrev split : GameActor
split = record game {
  players =
      record (player 1 true) { checksums = 5 ∷ 6 ∷ [] }
      ∷ record (player 2 false) { checksums = 5 ∷ 7 ∷ [] }
      ∷ [];
}

check_desync_ends_example :
    is_due (λ groups. groups) (check_desync (λ groups. groups) env split) ≡ false
check_desync_ends_example = check_desync_ends (λ groups. groups) env split
