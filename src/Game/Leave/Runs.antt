-- ===== src/Game/Leave/Runs.antt =====
-- Leaves of src/game/actor.rs in the small game.
use ghostpp_rs.Prelude.{◌≡◌, refl, arith, true, false, none, [], ◌∷◌, some}
use ghostpp_rs.Game.{GameActor, get_player}
use ghostpp_rs.Game.Fixture.{player, game, env}
use ghostpp_rs.Game.Leave.{remove_player_with_reason, check_game_over}
use ghostpp_rs.Game.Leave.Removed.{IsGone, IsSeatedOnce, remove_player-IsGone}
use ghostpp_rs.Game.Leave.GameOver.{check_game_over-closes}

seated : IsSeatedOnce 2 game.slots
seated = ground arith

found : get_player 2 game.players ≡ some (player 2 false)
unfolding get_player
found = refl

remove_player-IsGone_example : IsGone 2 (remove_player_with_reason env 2 7 none game)
remove_player-IsGone_example =
    remove_player-IsGone env 2 7 none game (player 2 false) found (omega arith) seated

-- The second player has left 60 seconds ago.
abbrev last_one : GameActor
last_one = record game { players = player 1 true ∷ []; game_over_time = 940 }

check_game_over-closes_example : (check_game_over env last_one).players ≡ []
check_game_over-closes_example =
    check_game_over-closes env last_one refl (omega arith) (omega arith)
