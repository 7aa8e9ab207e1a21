-- ===== src/Game/Lag/Runs.antt =====
-- The lag screen of src/game/actor.rs in the small game.
use ghostpp_rs.Prelude.{
  ◌+◌, ◌*◌, ◌%◌, ◌^◌, ◌≤◌, ◌<◌, ◌≡◌, ◌⊎◌, refl, arith, true, false, [], ◌∷◌, some, any,
}
use ghostpp_rs.Game.{GameActor, drop_request, get_player}
use ghostpp_rs.Game.Fixture.{player, game, env, sum_of}
use ghostpp_rs.Game.Hub.Settled.{settle}
use ghostpp_rs.Game.Leave.{notify}
use ghostpp_rs.Game.Lag.{is_lagging, votes, voters, handle_drop_request, game_tick}
use ghostpp_rs.Game.Lag.Screen.{voted, handle_drop_request_cases}
use ghostpp_rs.Game.Lag.Tick.{game_tick_beats, game_tick_resumes}

-- Player 2 is on the lag screen, since 800 seconds.
abbrev held_up : GameActor
held_up = record game {
  players = player 1 true ∷ record (player 2 false) { lagging = true } ∷ [];
  lagging = true;
  started_lagging_time = 200;
  sync_counter = 400;
}

game_tick_beats_example :
    (((game_tick sum_of env held_up).lagging ≡ true)
      × ((game_tick sum_of env held_up).sync_counter ≡ 400))
    ⊎ (((game_tick sum_of env held_up).lagging ≡ false)
        × ((game_tick sum_of env held_up).sync_counter ≡ (400 + 1) % 2 ^ 32)
        × ((game_tick sum_of env held_up).actions ≡ []))
game_tick_beats_example = game_tick_beats sum_of env held_up

game_tick_resumes_example :
    ((game_tick sum_of env held_up).lagging ≡ false)
    × ((game_tick sum_of env held_up).sync_counter ≡ (400 + 1) % 2 ^ 32)
    × ((game_tick sum_of env held_up).actions ≡ [])
game_tick_resumes_example = game_tick_resumes sum_of env held_up refl (omega arith)

found : get_player 1 held_up.players ≡ some (player 1 true)
unfolding get_player
found = refl

handle_drop_request_cases_example :
    ((voters (voted 1 held_up) ≤ votes (voted 1 held_up) * 2)
      × (any is_lagging (handle_drop_request env 1 held_up).players ≡ false))
    ⊎ ((votes (voted 1 held_up) * 2 < voters (voted 1 held_up))
        × (settle (handle_drop_request env 1 held_up)
            ≡ settle (notify (drop_request (66 ∷ []) false []) (voted 1 held_up))))
handle_drop_request_cases_example =
    handle_drop_request_cases env 1 held_up (player 1 true) refl found refl
