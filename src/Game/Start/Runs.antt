-- ===== src/Game/Start/Runs.antt =====
-- The start of the small game of src/game/actor.rs, with a mode string.
use ghostpp_rs.Prelude.{◌≡◌, true, false, refl, arith}
use ghostpp_rs.Prelude.Text.{codes}
use ghostpp_rs.Game.{GameActor}
use ghostpp_rs.Game.Fixture.{game, env}
use ghostpp_rs.Game.Start.{all_allowed, count_occupied, event_game_started}
use ghostpp_rs.Game.Start.Hcl.{read_hcl, restore, IsChosen}
use ghostpp_rs.Game.Start.Launch.{event_game_started-read}

abbrev lobby : GameActor
lobby = record game { game_loaded = false; hcl_string = codes "a," }

chosen : IsChosen lobby.slots
chosen = ground arith

allowed : all_allowed lobby.hcl_string ≡ true
unfolding all_allowed
allowed = refl

event_game_started-read_example :
    (read_hcl (event_game_started env lobby).slots ≡ codes "a,")
    × (restore (event_game_started env lobby).slots ≡ game.slots)
event_game_started-read_example =
    event_game_started-read env lobby refl allowed (unfold count_occupied in omega arith) chosen
