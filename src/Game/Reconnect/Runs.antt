-- ===== src/Game/Reconnect/Runs.antt =====
-- A reconnect in the small game of src/game/actor.rs.
use ghostpp_rs.Prelude.{ℕ, ◌≡◌, refl, arith, true, List, [], ◌∷◌, ◌++◌, some}
use ghostpp_rs.Core.Gps.{send_gpss_reconnect}
use ghostpp_rs.Game.{GameActor, LobbyPlayer, get_player}
use ghostpp_rs.Game.Fixture.{player, game, env}
use ghostpp_rs.Game.Gproxy.{trim_gproxy_buffer}
use ghostpp_rs.Game.Reconnect.{handle_gproxy_reconnect}
use ghostpp_rs.Game.Reconnect.Resumed.{handle_gproxy_reconnect_resends}

-- The player is away; two packets wait, and the client has received the first.
abbrev away : LobbyPlayer
away = record (player 1 true) {
  gproxy_disconnected = true;
  gproxy_buffer = (1 ∷ []) ∷ (2 ∷ []) ∷ [];
  gproxy_buffer_bytes = 2;
}

abbrev waiting : GameActor
waiting = record game { players = away ∷ [] }

found : get_player 1 waiting.players ≡ some away
unfolding get_player
found = refl

handle_gproxy_reconnect_resends_example :
    (more : List (List ℕ)) × (((handle_gproxy_reconnect env 1 77 6 waiting).links 13).channel
      ≡ (send_gpss_reconnect 1 ∷ (trim_gproxy_buffer 6 away).gproxy_buffer) ++ more)
handle_gproxy_reconnect_resends_example =
    handle_gproxy_reconnect_resends env 1 77 6 waiting away found refl refl (omega arith)
