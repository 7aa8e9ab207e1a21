-- ===== src/Game/VirtualHost.antt =====
-- src/game/actor.rs: the virtual host, the player whom the bot shows in the lobby
-- (delete_virtual_host, create_virtual_host).
use ghostpp_rs.Prelude.{ℕ, ◌||◌, not, List, [], ◌∷◌, Option, none, some, ◌==◌, if◌then◌else◌}
use ghostpp_rs.Core.GameProtocol.{playerleave_lobby}
use ghostpp_rs.Core.GameProtocol.Send.{send_w3gs_playerleave_others, send_w3gs_playerinfo}
use ghostpp_rs.Game.{GameActor}
use ghostpp_rs.Game.Hub.{send_all}
use ghostpp_rs.Game.Slots.{new_pid}

abbrev pub no_virtual_host : GameActor → GameActor
no_virtual_host g = record g { virtual_host_pid = 255 }

unfoldable pub delete_virtual_host : GameActor → GameActor
delete_virtual_host g =
    if g.virtual_host_pid == 255
    then g
    else send_all (send_w3gs_playerleave_others g.virtual_host_pid playerleave_lobby)
        (no_virtual_host g)

abbrev pub four_zeros : List ℕ
four_zeros = 0 ∷ 0 ∷ 0 ∷ 0 ∷ []

unfoldable pub with_virtual_host : Option ℕ → GameActor → GameActor
with_virtual_host none g = g
with_virtual_host (some pid) g =
    send_all (send_w3gs_playerinfo pid g.virtual_host_name four_zeros four_zeros)
      (record g { virtual_host_pid = pid })

unfoldable pub create_virtual_host : GameActor → GameActor
create_virtual_host g =
    if not (g.virtual_host_pid == 255) || g.started then g else with_virtual_host (new_pid g) g
