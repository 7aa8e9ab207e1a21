-- ===== src/Game/MapSize.antt =====
-- src/game/actor.rs: handle_map_size, a client's report of how much of the map it has.
use ghostpp_rs.Prelude.{
  ℕ, ◌*◌, ◌/◌, min, Bool, true, ◌&&◌, ◌||◌, not, List, [], ◌∷◌, Option, none, some, ltb, ◌==◌,
  if◌then◌else◌, set, as_u8,
}
use ghostpp_rs.Prelude.Text.{codes}
use ghostpp_rs.Lang.{t}
use ghostpp_rs.Core.GameProtocol.{playerleave_lobby}
use ghostpp_rs.Core.GameProtocol.Send.{send_w3gs_startdownload}
use ghostpp_rs.Game.{LobbyPlayer, GameActor, Env, get_player, update_player}
use ghostpp_rs.Game.Hub.{send_to_pid}
use ghostpp_rs.Game.Downloads.{host_pid, is_downloading, send_map_parts}
use ghostpp_rs.Game.Slots.{slot_at, slot_index_of_pid}
use ghostpp_rs.Game.Chat.{send_all_chat}
use ghostpp_rs.Game.Leave.{remove_player}
use ghostpp_rs.Game.Start.{maybe_autostart}

-- The percentage, cut to a byte before it is limited to 100.
unfoldable pub progress : ℕ → ℕ → ℕ
progress client_size our_size =
    if ltb 0 our_size then min (as_u8 (client_size * 100 / our_size)) 100 else 100

unfoldable pub with_progress : Option ℕ → ℕ → GameActor → GameActor
with_progress none status g = g
with_progress (some sid) status g =
    if (slot_at g.slots sid).download_status == status then g else record g {
      slots = set g.slots sid (record (slot_at g.slots sid) { download_status = status });
      slot_info_changed = true;
    }

-- The slot shows the progress, and the game may start.
unfoldable pub report_progress : Env → ℕ → ℕ → GameActor → GameActor
report_progress env pid client_size g =
    maybe_autostart env
      (with_progress (slot_index_of_pid pid g) (progress client_size g.map_size) g)

unfoldable pub begin_download : LobbyPlayer → LobbyPlayer
begin_download p = record p { download_started = true; last_part_sent = 0; last_part_acked = 0 }

-- !downloads 2 waits for an admin.
unfoldable pub is_permitted : ℕ → Option LobbyPlayer → Bool
is_permitted mode none = not (mode == 2)
is_permitted mode (some p) = not (mode == 2) || p.download_allowed

unfoldable pub begins : ℕ → LobbyPlayer → Bool
begins size_flag p = not p.download_started && size_flag == 1

unfoldable pub finish_download : Option LobbyPlayer → Env → ℕ → ℕ → GameActor → GameActor
finish_download none env pid client_size g = g
finish_download (some p) env pid client_size g =
    if is_downloading p
    then report_progress env pid client_size (
        send_all_chat (t env.catalog "player_downloaded_map" ((codes "name", p.name) ∷ []))
          (record g {
            players = update_player pid (λ q. record q { download_finished = true }) g.players;
          }))
    else report_progress env pid client_size g

-- crc32fast's checksum is the argument `crc32`.
module _ (crc32 : List ℕ → ℕ) where
  -- The player may download: the download begins, or goes on from what the client reports.
  unfoldable pub go_on : Option LobbyPlayer → Env → ℕ → ℕ → ℕ → GameActor → GameActor
  go_on none env pid size_flag client_size g = g
  go_on (some p) env pid size_flag client_size g =
      let begun = record g { players = update_player pid begin_download g.players } in
      let told =
        if begins size_flag p
        then send_to_pid pid (send_w3gs_startdownload (host_pid begun)) begun
        else record g {
          players = update_player pid (λ q. record q { last_part_acked = client_size }) g.players;
        } in
      report_progress env pid client_size (send_map_parts crc32 pid told)

  unfoldable pub has_no_map : Env → ℕ → ℕ → ℕ → GameActor → GameActor
  has_no_map env pid size_flag client_size g =
      if g.download_mode == 0
      then remove_player env pid playerleave_lobby
          (send_all_chat (t env.catalog "no_map_downloads_disabled" []) g)
      else elim g.map_data [
        | none ↦ remove_player env pid playerleave_lobby g
        | some bytes ↦
            if is_permitted g.download_mode (get_player pid g.players)
            then go_on (get_player pid g.players) env pid size_flag client_size g
            else report_progress env pid client_size g
      ]

  unfoldable pub handle_map_size : Env → ℕ → ℕ → ℕ → GameActor → GameActor
  handle_map_size env pid size_flag client_size g =
      if g.started
      then g
      else if not (size_flag == 1) || not (client_size == g.map_size)
      then has_no_map env pid size_flag client_size g
      else finish_download (get_player pid g.players) env pid client_size g
