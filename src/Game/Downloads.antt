-- ===== src/Game/Downloads.antt =====
-- src/game/actor.rs: host_pid, and the map downloads (send_map_parts, pump_downloads).
pub mod Coverage
use ghostpp_rs.Prelude.{
  ℕ, zero, suc, ◌+◌, ◌*◌, ◌-◌, ◌^◌, min, Bool, true, false, ◌&&◌, ◌||◌, not, List, [], ◌∷◌, map,
  Option, none, some, ltb, leb, ◌==◌, if◌then◌else◌,
}
use ghostpp_rs.Prelude.Text.{bytes_eq}
use ghostpp_rs.Core.GameProtocol.Send.{send_w3gs_mappart}
use ghostpp_rs.Game.{LobbyPlayer, GameActor, get_player, update_player}
use ghostpp_rs.Game.Hub.{send_to_pid}

abbrev pub to_ascii_lowercase : ℕ → ℕ
to_ascii_lowercase c = if leb 65 c && leb c 90 then c + 32 else c

-- The first player with the owner's name, in any case.
unfoldable pub find_owner : List ℕ → List LobbyPlayer → Option ℕ
find_owner owner_name [] = none
find_owner owner_name (p ∷ players) =
    if bytes_eq (map to_ascii_lowercase p.name) (map to_ascii_lowercase owner_name)
    then some p.pid
    else find_owner owner_name players

-- The smallest pid, and 255 without players.
unfoldable pub least_pid : List LobbyPlayer → ℕ
least_pid [] = 255
least_pid (p ∷ players) = min p.pid (least_pid players)

unfoldable pub host_pid : GameActor → ℕ
host_pid g =
    if not g.started && not (g.virtual_host_pid == 255)
    then g.virtual_host_pid
    else elim (find_owner g.owner_name g.players) [ none ↦ least_pid g.players | some pid ↦ pid ]

abbrev pub part : ℕ
part = 1442

abbrev pub window : ℕ
window = part * 100

-- The loop of send_map_parts: the positions of the parts to send, and the position behind them. Each
-- round moves forward or stops, so a fuel above the size of the map is never used up.
unfoldable pub part_loop : ℕ → ℕ → ℕ → ℕ → List ℕ × ℕ
part_loop zero map_size limit sent = ([], sent)
part_loop (suc fuel) map_size limit sent =
    let rest = part_loop fuel map_size limit (min (sent + part) map_size) in
    if ltb sent map_size && ltb sent limit then (sent ∷ rest.0, rest.1) else ([], sent)

-- `acked.saturating_add(WINDOW)`.
abbrev pub window_end : ℕ → ℕ
window_end acked = min (acked + window) (2 ^ 32 - 1)

abbrev pub is_downloading : LobbyPlayer → Bool
is_downloading p = p.download_started && not p.download_finished

unfoldable pub downloading_pids : List LobbyPlayer → List ℕ
downloading_pids [] = []
downloading_pids (p ∷ players) =
    let rest = downloading_pids players in if is_downloading p then p.pid ∷ rest else rest

-- crc32fast's checksum is the argument `crc32`.
module _ (crc32 : List ℕ → ℕ) where
  unfoldable pub send_parts : ℕ → ℕ → List ℕ → List ℕ → GameActor → GameActor
  send_parts from_pid pid map_data [] g = g
  send_parts from_pid pid map_data (start ∷ starts) g =
      send_parts from_pid pid map_data starts
        (send_to_pid pid (send_w3gs_mappart crc32 from_pid pid start map_data) g)

  unfoldable pub send_parts_to : LobbyPlayer → List ℕ → GameActor → GameActor
  send_parts_to p map_data g =
      let loop =
        part_loop (suc g.map_size) g.map_size (window_end p.last_part_acked) p.last_part_sent in
      if is_downloading p
      then send_parts (host_pid g) p.pid map_data loop.0 (record g {
        players = update_player p.pid (λ q. record q { last_part_sent = loop.1 }) g.players;
      })
      else g

  unfoldable pub send_map_parts : ℕ → GameActor → GameActor
  send_map_parts pid g = elim g.map_data [
    | none ↦ g
    | some map_data ↦ elim (get_player pid g.players) [
      | none ↦ g
      | some p ↦ send_parts_to p map_data g
    ]
  ]

  unfoldable pub send_map_parts_to : List ℕ → GameActor → GameActor
  send_map_parts_to [] g = g
  send_map_parts_to (pid ∷ pids) g = send_map_parts_to pids (send_map_parts pid g)

  unfoldable pub pump_downloads : GameActor → GameActor
  pump_downloads g = send_map_parts_to (downloading_pids g.players) g
