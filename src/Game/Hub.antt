-- ===== src/Game/Hub.antt =====
-- src/game/actor.rs: send_to_pid, through which every packet of a game goes, and the broadcasts.
pub mod Delivery
pub mod Settled
use ghostpp_rs.Prelude.{
  ℕ, ◌+◌, ◌%◌, ◌^◌, Bool, true, false, ◌&&◌, ◌||◌, not, List, [], ◌∷◌, ◌++◌, map, Option, none,
  some, ◌==◌, if◌then◌else◌, length, any,
}
use ghostpp_rs.Net.Conn.{Link, try_send}
use ghostpp_rs.Game.{LobbyPlayer, GameActor, get_player, update_player}
use ghostpp_rs.Core.GameProtocol.Send.{send_w3gs_slotinfo}

-- The packet counts as sent, and joins the replay buffer of a GProxy++ player once the game has loaded.
unfoldable pub note_sent : Bool → List ℕ → LobbyPlayer → LobbyPlayer
note_sent game_loaded bytes p =
    let kept = p.gproxy && game_loaded in
    record p {
      total_sent = (p.total_sent + 1) % 2 ^ 32;
      gproxy_buffer = if kept then p.gproxy_buffer ++ bytes ∷ [] else p.gproxy_buffer;
      gproxy_buffer_bytes =
          if kept then p.gproxy_buffer_bytes + length bytes else p.gproxy_buffer_bytes;
    }

-- `h.try_send(data)`, and the player's name on the list of drops if the queue is full.
unfoldable pub hand_over : LobbyPlayer → List ℕ → GameActor → GameActor
hand_over p bytes g =
    let sent = try_send bytes (g.links p.handle) in
    record g {
      links = λ id. if id == p.handle then sent.0 else g.links id;
      pending_drop =
          if sent.1 || any (λ pid. pid == p.pid) g.pending_drop
          then g.pending_drop
          else g.pending_drop ++ p.pid ∷ [];
    }

-- The player as found before the packet was counted; without that player nothing was counted either.
unfoldable pub deliver : Option LobbyPlayer → List ℕ → GameActor → GameActor
deliver none bytes g = g
deliver (some p) bytes g = if p.gproxy_disconnected then g else hand_over p bytes g

unfoldable pub send_to_pid : ℕ → List ℕ → GameActor → GameActor
send_to_pid pid bytes g =
    deliver (get_player pid g.players) bytes
      (record g { players = update_player pid (note_sent g.game_loaded bytes) g.players })

unfoldable pub send_to_pids : List ℕ → List ℕ → GameActor → GameActor
send_to_pids [] bytes g = g
send_to_pids (pid ∷ pids) bytes g = send_to_pids pids bytes (send_to_pid pid bytes g)

abbrev pub pids_of : List LobbyPlayer → List ℕ
pids_of players = map (λ p. p.pid) players

unfoldable pub send_all : List ℕ → GameActor → GameActor
send_all bytes g = send_to_pids (pids_of g.players) bytes g

unfoldable pub without : ℕ → List ℕ → List ℕ
without except_pid [] = []
without except_pid (pid ∷ pids) =
    let rest = without except_pid pids in if pid == except_pid then rest else pid ∷ rest

unfoldable pub send_to_others : ℕ → List ℕ → GameActor → GameActor
send_to_others except_pid bytes g = send_to_pids (without except_pid (pids_of g.players)) bytes g

unfoldable pub send_all_slot_info : GameActor → GameActor
send_all_slot_info g =
    send_all (send_w3gs_slotinfo g.slots g.random_seed g.map_layout_style (g.map_num_players % 256))
      g
