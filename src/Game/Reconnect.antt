-- ===== src/Game/Reconnect.antt =====
-- src/game/actor.rs: connections that close, stall and come back (handle_conn_closed, handle_gps_frame,
-- handle_gproxy_reconnect, process_pending_drops). A new connection gets the handle with its own number:
-- conn::spawn makes its link, and `conns` maps the connection to it.
pub mod Outgoing
pub mod Resumed
mod Runs
use Prim.Native.String.{String}
use ghostpp_rs.Prelude.{
  ℕ, ◌+◌, ◌*◌, ◌%◌, Bool, true, false, ◌&&◌, ◌||◌, not, List, [], ◌∷◌, ◌++◌, Option, none, some,
  ◌==◌, if◌then◌else◌,
}
use ghostpp_rs.Prelude.Text.{codes, decimal}
use ghostpp_rs.Lang.{t}
use ghostpp_rs.Net.Conn.{opened, try_send, close}
use ghostpp_rs.Core.Gps.{gps_init, gps_ack, receive_gps_ack, send_gpss_init, send_gpss_reconnect}
use ghostpp_rs.Core.GameProtocol.{playerleave_disconnect}
use ghostpp_rs.Game.{LobbyPlayer, GameActor, gproxy_registered, Env, get_player, update_player}
use ghostpp_rs.Game.Gproxy.{trim_gproxy_buffer}
use ghostpp_rs.Game.Chat.{send_all_chat}
use ghostpp_rs.Game.Leave.{remove_key, notify, remove_player}

-- `conns.get`.
unfoldable pub lookup : ℕ → List (ℕ × ℕ) → Option ℕ
lookup key [] = none
lookup key ((k, v) ∷ entries) = if k == key then some v else lookup key entries

-- The player waits for a reconnect from now on.
unfoldable pub hold : Env → LobbyPlayer → LobbyPlayer
hold env p = record p { gproxy_disconnected = true; disconnect_time = env.now_secs }

unfoldable pub announce_hold : Env → LobbyPlayer → GameActor → GameActor
announce_hold env p g =
    send_all_chat
      (t env.catalog "gproxy_disconnected_waiting" (
        (codes "name", p.name)
        ∷ (codes "seconds", decimal ((g.gproxy_empty_actions + 1) * 60))
        ∷ []))
      g

-- Whether a player whose connection has closed is kept for a reconnect.
unfoldable pub is_kept : LobbyPlayer → GameActor → Bool
is_kept p g = (g.game_loaded && g.reconnect_enabled) && (p.gproxy && not p.gproxy_disconnected)

unfoldable pub lost : Option LobbyPlayer → Env → ℕ → GameActor → GameActor
lost none env pid g = remove_player env pid playerleave_disconnect g
lost (some p) env pid g =
    if is_kept p g
    then announce_hold env p (record g { players = update_player pid (hold env) g.players })
    else remove_player env pid playerleave_disconnect g

unfoldable pub closed : Option ℕ → Env → ℕ → GameActor → GameActor
closed none env conn_id g = g
closed (some pid) env conn_id g =
    lost (get_player pid g.players) env pid (record g { conn_pid = remove_key conn_id g.conn_pid })

unfoldable pub handle_conn_closed : Env → ℕ → GameActor → GameActor
handle_conn_closed env conn_id g =
    closed (lookup conn_id g.conn_pid) env conn_id (record g { conns = remove_key conn_id g.conns })

-- A packet that goes to a connection without being counted or kept.
unfoldable pub send_direct : ℕ → List ℕ → GameActor → GameActor
send_direct handle bytes g =
    let sent = try_send bytes (g.links handle) in
    record g { links = λ id. if id == handle then sent.0 else g.links id }

unfoldable pub gps_started : Option LobbyPlayer → ℕ → GameActor → GameActor
gps_started none pid g = g
gps_started (some p) pid g = notify (gproxy_registered p.gproxy_key) (
    send_direct p.handle (send_gpss_init g.reconnect_port pid p.gproxy_key g.gproxy_empty_actions)
      (record g { players = update_player pid (λ q. record q { gproxy = true }) g.players }))

unfoldable pub gps_acked : Option ℕ → ℕ → GameActor → GameActor
gps_acked none pid g = g
gps_acked (some last) pid g = record g {
  players = update_player pid (trim_gproxy_buffer last) g.players;
}

unfoldable pub handle_gps_frame : ℕ → ℕ → List ℕ → GameActor → GameActor
handle_gps_frame pid id bytes g =
    if id == gps_init
    then if g.reconnect_enabled then gps_started (get_player pid g.players) pid g else g
    else if id == gps_ack
    then gps_acked (receive_gps_ack bytes) pid g
    else g

-- The player on the new connection `id`.
unfoldable pub rejoin : ℕ → ℕ → LobbyPlayer → LobbyPlayer
rejoin id last_packet p =
    trim_gproxy_buffer last_packet
      (record p { conn_id = id; handle = id; gproxy_disconnected = false; disconnect_time = 0 })

-- The loop that sends the buffer, up to the first packet that the connection refuses.
unfoldable pub replay_buffer : ℕ → List (List ℕ) → GameActor → GameActor × Bool
replay_buffer handle [] g = (g, true)
replay_buffer handle (packet ∷ packets) g =
    let rest = replay_buffer handle packets (send_direct handle packet g) in
    if (try_send packet (g.links handle)).1 then rest else (g, false)

-- The new connection's maps and link.
unfoldable pub connected : LobbyPlayer → ℕ → GameActor → GameActor
connected p last_packet g =
    let id = g.next_conn_id in
    record g {
      next_conn_id = id + 1;
      conns = (id, id) ∷ remove_key p.conn_id g.conns;
      conn_pid = (id, p.pid) ∷ remove_key p.conn_id g.conn_pid;
      links = λ i. if i == id then opened id else g.links i;
      players = update_player p.pid (rejoin id last_packet) g.players;
    }

unfoldable pub announce_rejoin : Env → LobbyPlayer → GameActor × Bool → GameActor
announce_rejoin env p (g, true) =
    send_all_chat (t env.catalog "gproxy_reconnected" ((codes "name", p.name) ∷ [])) g
announce_rejoin env p (g, false) = record g { pending_drop = g.pending_drop ++ p.pid ∷ [] }

unfoldable pub reconnect : Env → LobbyPlayer → ℕ → GameActor → GameActor
reconnect env p last_packet g =
    let id = g.next_conn_id in
    let p' = rejoin id last_packet p in
    announce_rejoin env p (
      replay_buffer id p'.gproxy_buffer
        (send_direct id (send_gpss_reconnect p'.total_received) (connected p last_packet g)))

unfoldable pub reconnect_player : Option LobbyPlayer → Env → ℕ → ℕ → GameActor → GameActor
reconnect_player none env key last_packet g = g
reconnect_player (some p) env key last_packet g =
    if p.gproxy && p.gproxy_key == key then reconnect env p last_packet g else g

-- A player without GProxy++ or with another key is refused on the new connection, which is dropped.
unfoldable pub handle_gproxy_reconnect : Env → ℕ → ℕ → ℕ → GameActor → GameActor
handle_gproxy_reconnect env pid key last_packet g =
    reconnect_player (get_player pid g.players) env key last_packet g

-- `conns.remove` of the connection, which is closed if it was there.
unfoldable pub close_conn : Option ℕ → ℕ → GameActor → GameActor
close_conn none conn_id g = g
close_conn (some handle) conn_id g = record g {
  conns = remove_key conn_id g.conns;
  links = λ id. if id == handle then close (g.links id) else g.links id;
}

-- The socket is given up; the player and the replay buffer stay.
unfoldable pub hold_stalled : Env → LobbyPlayer → GameActor → GameActor
hold_stalled env p g =
    let held = record g { players = update_player p.pid (hold env) g.players } in
    let shut = close_conn (lookup p.conn_id held.conns) p.conn_id held in
    announce_hold env p (record shut { conn_pid = remove_key p.conn_id shut.conn_pid })

unfoldable pub remove_stalled : Env → LobbyPlayer → GameActor → GameActor
remove_stalled env p g = remove_player env p.pid playerleave_disconnect (
    send_all_chat (t env.catalog "player_dropped_stalled" ((codes "name", p.name) ∷ []))
      (close_conn (lookup p.conn_id g.conns) p.conn_id g))

-- `game_loaded` is what it was before the first drop.
unfoldable pub drop_pending : Bool → Option LobbyPlayer → Env → GameActor → GameActor
drop_pending game_loaded none env g = g
drop_pending game_loaded (some p) env g =
    if p.gproxy_disconnected
    then g
    else if p.gproxy && (game_loaded && g.reconnect_enabled)
    then hold_stalled env p g
    else remove_stalled env p g

unfoldable pub drop_all : Bool → Env → List ℕ → GameActor → GameActor
drop_all game_loaded env [] g = g
drop_all game_loaded env (pid ∷ pids) g =
    drop_all game_loaded env pids (drop_pending game_loaded (get_player pid g.players) env g)

-- `mem::take` empties the list before the loop, which can fill it again.
unfoldable pub process_pending_drops : Env → GameActor → GameActor
process_pending_drops env g =
    drop_all g.game_loaded env g.pending_drop (record g { pending_drop = [] })
