-- ===== src/Game/Lag.antt =====
-- src/game/actor.rs: the lag screen (effective_sync_limit, lag_screen_expired, stop_laggers,
-- handle_drop_request) and the beat of a running game, game_tick. `latency_ms` is at least 1, and the
-- ticks of the clock do not go back, so that the source's divisions and differences are defined.
pub mod Screen
pub mod Beat
pub mod Tick
mod Runs
use Prim.Native.String.{String}
use ghostpp_rs.Prelude.{
  ℕ, suc, ◌+◌, ◌-◌, ◌*◌, ◌/◌, max, Bool, true, false, ◌&&◌, ◌||◌, not, List, [], ◌∷◌, map, Option,
  none, some, ltb, leb, if◌then◌else◌, any, length, as_u32,
}
use ghostpp_rs.Prelude.Text.{codes, decimal}
use ghostpp_rs.Lang.{t}
use ghostpp_rs.Net.Conn.{write_queue_max_bytes}
use ghostpp_rs.Core.GameProtocol.{playerleave_disconnect}
use ghostpp_rs.Core.GameProtocol.Receive.{is_empty}
use ghostpp_rs.Core.GameProtocol.Send.{
  send_w3gs_start_lag_pids, send_w3gs_stop_lag_pid, send_w3gs_incoming_action,
}
use ghostpp_rs.Core.Replay.{ReplayRecorder, add_time_slot}
use ghostpp_rs.Game.{LobbyPlayer, GameActor, drop_request, Env, get_player, update_player, select}
use ghostpp_rs.Game.Hub.{send_to_pid, send_all, pids_of}
use ghostpp_rs.Game.Batches.{record_replay, add_empty_slots, send_empty_actions, send_all_actions}
use ghostpp_rs.Game.Chat.{send_all_chat}
use ghostpp_rs.Game.Leave.{notify, remove_player, remove_all}

unfoldable pub effective_sync_limit : GameActor → ℕ
effective_sync_limit g = max (g.sync_window_ms / g.latency_ms) 1

unfoldable pub lag_screen_expired : ℕ → ℕ → Bool → ℕ → Bool
lag_screen_expired started_secs now_secs using_gproxy empty_actions =
    leb (if using_gproxy then (empty_actions + 1) * 60 else 60) (now_secs - started_secs)

abbrev pub is_lagging : LobbyPlayer → Bool
is_lagging p = p.lagging

abbrev pub laggers_of : GameActor → List LobbyPlayer
laggers_of g = select is_lagging g.players

abbrev pub using_gproxy : GameActor → Bool
using_gproxy g = any (λ p. p.gproxy) g.players

-- Closes the lag screen if nobody is on it.
unfoldable pub close_lag_screen : GameActor → GameActor
close_lag_screen g = if any is_lagging g.players then g else record g { lagging = false }

unfoldable pub stop_laggers : Env → List ℕ → GameActor → GameActor
stop_laggers env message g =
    if is_empty (laggers_of g)
    then g
    else send_all_chat message (
        close_lag_screen
          (remove_all env playerleave_disconnect (some message) (pids_of (laggers_of g)) g))

abbrev pub votes : GameActor → ℕ
votes g = length (select (λ p. p.drop_vote && not p.lagging) g.players)

abbrev pub voters : GameActor → ℕ
voters g = length (select (λ p. not p.lagging) g.players)

abbrev pub cast_vote : LobbyPlayer → LobbyPlayer
cast_vote p = record p { drop_vote = true }

-- The vote has been counted: at least half of the voters drop the laggers.
unfoldable pub settle_vote : Env → LobbyPlayer → GameActor → GameActor
settle_vote env p g =
    let message = t env.catalog "drop_voted" (
      (codes "name", p.name)
      ∷ (codes "votes", decimal (votes g))
      ∷ (codes "total", decimal (voters g))
      ∷ []) in
    if leb (voters g) (votes g * 2)
    then stop_laggers env (t env.catalog "drop_by_vote" []) (send_all_chat message g)
    else notify (drop_request p.name p.spoofed p.spoofed_realm) (send_all_chat message g)

unfoldable pub vote_of : Option LobbyPlayer → Env → ℕ → GameActor → GameActor
vote_of none env pid g = g
vote_of (some p) env pid g =
    if p.drop_vote
    then g
    else settle_vote env p (record g { players = update_player pid cast_vote g.players })

unfoldable pub handle_drop_request : Env → ℕ → GameActor → GameActor
handle_drop_request env pid g =
    if not g.lagging then g else vote_of (get_player pid g.players) env pid g

abbrev pub gproxy_buffer_max_bytes : ℕ
gproxy_buffer_max_bytes = write_queue_max_bytes - 64 * 1024

-- A GProxy++ player who has been away for too long, or whose replay buffer is too large.
unfoldable pub is_expired : Env → ℕ → LobbyPlayer → Bool
is_expired env empty_actions p =
    (p.gproxy_disconnected && ltb ((empty_actions + 1) * 60) (env.now_secs - p.disconnect_time))
    || ltb gproxy_buffer_max_bytes p.gproxy_buffer_bytes

unfoldable pub expire : Env → LobbyPlayer → GameActor → GameActor
expire env p g =
    remove_player env p.pid playerleave_disconnect
      (send_all_chat (t env.catalog "reconnect_timeout" ((codes "name", p.name) ∷ [])) g)

unfoldable pub expire_all : Env → List LobbyPlayer → GameActor → GameActor
expire_all env [] g = g
expire_all env (p ∷ players) g = expire_all env players (expire env p g)

unfoldable pub maintain_gproxy : Env → GameActor → GameActor
maintain_gproxy env g =
    if g.reconnect_enabled
    then expire_all env (select (is_expired env g.gproxy_empty_actions) g.players) g
    else g

-- More than `sync_limit` batches behind.
abbrev pub is_behind : ℕ → ℕ → LobbyPlayer → Bool
is_behind sync_counter sync_limit p = ltb sync_limit (sync_counter - p.sync_counter)

-- A player at the opening of a lag screen: the vote starts afresh.
unfoldable pub on_lag_screen : ℕ → ℕ → ℕ → LobbyPlayer → LobbyPlayer
on_lag_screen sync_counter sync_limit now p =
    let behind = is_behind sync_counter sync_limit p in
    record p {
      lagging = if behind then true else p.lagging;
      started_lagging_ticks = if behind then now else p.started_lagging_ticks;
      drop_vote = false;
    }

unfoldable pub open_lag_screen : Env → ℕ → GameActor → GameActor
open_lag_screen env sync_limit g =
    let laggers = select (is_behind g.sync_counter sync_limit) g.players in
    if is_empty laggers
    then g
    else send_all (send_w3gs_start_lag_pids (map (λ p. (p.pid, 0)) laggers)) (record g {
      lagging = true;
      last_lag_screen_reset = env.ticks;
      started_lagging_time = env.now_secs;
      players = map (on_lag_screen g.sync_counter sync_limit env.ticks) g.players;
    })

abbrev pub lag_wait : GameActor → ℕ
lag_wait g = if using_gproxy g then (g.gproxy_empty_actions + 1) * 60 else 60

unfoldable pub drop_expired : Env → GameActor → GameActor
drop_expired env g =
    if lag_screen_expired g.started_lagging_time env.now_secs (using_gproxy g)
      g.gproxy_empty_actions
    then stop_laggers env (t env.catalog "drop_auto" ((codes "seconds", decimal (lag_wait g)) ∷ []))
        g
    else g

abbrev pub recover_limit : ℕ → ℕ
recover_limit sync_limit = max (sync_limit / 2) 1

unfoldable pub is_recovered : ℕ → ℕ → LobbyPlayer → Bool
is_recovered sync_counter sync_limit p =
    p.lagging && ltb (sync_counter - p.sync_counter) (recover_limit sync_limit)

abbrev pub caught_up : LobbyPlayer → LobbyPlayer
caught_up p = record p { lagging = false }

abbrev pub lag_ms : ℕ → LobbyPlayer → ℕ
lag_ms now p = as_u32 (now - p.started_lagging_ticks)

unfoldable pub clear_recovered : ℕ → List LobbyPlayer → GameActor → GameActor
clear_recovered now [] g = g
clear_recovered now (p ∷ recovered) g = clear_recovered now recovered (
    send_all (send_w3gs_stop_lag_pid p.pid (lag_ms now p))
      (record g { players = update_player p.pid caught_up g.players }))

unfoldable pub recover_players : ℕ → ℕ → GameActor → GameActor
recover_players now sync_limit g =
    clear_recovered now (select (is_recovered g.sync_counter sync_limit) g.players) g

-- crc32fast's checksum is the argument `crc32`.
module _ (crc32 : List ℕ → ℕ) where
  abbrev pub empty_action : List ℕ
  empty_action = send_w3gs_incoming_action crc32 [] 0

  unfoldable pub send_stop_lags : ℕ → List (ℕ × ℕ) → GameActor → GameActor
  send_stop_lags rpid [] g = g
  send_stop_lags rpid ((lpid, ms) ∷ laggers) g =
      send_stop_lags rpid laggers (send_to_pid rpid (send_w3gs_stop_lag_pid lpid ms) g)

  -- `using` tells whether anyone uses GProxy++.
  unfoldable pub reset_for : Bool → List (ℕ × ℕ) → LobbyPlayer → GameActor → GameActor
  reset_for using laggers r g =
      let stopped = send_stop_lags r.pid laggers g in
      let paid =
        if using && not r.gproxy
        then send_empty_actions crc32 stopped.gproxy_empty_actions r.pid stopped
        else stopped in
      send_to_pid r.pid (send_w3gs_start_lag_pids laggers) (send_to_pid r.pid empty_action paid)

  unfoldable pub reset_for_all : Bool → List (ℕ × ℕ) → List LobbyPlayer → GameActor → GameActor
  reset_for_all using laggers [] g = g
  reset_for_all using laggers (r ∷ recipients) g =
      reset_for_all using laggers recipients (reset_for using laggers r g)

  unfoldable pub record_reset : Bool → ℕ → ReplayRecorder → ReplayRecorder
  record_reset using empty_n rep =
      add_time_slot 0 [] (if using then add_empty_slots empty_n rep else rep)

  -- The lag screen is shown again, before the clients give up.
  unfoldable pub reset_lag_screen : ℕ → GameActor → GameActor
  reset_lag_screen now g = record_replay (record_reset (using_gproxy g) g.gproxy_empty_actions) (
      reset_for_all (using_gproxy g) (map (λ p. (p.pid, lag_ms now p)) (laggers_of g)) g.players
        (record g { last_lag_screen_reset = now }))

  unfoldable pub close_or_reset : ℕ → GameActor → GameActor
  close_or_reset now g =
      if not (any is_lagging g.players)
      then record g { lagging = false }
      else if leb 60000 (now - g.last_lag_screen_reset)
      then reset_lag_screen now g
      else g

  unfoldable pub keep_lag_screen : Env → ℕ → GameActor → GameActor
  keep_lag_screen env sync_limit g =
      close_or_reset env.ticks (recover_players env.ticks sync_limit (drop_expired env g))

  unfoldable pub manage_lag : Env → ℕ → GameActor → GameActor
  manage_lag env sync_limit g =
      if not g.lagging then open_lag_screen env sync_limit g else keep_lag_screen env sync_limit g

  unfoldable pub game_tick : Env → GameActor → GameActor
  game_tick env g =
      let g' = manage_lag env (effective_sync_limit g) (maintain_gproxy env g) in
      if g'.lagging then g' else send_all_actions crc32 g'
