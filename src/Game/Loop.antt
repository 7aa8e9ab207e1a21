-- ===== src/Game/Loop.antt =====
-- src/game/actor.rs: the loop of GameActor::run. An event of the loop is what `select!` takes: a
-- command, an event of a connection (handle_conn_event) or a timer. When the timers fire, and the status
-- that is published, are not modelled; `replay.take` hands the replay to the file that is written.
pub mod Ends
pub mod LastLeave
mod Runs
use ghostpp_rs.Prelude.{
  ℕ, ◌-◌, ◌%◌, ◌^◌, Bool, true, false, ◌&&◌, ◌||◌, not, List, [], ◌∷◌, Option, none, some, ltb, leb,
  ◌==◌, if◌then◌else◌, as_u32, Run, ret, ◌>>=◌,
}
use ghostpp_rs.Core.Gps.{send_gpss_ack}
use ghostpp_rs.Core.GameProtocol.{w3gs_reqjoin}
use ghostpp_rs.Core.GameProtocol.Send.{send_w3gs_ping_from_host}
use ghostpp_rs.Game.{LobbyPlayer, GameActor, Env, GameRecord, game_ended, deleted, select}
use ghostpp_rs.Game.Hub.{send_all, send_all_slot_info}
use ghostpp_rs.Game.Chat.{send_all_chat}
use ghostpp_rs.Game.Downloads.{pump_downloads}
use ghostpp_rs.Game.Leave.{notify, check_game_over}
use ghostpp_rs.Game.Lag.{game_tick}
use ghostpp_rs.Game.Start.{tick_countdown}
use ghostpp_rs.Game.Reconnect.{lookup, send_direct, handle_conn_closed, process_pending_drops}
use ghostpp_rs.Game.Desync.{Group}
use ghostpp_rs.Game.Join.{handle_join}
use ghostpp_rs.Game.Frames.{handle_player_frame}
use ghostpp_rs.Game.Mutes.{MuteDb, first_or_empty}
use ghostpp_rs.Game.Commands.{GameCommand, handle_command}
use ghostpp_rs.Game.Setup.{GameConfig, new}

-- `released` is a closed command channel; a frame has the connection, the packet's id and its bytes,
-- and the key that a join would draw.
pub data LoopEvent : Type 0 where
  command : GameCommand → LoopEvent
  released : LoopEvent
  frame : ℕ → ℕ → List ℕ → ℕ → LoopEvent
  conn_closed : ℕ → LoopEvent
  ping_tick : LoopEvent
  download_tick : LoopEvent
  slot_info_tick : LoopEvent
  countdown_tick : LoopEvent
  next_action : LoopEvent

-- What comes from outside of the game: crc32fast's checksum, the order of a HashMap's groups, the
-- random numbers, Unicode lower case and the database.
pub record World : Type 0 where
  pub crc32 : List ℕ → ℕ
  pub iteration : List Group → List Group
  pub random : ℕ → ℕ
  pub to_lowercase : List ℕ → List ℕ
  pub mutes : MuteDb
  pub ban_check : List ℕ → List ℕ → List ℕ → Bool
  pub mute_check : List ℕ → List ℕ → ℕ → Option ℕ
  pub datetime : List ℕ

unfoldable pub send_acks : List LobbyPlayer → GameActor → GameActor
send_acks [] g = g
send_acks (p ∷ players) g =
    send_acks players (send_direct p.handle (send_gpss_ack p.total_received) g)

unfoldable pub on_ping_tick : Env → GameActor → GameActor
on_ping_tick env g =
    let pinged = send_all (send_w3gs_ping_from_host env.ticks) g in
    send_acks (select (λ p. p.gproxy && not p.gproxy_disconnected) pinged.players) pinged

unfoldable pub show_slot_info : GameActor → GameActor
show_slot_info g =
    if g.slot_info_changed && not g.started
    then send_all_slot_info (record g { slot_info_changed = false })
    else g

unfoldable pub announce_due : Option (ℕ × List ℕ) → Env → GameActor → GameActor
announce_due none env g = g
announce_due (some (interval_s, message)) env g =
    if leb interval_s (env.now_secs - g.last_announce)
    then send_all_chat message (record g { last_announce = env.now_secs })
    else g

unfoldable pub on_slot_info_tick : Env → GameActor → GameActor
on_slot_info_tick env g =
    let shown = show_slot_info (check_game_over env g) in
    if shown.started then shown else announce_due shown.announce env shown

-- The record of a game that is over.
unfoldable pub game_record : World → Env → GameActor → GameRecord
game_record w env g = record {
  server = first_or_empty g.servers;
  map = g.map_info.path;
  datetime = w.datetime;
  game_name = g.game_name;
  owner_name = g.owner_name;
  duration = if ltb 0 g.loaded_time then as_u32 (env.now_secs - g.loaded_time) else 0;
}

unfoldable pub write_records : World → Env → GameActor → GameActor
write_records w env g =
    notify (game_ended (game_record w env g) g.player_records)
      (record g { replay = none; player_records = [] })

abbrev pub is_nobody : List LobbyPlayer → Bool
is_nobody players = elim players [ [] ↦ true | p ∷ ps ↦ false ]

pub data Outcome : Type 0 where
  running : GameActor → Outcome
  over : GameActor → Outcome

-- What follows every event that does not break the loop.
unfoldable pub settle_up : World → Env → GameActor → Outcome
settle_up w env g =
    let g' = process_pending_drops env g in
    if g'.started && is_nobody g'.players
    then over (notify deleted (write_records w env g'))
    else running g'

unfoldable pub after_command : World → Env → GameActor × Bool → Outcome
after_command w env (g, true) = settle_up w env g
after_command w env (g, false) = over (notify deleted g)

unfoldable pub conn_frame : World → Env → Option ℕ → ℕ → ℕ → List ℕ → ℕ → GameActor → Run GameActor
conn_frame w env (some pid) conn_id id bytes key g =
    handle_player_frame w.crc32 w.iteration env pid id bytes g
conn_frame w env none conn_id id bytes key g = ret (
    if id == w3gs_reqjoin
    then handle_join w.ban_check w.mute_check w.to_lowercase env key conn_id bytes g
    else g)

unfoldable pub step : World → Env → LoopEvent → GameActor → Run Outcome
step w env (command c) g =
    ret (after_command w env (handle_command w.crc32 w.random w.to_lowercase w.mutes env c g))
step w env released g = ret (over (notify deleted g))
step w env (frame conn_id id bytes key) g =
    conn_frame w env (lookup conn_id g.conn_pid) conn_id id bytes key g
    >>= (λ g'. ret (settle_up w env g'))
step w env (conn_closed conn_id) g = ret (settle_up w env (handle_conn_closed env conn_id g))
step w env ping_tick g = ret (settle_up w env (on_ping_tick env g))
step w env download_tick g =
    ret (settle_up w env (if g.started then g else pump_downloads w.crc32 g))
step w env slot_info_tick g = ret (settle_up w env (on_slot_info_tick env g))
step w env countdown_tick g = ret (settle_up w env (tick_countdown env g))
step w env next_action g =
    ret (settle_up w env (if g.game_loaded then game_tick w.crc32 env g else g))

-- The loop over the events, each at its instant: it ends with the first event that ends the game.
unfoldable pub run : World → List (Env × LoopEvent) → Run Outcome → Run Outcome
run w [] outcome = outcome
run w ((env, e) ∷ events) outcome =
    run w events (outcome >>= (λ o. elim o [ running g ↦ step w env e g | over g ↦ ret (over g) ]))

-- A game from its start, with the bytes of the map if its file can be read.
unfoldable pub run_game :
    World → GameConfig → Env → Option (List ℕ) → List (Env × LoopEvent) → Run Outcome
run_game w cfg env map_data events =
    run w events (ret (running (record (new cfg env) { map_data = map_data })))
