-- ===== src/Game/Leave.antt =====
-- src/game/actor.rs: how a player leaves the game (remove_player_with_reason, remove_player,
-- set_slot_open, stop_players, check_game_over). HashMap::remove of `conns` and `conn_pid` is
-- `remove_key`.
pub mod Kept
pub mod Removed
pub mod Many
pub mod GameOver
mod Runs
use Prim.Native.String.{String}
use ghostpp_rs.Prelude.{
  ℕ, ◌+◌, ◌-◌, ◌%◌, ◌^◌, Bool, true, false, ◌&&◌, ◌||◌, not, List, [], ◌∷◌, ◌++◌, map, Option, none,
  some, ltb, leb, ◌==◌, if◌then◌else◌, set, length, as_u32,
}
use ghostpp_rs.Prelude.Text.{codes, bytes_eq}
use ghostpp_rs.Lang.{t}
use ghostpp_rs.Core.GameSlot.{GameSlot, slotstatus_open, slotstatus_closed, slotstatus_occupied}
use ghostpp_rs.Core.GameProtocol.{
  IncomingAction, playerleave_disconnect, playerleave_lost, playerleave_lostbuildings,
  playerleave_won, playerleave_draw, playerleave_observer, playerleave_lobby, playerleave_gproxy,
}
use ghostpp_rs.Core.GameProtocol.Receive.{is_empty}
use ghostpp_rs.Core.GameProtocol.Send.{send_w3gs_playerleave_others}
use ghostpp_rs.Core.Replay.{add_leave}
use ghostpp_rs.Game.{
  LobbyPlayer, GameActor, GamePlayerRecord, GameEvent, player_left, Env, get_player,
}
use ghostpp_rs.Game.Hub.{send_all, send_all_slot_info, pids_of}
use ghostpp_rs.Game.Batches.{record_replay}
use ghostpp_rs.Game.Slots.{slot_at, slot_index_of_pid}
use ghostpp_rs.Game.Chat.{in_game, send_all_chat}
use ghostpp_rs.Game.VirtualHost.{create_virtual_host}
use ghostpp_rs.Game.Loading.{check_loading_complete}

unfoldable pub remove_key : ℕ → List (ℕ × ℕ) → List (ℕ × ℕ)
remove_key key [] = []
remove_key key ((k, v) ∷ entries) =
    let rest = remove_key key entries in if k == key then rest else (k, v) ∷ rest

unfoldable pub left_reason_text : ℕ → List ℕ
left_reason_text left_code =
    let code = left_code % 256 in
    if code == playerleave_disconnect
    then codes "has lost the connection"
    else if code == playerleave_lost
    then codes "has left the game voluntarily"
    else if code == playerleave_lostbuildings
    then codes "has left the game (lost buildings)"
    else if code == playerleave_won
    then codes "has left the game (won)"
    else if code == playerleave_draw
    then codes "has left the game (draw)"
    else if code == playerleave_observer
    then codes "has left the game (observer)"
    else if code == playerleave_lobby
    then codes "has left the game (lobby)"
    else if code == playerleave_gproxy
    then codes "was unrecoverably dropped from GProxy++"
    else codes "has left the game"

-- `players.remove`.
unfoldable pub remove_from : ℕ → List LobbyPlayer → List LobbyPlayer
remove_from pid [] = []
remove_from pid (p ∷ players) =
    let rest = remove_from pid players in if p.pid == pid then rest else p ∷ rest

-- `actions.retain`.
unfoldable pub retain_actions : ℕ → List IncomingAction → List IncomingAction
retain_actions pid [] = []
retain_actions pid (a ∷ actions) =
    let rest = retain_actions pid actions in if a.pid == pid then rest else a ∷ rest

-- `desynced.retain`.
unfoldable pub retain_names : List ℕ → List (List ℕ) → List (List ℕ)
retain_names name [] = []
retain_names name (n ∷ names) =
    let rest = retain_names name names in if bytes_eq n name then rest else n ∷ rest

unfoldable pub freed : GameSlot → GameSlot
freed s = record s { pid = 0; slot_status = slotstatus_open; computer = 0; download_status = 255 }

unfoldable pub free_slot : Option ℕ → List GameSlot → List GameSlot
free_slot none slots = slots
free_slot (some sid) slots = set slots sid (freed (slot_at slots sid))

abbrev pub byte_of : Bool → ℕ
byte_of b = if b then 1 else 0

-- The team and the colour of a slot, zeros without one.
unfoldable pub team_and_colour : Option ℕ → List GameSlot → ℕ × ℕ
team_and_colour none slots = (0, 0)
team_and_colour (some sid) slots = ((slot_at slots sid).team, (slot_at slots sid).colour)

unfoldable pub reason_or : Option (List ℕ) → ℕ → List ℕ
reason_or none left_code = left_reason_text left_code
reason_or (some reason) left_code = reason

unfoldable pub record_of : Env → LobbyPlayer → ℕ → Option (List ℕ) → GameActor → GamePlayerRecord
record_of env p left_code reason g =
    let place = team_and_colour (slot_index_of_pid p.pid g) g.slots in
    record {
      name = p.name;
      ip = p.ip;
      spoofed = byte_of p.spoofed;
      reserved = 0;
      loading_time_ms = as_u32 (p.finished_loading_ticks - g.start_loading_ticks);
      left_secs = if ltb 0 g.loaded_time then as_u32 (env.now_secs - g.loaded_time) else 0;
      left_reason = reason_or reason left_code;
      left_code = left_code;
      team = place.0;
      colour = place.1;
      spoofed_realm = p.spoofed_realm;
    }

-- Everything that happens to the state before the others are told.
unfoldable pub taken_out : Env → LobbyPlayer → ℕ → Option (List ℕ) → GameActor → GameActor
taken_out env p left_code reason g = record g {
  players = remove_from p.pid g.players;
  conn_pid = remove_key p.conn_id g.conn_pid;
  conns = remove_key p.conn_id g.conns;
  actions = retain_actions p.pid g.actions;
  slots = free_slot (slot_index_of_pid p.pid g) g.slots;
  desynced = retain_names p.name g.desynced;
  player_records = g.player_records ++ record_of env p left_code reason g ∷ [];
}

unfoldable pub note_leave : ℕ → ℕ → GameActor → GameActor
note_leave pid left_code g =
    if in_game g then record_replay (add_leave pid left_code g.game_loading) g else g

unfoldable pub update_lobby : GameActor → GameActor
update_lobby g = if g.started then g else create_virtual_host (send_all_slot_info g)

unfoldable pub abort_countdown : Env → Option ℕ → GameActor → GameActor
abort_countdown env none g = g
abort_countdown env (some n) g =
    send_all_chat (t env.catalog "countdown_cancelled_left" []) (record g { countdown = none })

unfoldable pub complete_loading : Env → GameActor → GameActor
complete_loading env g = if g.game_loading then check_loading_complete env g else g

unfoldable pub notify : GameEvent → GameActor → GameActor
notify event g = record g { events = g.events ++ event ∷ [] }

-- From the replay's record of the leave to the event for BotCore.
unfoldable pub tell_leave : Env → LobbyPlayer → ℕ → GameActor → GameActor
tell_leave env p left_code g =
    let g1 = note_leave p.pid left_code g in
    let g2 = update_lobby (send_all (send_w3gs_playerleave_others p.pid left_code) g1) in
    notify (player_left p.name) (complete_loading env (abort_countdown env g2.countdown g2))

unfoldable pub remove_found : Option LobbyPlayer → Env → ℕ → Option (List ℕ) → GameActor → GameActor
remove_found none env left_code reason g = g
remove_found (some p) env left_code reason g =
    tell_leave env p left_code (taken_out env p left_code reason g)

unfoldable pub remove_player_with_reason : Env → ℕ → ℕ → Option (List ℕ) → GameActor → GameActor
remove_player_with_reason env pid left_code reason g =
    remove_found (get_player pid g.players) env left_code reason g

unfoldable pub remove_player : Env → ℕ → ℕ → GameActor → GameActor
remove_player env pid left_code g = remove_player_with_reason env pid left_code none g

-- A loop that removes players by their pids.
unfoldable pub remove_all : Env → ℕ → Option (List ℕ) → List ℕ → GameActor → GameActor
remove_all env left_code reason [] g = g
remove_all env left_code reason (pid ∷ pids) g =
    remove_all env left_code reason pids (remove_player_with_reason env pid left_code reason g)

unfoldable pub stop_players : Env → List ℕ → GameActor → GameActor
stop_players env reason g = remove_all env playerleave_lost (some reason) (pids_of g.players) g

abbrev pub game_over_wait_secs : ℕ
game_over_wait_secs = 60

unfoldable pub start_game_over_timer : ℕ → GameActor → GameActor
start_game_over_timer now_secs g =
    if length g.players == 1 && g.game_over_time == 0
    then record g { game_over_time = now_secs }
    else g

unfoldable pub finish_game_over : Env → GameActor → GameActor
finish_game_over env g =
    if (not (g.game_over_time == 0) && leb game_over_wait_secs (env.now_secs - g.game_over_time))
      && not (is_empty g.players)
    then stop_players env (codes "was disconnected (gameover timer finished)")
        (send_all_chat (t env.catalog "gameover_timer_finished" []) g)
    else g

unfoldable pub check_game_over : Env → GameActor → GameActor
check_game_over env g =
    if not (in_game g) then g else finish_game_over env (start_game_over_timer env.now_secs g)

unfoldable pub with_slot_open : ℕ → Bool → GameActor → GameActor
with_slot_open sid opens g = record g {
  slots = set g.slots sid (record (slot_at g.slots sid) {
    slot_status = if opens then slotstatus_open else slotstatus_closed;
    pid = 0;
    computer = 0;
    download_status = 255;
  });
}

unfoldable pub set_slot_open : Env → ℕ → Bool → GameActor → GameActor
set_slot_open env sid opens g =
    let s = slot_at g.slots sid in
    if not (ltb sid (length g.slots)) || g.started
    then g
    else if s.slot_status == slotstatus_occupied && s.computer == 0
    then send_all_slot_info (with_slot_open sid opens (remove_player env s.pid playerleave_lobby g))
    else send_all_slot_info (with_slot_open sid opens g)
