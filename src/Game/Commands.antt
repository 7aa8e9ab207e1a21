-- ===== src/Game/Commands.antt =====
-- src/game/actor.rs: handle_command and handle_admin_command, with the GameCommand of
-- src/bot/messages.rs. The answer is the game and whether it goes on. The sockets of the commands are
-- not modelled; the product of the batches and the latency wraps as a u32.
pub mod Limits
use ghostpp_rs.Prelude.{
  ℕ, suc, ◌+◌, ◌*◌, ◌%◌, ◌^◌, Bool, true, false, ◌&&◌, not, List, [], ◌∷◌, Option, none, some, ltb,
  ◌==◌, if◌then◌else◌, max, as_u32,
}
use ghostpp_rs.Prelude.Text.{codes, decimal, bytes_eq}
use ghostpp_rs.Prelude.Words.{trim}
use ghostpp_rs.Lang.{t}
use ghostpp_rs.Net.Conn.{opened}
use ghostpp_rs.Core.GameProtocol.Receive.{is_empty}
use ghostpp_rs.Game.{LobbyPlayer, Peer, GameActor, Env, update_player}
use ghostpp_rs.Game.Chat.{send_all_chat}
use ghostpp_rs.Game.Slots.Changes.{swap_slots}
use ghostpp_rs.Game.Leave.{set_slot_open}
use ghostpp_rs.Game.Lag.{effective_sync_limit, stop_laggers}
use ghostpp_rs.Game.Start.{start_countdown}
use ghostpp_rs.Game.Reconnect.{handle_gproxy_reconnect}
use ghostpp_rs.Game.Mutes.{MuteDb, reply_to, mute_command, unmute_command, mutelist_command}
use ghostpp_rs.Game.Info.{find_named, check_command, from_command, ping_command}
use ghostpp_rs.Game.Admin.{
  abort_command, openall_command, closeall_command, sp_command, download_command, hold_command,
  kick_player, announce_command, drop_command, autostart_command, hcl_command, clearhcl_command,
}

pub data GameCommand : Type 0 where
  new_connection : Peer → GameCommand
  gproxy_reconnect : ℕ → ℕ → ℕ → GameCommand
  say : List ℕ → GameCommand
  open_slot : ℕ → GameCommand
  close_slot : ℕ → GameCommand
  swap : ℕ → ℕ → GameCommand
  kick : List ℕ → GameCommand
  start : GameCommand
  set_latency : Option ℕ → GameCommand
  set_sync_limit : Option ℕ → GameCommand
  spoof_check : List ℕ → List ℕ → GameCommand
  admin_command : List ℕ → List ℕ → List ℕ → GameCommand
  admin_drop_laggers : List ℕ → GameCommand
  close_game : GameCommand

-- The arms of handle_admin_command.
pub data AdminArm : Type 0 where
  abort openall closeall sp download hold mute unmute mutelist muteall unmuteall check checkme
        version trigger from ping drop finish autostart announce hcl clearhcl unknown :
      AdminArm

abbrev pub arm_names : List (List ℕ × AdminArm)
arm_names =
    (codes "abort", abort)
    ∷ (codes "a", abort)
    ∷ (codes "openall", openall)
    ∷ (codes "closeall", closeall)
    ∷ (codes "sp", sp)
    ∷ (codes "download", download)
    ∷ (codes "dl", download)
    ∷ (codes "hold", hold)
    ∷ (codes "mute", mute)
    ∷ (codes "unmute", unmute)
    ∷ (codes "mutelist", mutelist)
    ∷ (codes "muteall", muteall)
    ∷ (codes "unmuteall", unmuteall)
    ∷ (codes "check", check)
    ∷ (codes "checkme", checkme)
    ∷ (codes "version", version)
    ∷ (codes "trigger", trigger)
    ∷ (codes "from", from)
    ∷ (codes "ping", ping)
    ∷ (codes "drop", drop)
    ∷ (codes "end", finish)
    ∷ (codes "autostart", autostart)
    ∷ (codes "announce", announce)
    ∷ (codes "hcl", hcl)
    ∷ (codes "clearhcl", clearhcl)
    ∷ []

unfoldable pub find_arm : List ℕ → List (List ℕ × AdminArm) → AdminArm
find_arm command [] = unknown
find_arm command ((name, arm) ∷ arms) =
    let rest = find_arm command arms in if bytes_eq command name then arm else rest

abbrev pub latency_min : ℕ
latency_min = 5

abbrev pub latency_max : ℕ
latency_max = 500

abbrev pub sync_window_min_ms : ℕ
sync_window_min_ms = 500

abbrev pub sync_window_max_ms : ℕ
sync_window_max_ms = 30000

-- `Ord::clamp`.
unfoldable pub clamp : ℕ → ℕ → ℕ → ℕ
clamp lo hi n = if ltb n lo then lo else if ltb hi n then hi else n

unfoldable pub latency_text : Env → ℕ → GameActor → List ℕ
latency_text env n g =
    let latency : List ℕ × List ℕ = (codes "latency", decimal g.latency_ms) in
    let batches : List ℕ × List ℕ = (codes "batches", decimal (effective_sync_limit g)) in
    if g.latency_ms == n
    then t env.catalog "latency_set" (latency ∷ (batches ∷ []))
    else t env.catalog "latency_set_clamped" (
        (codes "min", decimal latency_min)
        ∷ ((codes "max", decimal latency_max) ∷ (latency ∷ (batches ∷ []))))

unfoldable pub change_latency : Env → Option ℕ → GameActor → GameActor
change_latency env none g =
    send_all_chat
      (t env.catalog "latency_current" (
        (codes "latency", decimal g.latency_ms)
        ∷ (codes "window", decimal g.sync_window_ms)
        ∷ (codes "batches", decimal (effective_sync_limit g))
        ∷ []))
      g
change_latency env (some n) g =
    let set = record g { latency_ms = clamp latency_min latency_max n } in
    send_all_chat (latency_text env n set) set

abbrev pub sync_limit_vars : GameActor → List (List ℕ × List ℕ)
sync_limit_vars g =
    (codes "batches", decimal (effective_sync_limit g))
    ∷ (codes "window", decimal g.sync_window_ms)
    ∷ []

unfoldable pub change_sync_limit : Env → Option ℕ → GameActor → GameActor
change_sync_limit env none g =
    send_all_chat (t env.catalog "synclimit_current" (sync_limit_vars g)) g
change_sync_limit env (some batches) g =
    let window =
      clamp sync_window_min_ms sync_window_max_ms (as_u32 (max batches 1 * g.latency_ms)) in
    let set = record g { sync_window_ms = window } in
    send_all_chat (t env.catalog "synclimit_set" (sync_limit_vars set)) set

unfoldable pub connect : Peer → GameActor → GameActor
connect peer g =
    let id = g.next_conn_id in
    record g {
      next_conn_id = id + 1;
      conns = (id, id) ∷ g.conns;
      links = λ i. if i == id then opened id else g.links i;
      peers = λ i. if i == id then peer else g.peers i;
    }

unfoldable pub verify : Env → List ℕ → Option LobbyPlayer → GameActor → GameActor
verify env realm none g = g
verify env realm (some p) g =
    let verified = record g {
      players =
          update_player p.pid (λ q. record q { spoofed = true; spoofed_realm = realm }) g.players;
    } in
    if p.spoofed
    then g
    else send_all_chat (t env.catalog "spoofcheck_accepted" ((codes "name", p.name) ∷ [])) verified

unfoldable pub drop_laggers_by : Env → List ℕ → GameActor → GameActor
drop_laggers_by env requester g =
    if g.game_loaded && g.lagging
    then stop_laggers env (t env.catalog "drop_by_admin" ((codes "name", requester) ∷ [])) g
    else g

unfoldable pub requester_pid : Option LobbyPlayer → Option ℕ
requester_pid none = none
requester_pid (some p) = some p.pid

unfoldable pub goes_on : AdminArm → Bool
goes_on finish = false
goes_on arm = true

-- crc32fast's checksum, the random numbers of the shuffle, Unicode lower case, the database of mutes.
module _ (crc32 : List ℕ → ℕ) (random : ℕ → ℕ) (to_lowercase : List ℕ → List ℕ) (db : MuteDb) where
  unfoldable pub obey : AdminArm → Env → List ℕ → Option ℕ → List ℕ → GameActor → GameActor
  obey abort env requester req arg g = abort_command env req g
  obey openall env requester req arg g = openall_command env g
  obey closeall env requester req arg g = closeall_command env g
  obey sp env requester req arg g = sp_command random env g
  obey download env requester req arg g = download_command crc32 to_lowercase env req arg g
  obey hold env requester req arg g = hold_command to_lowercase env req arg g
  obey mute env requester req arg g = mute_command to_lowercase db env req requester arg g
  obey unmute env requester req arg g = unmute_command to_lowercase db env req arg g
  obey mutelist env requester req arg g = mutelist_command to_lowercase db env req g
  obey muteall env requester req arg g =
      send_all_chat (t env.catalog "muteall_on" []) (record g { mute_all = true })
  obey unmuteall env requester req arg g =
      send_all_chat (t env.catalog "muteall_off" []) (record g { mute_all = false })
  obey check env requester req arg g =
      check_command env req (if is_empty arg then requester else arg) g
  obey checkme env requester req arg g = check_command env req requester g
  obey version env requester req arg g = reply_to req (t env.catalog "version" []) g
  obey trigger env requester req arg g =
      reply_to req (t env.catalog "command_trigger" ((codes "trigger", codes "!") ∷ [])) g
  obey from env requester req arg g = from_command env req g
  obey ping env requester req arg g = ping_command env req arg g
  obey drop env requester req arg g = drop_command env req g
  obey finish env requester req arg g = send_all_chat (t env.catalog "game_ended_admin" []) g
  obey autostart env requester req arg g = autostart_command env req arg g
  obey announce env requester req arg g = announce_command to_lowercase env req arg g
  obey hcl env requester req arg g = hcl_command env req arg g
  obey clearhcl env requester req arg g = clearhcl_command env req g
  obey unknown env requester req arg g = g

  unfoldable pub handle_admin_command :
      Env → List ℕ → List ℕ → List ℕ → GameActor → GameActor × Bool
  handle_admin_command env requester command payload g =
      let arm = find_arm command arm_names in
      let req = requester_pid (find_named requester g.players) in
      (obey arm env requester req (trim payload) g, goes_on arm)

  unfoldable pub handle_command : Env → GameCommand → GameActor → GameActor × Bool
  handle_command env (new_connection peer) g = (connect peer g, true)
  handle_command env (gproxy_reconnect pid key last_packet) g =
      (handle_gproxy_reconnect env pid key last_packet g, true)
  handle_command env (say message) g = (send_all_chat message g, true)
  handle_command env (open_slot sid) g = (set_slot_open env sid true g, true)
  handle_command env (close_slot sid) g = (set_slot_open env sid false g, true)
  handle_command env (swap a b) g = (swap_slots a b g, true)
  handle_command env (kick name) g = (kick_player to_lowercase env name g, true)
  handle_command env start g = (start_countdown env g, true)
  handle_command env (set_latency value) g = (change_latency env value g, true)
  handle_command env (set_sync_limit value) g = (change_sync_limit env value g, true)
  handle_command env (spoof_check name realm) g =
      (verify env realm (find_named name g.players) g, true)
  handle_command env (admin_command requester command payload) g =
      handle_admin_command env requester command payload g
  handle_command env (admin_drop_laggers requester) g = (drop_laggers_by env requester g, true)
  handle_command env close_game g = (g, false)
