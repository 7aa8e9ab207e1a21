-- ===== src/Game.antt =====
-- src/game/actor.rs: the task of one hosted game. The records hold the fields of LobbyPlayer and
-- GameActor that the modelled operations read or change; what comes from the configuration and the map
-- stands among the game's fields. `players` lists the HashMap's players in its order of iteration, which
-- stays the same while none joins or leaves. A ConnHandle is a number: `links` maps it to the connection that its
-- clones share.
pub mod Hub
pub mod Batches
pub mod Gproxy
pub mod Slots
pub mod Downloads
pub mod Chat
pub mod VirtualHost
pub mod Loading
pub mod Leave
pub mod Lag
pub mod Start
pub mod Reconnect
pub mod Desync
pub mod Join
pub mod MapSize
pub mod Frames
pub mod Members
pub mod Shuffle
pub mod Mutes
pub mod Info
pub mod Admin
pub mod Commands
pub mod Setup
pub mod Loop
pub mod Fixture
mod Runs
use ghostpp_rs.Prelude.{ℕ, Bool, List, [], ◌∷◌, Option, none, some, ◌==◌, if◌then◌else◌}
use ghostpp_rs.Lang.{Catalog}
use ghostpp_rs.Net.Conn.{Link}
use ghostpp_rs.Core.GameSlot.{GameSlot}
use ghostpp_rs.Core.GameProtocol.{IncomingAction}
use ghostpp_rs.Core.Replay.{ReplayRecorder}

pub record LobbyPlayer : Type 0 where
  pub pid : ℕ
  pub name : List ℕ
  pub conn_id : ℕ
  pub handle : ℕ
  pub ip : List ℕ
  pub internal_ip : List ℕ
  pub external_ip : List ℕ
  pub download_allowed : Bool
  pub download_started : Bool
  pub download_finished : Bool
  pub last_part_sent : ℕ
  pub last_part_acked : ℕ
  pub finished_loading : Bool
  pub finished_loading_ticks : ℕ
  pub sync_counter : ℕ
  pub checksums : List ℕ
  pub lagging : Bool
  pub started_lagging_ticks : ℕ
  pub drop_vote : Bool
  pub gproxy : Bool
  pub gproxy_disconnected : Bool
  pub gproxy_key : ℕ
  pub gproxy_buffer : List (List ℕ)
  pub gproxy_buffer_bytes : ℕ
  pub total_sent : ℕ
  pub total_received : ℕ
  pub disconnect_time : ℕ
  pub spoofed : Bool
  pub spoofed_realm : List ℕ
  pub muted : Bool
  pub mute_expires : ℕ
  pub pings : List ℕ

-- The address of a connection: its text, the four octets unless it is an IPv6 address, and the port.
pub record Peer : Type 0 where
  pub text : List ℕ
  pub octets : Option (List ℕ)
  pub port : ℕ

-- GamePlayerRecord of src/db/mod.rs, which a leaving player becomes.
pub record GamePlayerRecord : Type 0 where
  pub name : List ℕ
  pub ip : List ℕ
  pub spoofed : ℕ
  pub reserved : ℕ
  pub loading_time_ms : ℕ
  pub left_secs : ℕ
  pub left_reason : List ℕ
  pub left_code : ℕ
  pub team : ℕ
  pub colour : ℕ
  pub spoofed_realm : List ℕ

-- GameRecord of src/db/mod.rs, which a game that is over becomes.
pub record GameRecord : Type 0 where
  pub server : List ℕ
  pub map : List ℕ
  pub datetime : List ℕ
  pub game_name : List ℕ
  pub owner_name : List ℕ
  pub duration : ℕ

-- MuteRecord of src/db/mod.rs, an entry of the blacklist.
pub record MuteRecord : Type 0 where
  pub server : List ℕ
  pub name : List ℕ
  pub date : List ℕ
  pub expires : ℕ
  pub admin : List ℕ
  pub reason : List ℕ

-- What a replay tells of the map: the fields of GameMap that the getters of src/core/gamemap.rs return.
pub record MapInfo : Type 0 where
  pub game_flags : List ℕ
  pub width : List ℕ
  pub height : List ℕ
  pub crc : List ℕ
  pub path : List ℕ
  pub sha1 : List ℕ
  pub game_type : ℕ
  pub size : List ℕ
  pub info : List ℕ

-- The GameEvents that the modelled operations send to BotCore.
pub data GameEvent : Type 0 where
  player_joined : List ℕ → GameEvent
  player_left : List ℕ → GameEvent
  player_chat : List ℕ → List ℕ → Bool → List ℕ → GameEvent
  game_started : GameEvent
  drop_request : List ℕ → Bool → List ℕ → GameEvent
  gproxy_registered : ℕ → GameEvent
  game_ended : GameRecord → List GamePlayerRecord → GameEvent
  deleted : GameEvent

pub record GameActor : Type 0 where
  pub slots : List GameSlot
  pub players : List LobbyPlayer
  pub links : ℕ → Link
  pub conns : List (ℕ × ℕ)
  pub peers : ℕ → Peer
  pub conn_pid : List (ℕ × ℕ)
  pub next_conn_id : ℕ
  pub owner_name : List ℕ
  pub virtual_host_name : List ℕ
  pub virtual_host_pid : ℕ
  pub random_seed : ℕ
  pub started : Bool
  pub countdown : Option ℕ
  pub game_loading : Bool
  pub game_loaded : Bool
  pub map_size : ℕ
  pub map_data : Option (List ℕ)
  pub map_options : ℕ
  pub map_flags : ℕ
  pub map_observers : ℕ
  pub map_layout_style : ℕ
  pub map_num_players : ℕ
  pub latency_ms : ℕ
  pub sync_window_ms : ℕ
  pub actions : List IncomingAction
  pub sync_counter : ℕ
  pub lagging : Bool
  pub last_lag_screen_reset : ℕ
  pub started_lagging_time : ℕ
  pub desync_warned : Bool
  pub checksum_turn : ℕ
  pub desynced : List (List ℕ)
  pub desync_started_turn : ℕ
  pub desync_reports : ℕ
  pub recent_checksums : List ℕ
  pub player_records : List GamePlayerRecord
  pub loaded_time : ℕ
  pub start_loading_ticks : ℕ
  pub mute_all : Bool
  pub autostart_players : ℕ
  pub autostart_override : Option ℕ
  pub announce : Option (ℕ × List ℕ)
  pub last_announce : ℕ
  pub lc_pings : Bool
  pub held_names : List (List ℕ)
  pub servers : List (List ℕ)
  pub hide_ip : Bool
  pub download_mode : ℕ
  pub slot_info_changed : Bool
  pub save_replays : Bool
  pub game_private : Bool
  pub game_name : List ℕ
  pub map_info : MapInfo
  pub hcl_string : List ℕ
  pub game_over_time : ℕ
  pub reconnect_enabled : Bool
  pub reconnect_port : ℕ
  pub gproxy_empty_actions : ℕ
  pub events : List GameEvent
  pub replay : Option ReplayRecorder
  pub pending_drop : List ℕ

-- What a handler takes from outside of the game: the message catalog, the text of milliseconds as
-- seconds with two decimals (`{:.2}` of an f64), and the clocks, which it reads at one instant.
pub record Env : Type 0 where
  pub catalog : Catalog
  pub seconds_text : ℕ → List ℕ
  pub now_secs : ℕ
  pub ticks : ℕ
  pub unix_time : ℕ

-- `players.get` and `players.get_mut`.
unfoldable pub get_player : ℕ → List LobbyPlayer → Option LobbyPlayer
get_player pid [] = none
get_player pid (p ∷ players) = if p.pid == pid then some p else get_player pid players

unfoldable pub update_player : ℕ → (LobbyPlayer → LobbyPlayer) → List LobbyPlayer → List LobbyPlayer
update_player pid f [] = []
update_player pid f (p ∷ players) = (if p.pid == pid then f p else p) ∷ update_player pid f players

-- `players.values().filter(...)`.
unfoldable pub select : (LobbyPlayer → Bool) → List LobbyPlayer → List LobbyPlayer
select f [] = []
select f (p ∷ players) = let rest = select f players in if f p then p ∷ rest else rest
