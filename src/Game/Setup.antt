-- ===== src/Game/Setup.antt =====
-- src/game/actor.rs: GameActor::new, from a GameConfig and the map that it refers to. The fields of the
-- configuration that only the file of the replay and the status need are left out.
use ghostpp_rs.Prelude.{ℕ, Bool, false, List, [], none, ◌==◌, as_u32}
use ghostpp_rs.Util.{util_byte_array_to_u32}
use ghostpp_rs.Net.Conn.{opened}
use ghostpp_rs.Core.GameSlot.{GameSlot}
use ghostpp_rs.Game.{GameActor, MapInfo, Env}
use ghostpp_rs.Game.Commands.{clamp, latency_min, latency_max}

-- What the getters of GameMap in src/core/gamemap.rs return.
pub record GameMap : Type 0 where
  pub slots : List GameSlot
  pub options : ℕ
  pub flags : ℕ
  pub observers : ℕ
  pub layout_style : ℕ
  pub num_players : ℕ
  pub default_hcl : List ℕ
  pub info : MapInfo

pub record GameConfig : Type 0 where
  pub game_name : List ℕ
  pub game_state : ℕ
  pub map : GameMap
  pub virtual_host_name : List ℕ
  pub hide_ip : Bool
  pub lc_pings : Bool
  pub latency_ms : ℕ
  pub servers : List (List ℕ)
  pub owner_name : List ℕ
  pub autostart_players : ℕ
  pub reconnect_enabled : Bool
  pub reconnect_port : ℕ
  pub gproxy_empty_actions : ℕ
  pub save_replays : Bool
  pub download_mode : ℕ

abbrev pub sync_tolerance_ms : ℕ
sync_tolerance_ms = 5000

abbrev pub game_private : ℕ
game_private = 17

-- The virtual host has the pid 1; the random seed is read off the clock.
unfoldable pub new : GameConfig → Env → GameActor
new cfg env = record {
  slots = cfg.map.slots;
  players = [];
  links = opened;
  conns = [];
  peers = λ handle. record { text = []; octets = none; port = 0 };
  conn_pid = [];
  next_conn_id = 1;
  owner_name = cfg.owner_name;
  virtual_host_name = cfg.virtual_host_name;
  virtual_host_pid = 1;
  random_seed = as_u32 env.ticks;
  started = false;
  countdown = none;
  game_loading = false;
  game_loaded = false;
  map_size = util_byte_array_to_u32 cfg.map.info.size false 0;
  map_data = none;
  map_options = cfg.map.options;
  map_flags = cfg.map.flags;
  map_observers = cfg.map.observers;
  map_layout_style = cfg.map.layout_style;
  map_num_players = cfg.map.num_players;
  latency_ms = clamp latency_min latency_max cfg.latency_ms;
  sync_window_ms = sync_tolerance_ms;
  actions = [];
  sync_counter = 0;
  lagging = false;
  last_lag_screen_reset = 0;
  started_lagging_time = 0;
  desync_warned = false;
  checksum_turn = 0;
  desynced = [];
  desync_started_turn = 0;
  desync_reports = 0;
  recent_checksums = [];
  player_records = [];
  loaded_time = 0;
  start_loading_ticks = 0;
  mute_all = false;
  autostart_players = cfg.autostart_players;
  autostart_override = none;
  announce = none;
  last_announce = 0;
  lc_pings = cfg.lc_pings;
  held_names = [];
  servers = cfg.servers;
  hide_ip = cfg.hide_ip;
  download_mode = cfg.download_mode;
  slot_info_changed = false;
  save_replays = cfg.save_replays;
  game_private = cfg.game_state == game_private;
  game_name = cfg.game_name;
  map_info = cfg.map.info;
  hcl_string = cfg.map.default_hcl;
  game_over_time = 0;
  reconnect_enabled = cfg.reconnect_enabled;
  reconnect_port = cfg.reconnect_port;
  gproxy_empty_actions = cfg.gproxy_empty_actions;
  events = [];
  replay = none;
  pending_drop = [];
}
