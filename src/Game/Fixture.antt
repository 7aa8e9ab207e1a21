-- ===== src/Game/Fixture.antt =====
-- A small game, on which the theorems on src/game/actor.rs are tried: two players, the first behind
-- GProxy++, in a game that is running.
use ghostpp_rs.Prelude.{ℕ, ◌+◌, Bool, true, false, List, [], ◌∷◌, none, length}
use ghostpp_rs.Net.Conn.{opened}
use ghostpp_rs.Core.GameSlot.{GameSlot}
use ghostpp_rs.Core.GameProtocol.{IncomingAction}
use ghostpp_rs.Game.{LobbyPlayer, GameActor, Env}

abbrev pub player : ℕ → Bool → LobbyPlayer
player pid gproxy = record {
  pid = pid;
  name = 66 ∷ [];
  conn_id = 10 + pid;
  handle = pid;
  ip = [];
  internal_ip = 0 ∷ 0 ∷ 0 ∷ 0 ∷ [];
  external_ip = 0 ∷ 0 ∷ 0 ∷ 0 ∷ [];
  download_allowed = false;
  download_started = false;
  download_finished = false;
  last_part_sent = 0;
  last_part_acked = 0;
  finished_loading = true;
  finished_loading_ticks = 900;
  sync_counter = 0;
  checksums = [];
  lagging = false;
  started_lagging_ticks = 0;
  drop_vote = false;
  gproxy = gproxy;
  gproxy_disconnected = false;
  gproxy_key = 77;
  gproxy_buffer = [];
  gproxy_buffer_bytes = 0;
  total_sent = 7;
  total_received = 1;
  disconnect_time = 0;
  spoofed = false;
  spoofed_realm = [];
  muted = false;
  mute_expires = 0;
  pings = [];
}

abbrev pub taken : ℕ → ℕ → GameSlot
taken pid tint = record {
  pid = pid;
  download_status = 100;
  slot_status = 2;
  computer = 0;
  team = 0;
  colour = tint;
  race = 32;
  computer_type = 1;
  handicap = 100;
}

abbrev pub queue : List IncomingAction
queue =
    record { pid = 1; crc = []; action = 22 ∷ 4 ∷ [] }
    ∷ record { pid = 2; crc = []; action = 27 ∷ [] }
    ∷ []

abbrev pub game : GameActor
game = record {
  slots = taken 1 0 ∷ taken 2 1 ∷ [];
  players = player 1 true ∷ player 2 false ∷ [];
  links = opened;
  conns = (11, 1) ∷ (12, 2) ∷ [];
  peers = λ handle. record { text = []; octets = none; port = 6112 };
  conn_pid = (11, 1) ∷ (12, 2) ∷ [];
  next_conn_id = 13;
  owner_name = [];
  virtual_host_name = 71 ∷ [];
  virtual_host_pid = 255;
  random_seed = 5;
  started = false;
  countdown = none;
  game_loading = false;
  game_loaded = true;
  map_size = 0;
  map_data = none;
  map_options = 0;
  map_flags = 0;
  map_observers = 0;
  map_layout_style = 0;
  map_num_players = 2;
  latency_ms = 100;
  sync_window_ms = 5000;
  actions = queue;
  sync_counter = 0;
  lagging = false;
  last_lag_screen_reset = 0;
  started_lagging_time = 0;
  desync_warned = false;
  checksum_turn = 0;
  desynced = [];
  desync_started_turn = 0;
  desync_reports = 0;
  recent_checksums = [];
  player_records = [];
  loaded_time = 100;
  start_loading_ticks = 800;
  mute_all = false;
  autostart_players = 0;
  autostart_override = none;
  announce = none;
  last_announce = 0;
  lc_pings = false;
  held_names = [];
  servers = [];
  hide_ip = false;
  download_mode = 1;
  slot_info_changed = false;
  save_replays = true;
  game_private = false;
  game_name = 71 ∷ [];
  map_info = record {
    game_flags = [];
    width = [];
    height = [];
    crc = [];
    path = [];
    sha1 = [];
    game_type = 9;
    size = 0 ∷ 0 ∷ 0 ∷ 0 ∷ [];
    info = 0 ∷ 0 ∷ 0 ∷ 0 ∷ [];
  };
  hcl_string = [];
  game_over_time = 0;
  reconnect_enabled = true;
  reconnect_port = 6114;
  gproxy_empty_actions = 2;
  events = [];
  replay = none;
  pending_drop = [];
}

-- The catalog is empty, so that a text is its key.
abbrev pub env : Env
env = record {
  catalog = [];
  seconds_text = λ ms. [];
  now_secs = 1000;
  ticks = 90000;
  unix_time = 1700000000;
}

-- A checksum for the examples.
abbrev pub sum_of : List ℕ → ℕ
sum_of = length
