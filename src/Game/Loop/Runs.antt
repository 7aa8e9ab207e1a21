-- ===== src/Game/Loop/Runs.antt =====
-- The loop and the commands of src/game/actor.rs on a small game.
use mathlib.Core.List.{flatten, Perm}
use ghostpp_rs.Prelude.{
  ret, ℕ, ◌+◌, ◌*◌, ◌≤◌, ◌<◌, ◌≡◌, refl, arith, true, false, none, some, List, [], ◌∷◌, ◌++◌, map,
  All,
}
use ghostpp_rs.Prelude.Text.{codes, bytes_eq}
use ghostpp_rs.Game.{GameActor, GameEvent, GameRecord, game_ended, deleted, Env}
use ghostpp_rs.Game.Leave.{record_of}
use ghostpp_rs.Game.Reconnect.{lookup}
use ghostpp_rs.Core.GameProtocol.{playerleave_lost, w3gs_leavegame}
use ghostpp_rs.Game.Fixture.{game, player, env, sum_of}
use ghostpp_rs.Game.Lag.{effective_sync_limit}
use ghostpp_rs.Game.Shuffle.{seats, shuffle_players}
use ghostpp_rs.Game.Shuffle.Shuffled.{unseated, shuffle_players-Perm}
use ghostpp_rs.Game.Mutes.{listed, chunk_chat_lines}
use ghostpp_rs.Game.Mutes.Lines.{commas, headed, Fits, chunk_chat_lines_cut}
use ghostpp_rs.Game.Commands.{
  close_game, set_latency, change_latency, change_sync_limit, handle_admin_command, find_arm,
  goes_on,
}
use ghostpp_rs.Game.Commands.Limits.{
  IsWithinLimits, change_settings-IsWithinLimits, change_sync_limit_effective,
}
use ghostpp_rs.Game.Setup.{GameConfig}
use ghostpp_rs.Game.Loop.{World, LoopEvent, command, frame, slot_info_tick, ping_tick, over, step}
use ghostpp_rs.Game.Loop.Ends.{IsToldOf}
use ghostpp_rs.Game.Loop.LastLeave.{step_last_leave}

-- A database without mutes and bans.
abbrev world : World
world = record {
  crc32 = sum_of;
  iteration = λ groups. groups;
  random = λ i. i * 7;
  to_lowercase = λ name. name;
  mutes = record {
    mute_add = λ mute. none;
    mute_remove = λ server name. false;
    mute_list = λ server now. listed [];
    date = [];
  };
  ban_check = λ server name ip. false;
  mute_check = λ server name now. none;
  datetime = [];
}

limits : IsWithinLimits game
unfolding IsWithinLimits
limits = ((omega arith, omega arith), (omega arith, omega arith))

change_settings-IsWithinLimits_example :
    IsWithinLimits (change_latency env (some 120) game)
    × IsWithinLimits (change_sync_limit env (some 120) game)
    × ((change_latency env (some 120) game).sync_window_ms ≡ 5000)
    × (effective_sync_limit (change_latency env (some 120) game)
          * (change_latency env (some 120) game).latency_ms
        ≤ (change_latency env (some 120) game).sync_window_ms)
    × ((change_latency env (some 120) game).sync_window_ms
        < effective_sync_limit (change_latency env (some 120) game)
            * (change_latency env (some 120) game).latency_ms
          + (change_latency env (some 120) game).latency_ms)
change_settings-IsWithinLimits_example = change_settings-IsWithinLimits env (some 120) game limits

change_sync_limit_effective_example :
    effective_sync_limit (change_sync_limit env (some 12) game) ≡ 12
change_sync_limit_effective_example =
    change_sync_limit_effective env 12 game (omega arith) (omega arith) (omega arith) (omega arith)

-- A started game with one player left.
abbrev last_game : GameActor
last_game = record game { started = true; players = player 1 true ∷ [] }

joined : lookup 11 last_game.conn_pid ≡ some 1
unfolding lookup
joined = refl

step_last_leave_example :
    (h : GameActor) × (es : List GameEvent) × (told : GameRecord) × (step world env
        (frame 11 w3gs_leavegame (247 ∷ 33 ∷ 8 ∷ 0 ∷ 1 ∷ 0 ∷ 0 ∷ 0 ∷ []) 5)
        last_game
      ≡ ret (over h))
    × (h.events
        ≡ es
          ++ game_ended told (record_of env (player 1 true) playerleave_lost none last_game ∷ [])
            ∷ (deleted ∷ []))
    × IsToldOf told last_game
    × (h.players ≡ [])
    × (h.player_records ≡ [])
step_last_leave_example =
    step_last_leave world env last_game (player 1 true) 11 (247 ∷ 33 ∷ 8 ∷ 0 ∷ 1 ∷ 0 ∷ 0 ∷ 0 ∷ []) 5
      refl refl joined refl

-- A map with the slots of the small game.
abbrev cfg : GameConfig
cfg = record {
  game_name = codes "game";
  game_state = 16;
  map = record {
    slots = game.slots;
    options = 0;
    flags = 0;
    observers = 0;
    layout_style = 0;
    num_players = 2;
    default_hcl = [];
    info = game.map_info;
  };
  virtual_host_name = codes "host";
  hide_ip = false;
  lc_pings = false;
  latency_ms = 100;
  servers = [];
  owner_name = [];
  autostart_players = 0;
  reconnect_enabled = false;
  reconnect_port = 0;
  gproxy_empty_actions = 0;
  save_replays = false;
  download_mode = 1;
}

abbrev short_life : List (Env × LoopEvent)
short_life =
    (env, slot_info_tick)
    ∷ (env, command (set_latency (some 50)))
    ∷ (env, command close_game)
    ∷ (env, ping_tick)
    ∷ []

shuffle_players-Perm_example :
    Perm (seats game.slots) (seats (shuffle_players (λ i. i * 7) game).slots)
    × (map unseated (shuffle_players (λ i. i * 7) game).slots ≡ map unseated game.slots)
shuffle_players-Perm_example = shuffle_players-Perm (λ i. i * 7) game

chunk_chat_lines_cut_example :
    (first : List (List ℕ)) × (more : List (List (List ℕ))) × (chunk_chat_lines
        (codes "2:")
        (codes "Ann(1h)" ∷ codes "Bob(3d)" ∷ [])
      ≡ headed (codes "2:") first ∷ map commas more)
    × (first ++ flatten more ≡ codes "Ann(1h)" ∷ codes "Bob(3d)" ∷ [])
    × Fits (headed (codes "2:") first) first
    × All (λ group. Fits (commas group) group) more
chunk_chat_lines_cut_example =
    chunk_chat_lines_cut (codes "2:") (codes "Ann(1h)" ∷ codes "Bob(3d)" ∷ [])

-- "end" is answered with false.
admin_end_test :
    (handle_admin_command sum_of
      (λ i. i)
      (λ name. name)
      world.mutes
      env
      (codes "B")
      (codes "end")
      []
      game).1
    ≡ false
unfolding handle_admin_command goes_on find_arm bytes_eq
admin_end_test = refl
