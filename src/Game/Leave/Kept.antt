-- ===== src/Game/Leave/Kept.antt =====
-- src/game/actor.rs: what a leave does to the game, apart from what goes out. `core` forgets what the
-- announcement of a leave may touch besides: the virtual host, the countdown, the phase of loading, the
-- checksums queued while loading, and the events for BotCore.
use ghostpp_rs.Prelude.{
  ℕ, ◌≡◌, refl, sym, ap, ◌∙◌, false, ◌||◌, not, List, [], ◌∷◌, map, Option, none, some, if-either,
  ◌==◌,
}
use ghostpp_rs.Prelude.Text.{codes}
use ghostpp_rs.Lang.{t}
use ghostpp_rs.Net.Conn.{opened}
use ghostpp_rs.Core.GameProtocol.Receive.{is_empty}
use ghostpp_rs.Core.GameProtocol.Send.{send_w3gs_playerleave_others}
use ghostpp_rs.Core.Replay.{add_leave}
use ghostpp_rs.Game.{LobbyPlayer, GameActor, GameEvent, player_left, Env, get_player}
use ghostpp_rs.Game.Hub.{send_all, send_all_slot_info}
use ghostpp_rs.Game.Hub.Settled.{
  settle, settle_player, send_all-settle, send_all_slot_info-settle, record_replay-settle,
}
use ghostpp_rs.Game.Slots.{new_pid}
use ghostpp_rs.Game.Chat.{in_game, send_private_chat}
use ghostpp_rs.Game.Chat.Settled.{send_all_chat-settle, send_private_chat-settle}
use ghostpp_rs.Game.VirtualHost.{
  no_virtual_host, delete_virtual_host, create_virtual_host, with_virtual_host,
}
use ghostpp_rs.Game.Loading.{
  all_loaded, clear_checksums, shortest, longest, load_secs, load_line, whisper_load_times,
  announce_load_times, now_loaded, check_loading_complete,
}
use ghostpp_rs.Game.Leave.{
  taken_out, note_leave, update_lobby, abort_countdown, complete_loading, notify, tell_leave,
  remove_player_with_reason, remove_found,
}

unfoldable pub core_player : LobbyPlayer → LobbyPlayer
core_player p = record p {
  total_sent = 0;
  gproxy_buffer = [];
  gproxy_buffer_bytes = 0;
  checksums = [];
}

unfoldable pub core : GameActor → GameActor
core g = record g {
  players = map core_player g.players;
  links = opened;
  pending_drop = [];
  replay = none;
  virtual_host_pid = 255;
  countdown = none;
  game_loading = false;
  game_loaded = false;
  loaded_time = 0;
  events = [];
}

map-core_settle :
    (players : List LobbyPlayer)
    → map core_player (map settle_player players) ≡ map core_player players
unfolding core_player settle_player
map-core_settle [] = refl
map-core_settle (p ∷ players) =
    ap (λ (ps : List LobbyPlayer). core_player p ∷ ps) (map-core_settle players)

map-core_clear :
    (players : List LobbyPlayer)
    → map core_player (map clear_checksums players) ≡ map core_player players
unfolding core_player
map-core_clear [] = refl
map-core_clear (p ∷ players) =
    ap (λ (ps : List LobbyPlayer). core_player p ∷ ps) (map-core_clear players)

-- The rest of `core g`, with these players.
abbrev core_with : GameActor → List LobbyPlayer → GameActor
core_with g ps = record g {
  players = ps;
  links = opened;
  pending_drop = [];
  replay = none;
  virtual_host_pid = 255;
  countdown = none;
  game_loading = false;
  game_loaded = false;
  loaded_time = 0;
  events = [];
}

core-settle : (g : GameActor) → core (settle g) ≡ core g
unfolding core settle
core-settle g = ap (core_with g) (map-core_settle g.players)

pub core_of_settle : (a b : GameActor) → settle a ≡ settle b → core a ≡ core b
core_of_settle a b e = sym (core-settle a) ∙ ap core e ∙ core-settle b

pub note_leave-settle :
    (pid left_code : ℕ) (g : GameActor) → settle (note_leave pid left_code g) ≡ settle g
unfolding note_leave
note_leave-settle pid left_code g =
    if-either settle (in_game g) (record_replay-settle (add_leave pid left_code g.game_loading) g)
      refl

with_virtual_host-core : (o : Option ℕ) (g : GameActor) → core (with_virtual_host o g) ≡ core g
unfolding with_virtual_host
with_virtual_host-core none g = refl
with_virtual_host-core (some pid) g =
    core_of_settle _ (record g { virtual_host_pid = pid })
      (send_all-settle _ (record g { virtual_host_pid = pid }))
    ∙ (unfold core in refl)

pub delete_virtual_host-core : (g : GameActor) → core (delete_virtual_host g) ≡ core g
unfolding delete_virtual_host
delete_virtual_host-core g = if-either core (g.virtual_host_pid == 255) refl (
    core_of_settle _ (no_virtual_host g) (send_all-settle _ (no_virtual_host g))
    ∙ (unfold core in refl))

create_virtual_host-core : (g : GameActor) → core (create_virtual_host g) ≡ core g
unfolding create_virtual_host
create_virtual_host-core g =
    if-either core (not (g.virtual_host_pid == 255) || g.started) refl
      (with_virtual_host-core (new_pid g) g)

update_lobby-core : (g : GameActor) → core (update_lobby g) ≡ core g
unfolding update_lobby
update_lobby-core g = if-either core g.started refl (
    create_virtual_host-core (send_all_slot_info g)
    ∙ core_of_settle (send_all_slot_info g) g (send_all_slot_info-settle g))

abort_countdown-core :
    (env : Env) (o : Option ℕ) (g : GameActor) → core (abort_countdown env o g) ≡ core g
unfolding abort_countdown
abort_countdown-core env none g = refl
abort_countdown-core env (some n) g =
    core_of_settle _ (record g { countdown = none })
      (send_all_chat-settle (t env.catalog "countdown_cancelled_left" [])
        (record g { countdown = none }))
    ∙ (unfold core in refl)

whisper_load_times-settle :
    (env : Env) (players : List LobbyPlayer) (g : GameActor)
    → settle (whisper_load_times env players g) ≡ settle g
unfolding whisper_load_times
whisper_load_times-settle env [] g = refl
whisper_load_times-settle env (p ∷ players) g =
    whisper_load_times-settle env players (
      send_private_chat p.pid
        (t env.catalog "load_your_time"
          ((codes "seconds", load_secs env g p.finished_loading_ticks) ∷ []))
        g)
    ∙ send_private_chat-settle p.pid _ g

pub announce_load_times-settle :
    (env : Env) (players : List LobbyPlayer) (g : GameActor)
    → settle (announce_load_times env players g) ≡ settle g
unfolding announce_load_times load_line
announce_load_times-settle env [] g = refl
announce_load_times-settle env (p ∷ players) g =
    whisper_load_times-settle env (p ∷ players) (
      load_line env "load_longest" (longest p players)
        (load_line env "load_shortest" (shortest p players) g))
    ∙ (send_all_chat-settle _ (load_line env "load_shortest" (shortest p players) g)
        ∙ send_all_chat-settle _ g)

check_loading_complete-core :
    (env : Env) (g : GameActor) → core (check_loading_complete env g) ≡ core g
unfolding check_loading_complete
check_loading_complete-core env g =
    if-either core ((not g.game_loading || is_empty g.players) || not (all_loaded g.players)) refl
      loaded
  where
    loaded :
        core (announce_load_times env (map clear_checksums g.players) (now_loaded env g)) ≡ core g
    loaded =
        core_of_settle _ (now_loaded env g)
          (announce_load_times-settle env (map clear_checksums g.players) (now_loaded env g))
        ∙ (unfold core in unfold now_loaded in ap (core_with g) (map-core_clear g.players))

complete_loading-core : (env : Env) (g : GameActor) → core (complete_loading env g) ≡ core g
unfolding complete_loading
complete_loading-core env g = if-either core g.game_loading (check_loading_complete-core env g) refl

notify-core : (event : GameEvent) (g : GameActor) → core (notify event g) ≡ core g
unfolding core notify
notify-core event g = refl

-- Telling the others of a leave changes nothing of the core.
tell_leave-core :
    (env : Env) (p : LobbyPlayer) (left_code : ℕ) (g : GameActor)
    → core (tell_leave env p left_code g) ≡ core g
unfolding tell_leave
tell_leave-core env p left_code g =
    notify-core (player_left p.name) (complete_loading env (abort_countdown env g3.countdown g3))
    ∙ (complete_loading-core env (abort_countdown env g3.countdown g3)
        ∙ (abort_countdown-core env g3.countdown g3
            ∙ (update_lobby-core g2
                ∙ core_of_settle g2 g
                    (send_all-settle _ g1 ∙ note_leave-settle p.pid left_code g))))
  where
    g1 : GameActor
    g1 = note_leave p.pid left_code g

    g2 : GameActor
    g2 = send_all (send_w3gs_playerleave_others p.pid left_code) g1

    g3 : GameActor
    g3 = update_lobby g2

pub remove_player-core :
    (env : Env) (pid left_code : ℕ) (reason : Option (List ℕ)) (g : GameActor) (p : LobbyPlayer)
    → get_player pid g.players ≡ some p
    → core (remove_player_with_reason env pid left_code reason g)
      ≡ core (taken_out env p left_code reason g)
unfolding remove_player_with_reason remove_found
remove_player-core env pid left_code reason g p found =
    rw found (tell_leave-core env p left_code (taken_out env p left_code reason g))

pub remove_player-absent :
    (env : Env) (pid left_code : ℕ) (reason : Option (List ℕ)) (g : GameActor)
    → get_player pid g.players ≡ none
    → remove_player_with_reason env pid left_code reason g ≡ g
unfolding remove_player_with_reason remove_found
remove_player-absent env pid left_code reason g absent = rw absent refl

-- The fields of two games with the same core.
module _ (a b : GameActor) (same : core a ≡ core b) where
  pub core-players : map core_player a.players ≡ map core_player b.players
  unfolding core
  core-players = ap (λ (x : GameActor). x.players) same

  pub core-actions : a.actions ≡ b.actions
  unfolding core
  core-actions = ap (λ (x : GameActor). x.actions) same

  pub core-slots : a.slots ≡ b.slots
  unfolding core
  core-slots = ap (λ (x : GameActor). x.slots) same
