-- ===== src/Game/Loading.antt =====
-- src/game/actor.rs: the end of loading (handle_player_loaded, check_loading_complete).
use Prim.Native.String.{String}
use ghostpp_rs.Prelude.{
  ℕ, ◌-◌, Bool, true, false, ◌&&◌, ◌||◌, not, List, [], ◌∷◌, map, Option, none, some, ltb,
  if◌then◌else◌,
}
use ghostpp_rs.Prelude.Text.{codes}
use ghostpp_rs.Lang.{t}
use ghostpp_rs.Core.GameProtocol.Receive.{is_empty}
use ghostpp_rs.Core.GameProtocol.Send.{send_w3gs_gameloaded_others}
use ghostpp_rs.Game.{LobbyPlayer, GameActor, Env, get_player, update_player}
use ghostpp_rs.Game.Hub.{send_all}
use ghostpp_rs.Game.Chat.{send_all_chat, send_private_chat}

unfoldable pub all_loaded : List LobbyPlayer → Bool
all_loaded [] = true
all_loaded (p ∷ players) = p.finished_loading && all_loaded players

abbrev pub clear_checksums : LobbyPlayer → LobbyPlayer
clear_checksums p = record p { checksums = [] }

-- The loop that keeps the player whose ticks `beats` those of the player kept so far.
unfoldable pub extreme : (ℕ → ℕ → Bool) → LobbyPlayer → List LobbyPlayer → LobbyPlayer
extreme beats kept [] = kept
extreme beats kept (p ∷ players) =
    extreme beats (if beats p.finished_loading_ticks kept.finished_loading_ticks then p else kept)
      players

unfoldable pub shortest : LobbyPlayer → List LobbyPlayer → LobbyPlayer
shortest p players = extreme (λ t s. ltb t s) p players

unfoldable pub longest : LobbyPlayer → List LobbyPlayer → LobbyPlayer
longest p players = extreme (λ t l. ltb l t) p players

-- The text of the time from the start of loading to `ticks`.
abbrev pub load_secs : Env → GameActor → ℕ → List ℕ
load_secs env g ticks = env.seconds_text (ticks - g.start_loading_ticks)

unfoldable pub load_line : Env → String → LobbyPlayer → GameActor → GameActor
load_line env key p g =
    send_all_chat
      (t env.catalog key
        ((codes "name", p.name) ∷ (codes "seconds", load_secs env g p.finished_loading_ticks) ∷ []))
      g

unfoldable pub whisper_load_times : Env → List LobbyPlayer → GameActor → GameActor
whisper_load_times env [] g = g
whisper_load_times env (p ∷ players) g = whisper_load_times env players (
    send_private_chat p.pid
      (t env.catalog "load_your_time"
        ((codes "seconds", load_secs env g p.finished_loading_ticks) ∷ []))
      g)

-- `players` are the players at the start of the announcement.
unfoldable pub announce_load_times : Env → List LobbyPlayer → GameActor → GameActor
announce_load_times env [] g = g
announce_load_times env (p ∷ players) g =
    let g1 = load_line env "load_shortest" (shortest p players) g in
    let g2 = load_line env "load_longest" (longest p players) g1 in
    whisper_load_times env (p ∷ players) g2

-- The game's state once everyone has loaded, before the announcement.
unfoldable pub now_loaded : Env → GameActor → GameActor
now_loaded env g = record g {
  game_loading = false;
  game_loaded = true;
  loaded_time = env.now_secs;
  players = map clear_checksums g.players;
}

unfoldable pub check_loading_complete : Env → GameActor → GameActor
check_loading_complete env g =
    if (not g.game_loading || is_empty g.players) || not (all_loaded g.players)
    then g
    else announce_load_times env (map clear_checksums g.players) (now_loaded env g)

unfoldable pub mark_loaded : ℕ → LobbyPlayer → LobbyPlayer
mark_loaded ticks p = record p {
  finished_loading = true;
  finished_loading_ticks = ticks;
  checksums = [];
}

unfoldable pub finish_loading : Option LobbyPlayer → Env → ℕ → GameActor → GameActor
finish_loading none env pid g = g
finish_loading (some p) env pid g =
    if p.finished_loading
    then g
    else check_loading_complete env (
        send_all (send_w3gs_gameloaded_others pid)
          (record g { players = update_player pid (mark_loaded env.ticks) g.players }))

unfoldable pub handle_player_loaded : Env → ℕ → GameActor → GameActor
handle_player_loaded env pid g =
    if not g.game_loading then g else finish_loading (get_player pid g.players) env pid g
