-- ===== src/Game/Admin.antt =====
-- src/game/actor.rs: the commands that an admin gives in the game, but for the mutes: what each of
-- handle_admin_command's arms does. Unicode lower case, crc32fast's checksum and the random numbers of
-- the shuffle are arguments.
use ghostpp_rs.Prelude.{
  ℕ, zero, suc, ◌-◌, ◌^◌, Bool, true, false, ◌&&◌, ◌||◌, not, List, [], ◌∷◌, ◌++◌, map, Option,
  none, some, ltb, leb, ◌==◌, if◌then◌else◌, length, take, drop,
}
use ghostpp_rs.Prelude.Text.{codes, decimal, bytes_eq}
use ghostpp_rs.Prelude.Words.{trim, split_whitespace, parse}
use ghostpp_rs.Lang.{t}
use ghostpp_rs.Util.{find_space}
use ghostpp_rs.Core.GameSlot.{slotstatus_open, slotstatus_closed, slotstatus_occupied}
use ghostpp_rs.Core.GameProtocol.{playerleave_lobby}
use ghostpp_rs.Core.GameProtocol.Receive.{is_empty}
use ghostpp_rs.Core.GameProtocol.Send.{send_w3gs_startdownload}
use ghostpp_rs.Game.{LobbyPlayer, GameActor, Env, get_player, update_player, select}
use ghostpp_rs.Game.Hub.{send_to_pid, pids_of}
use ghostpp_rs.Game.Chat.{send_all_chat}
use ghostpp_rs.Game.Downloads.{host_pid, send_map_parts, to_ascii_lowercase}
use ghostpp_rs.Game.MapSize.{begin_download}
use ghostpp_rs.Game.Slots.{slot_at}
use ghostpp_rs.Game.Leave.{remove_player, set_slot_open}
use ghostpp_rs.Game.Lag.{stop_laggers}
use ghostpp_rs.Game.Start.{all_allowed, count_occupied, maybe_autostart}
use ghostpp_rs.Game.Shuffle.{shuffle_players}
use ghostpp_rs.Game.Mutes.{contains, reply_to, find_player_pid}

unfoldable pub abort_command : Env → Option ℕ → GameActor → GameActor
abort_command env req g = elim g.countdown [
  | none ↦ reply_to req (t env.catalog "countdown_none" []) g
  | some n ↦ send_all_chat (t env.catalog "countdown_aborted" []) (record g { countdown = none })
]

-- `n` slots from the number `sid` on: those with the status are opened or closed.
unfoldable pub set_slots : Env → ℕ → Bool → ℕ → ℕ → GameActor → GameActor
set_slots env status opens zero sid g = g
set_slots env status opens (suc n) sid g =
    let g' =
      if (slot_at g.slots sid).slot_status == status then set_slot_open env sid opens g else g in
    set_slots env status opens n (suc sid) g'

abbrev pub openall_command : Env → GameActor → GameActor
openall_command env g = set_slots env slotstatus_closed true (length g.slots) 0 g

abbrev pub closeall_command : Env → GameActor → GameActor
closeall_command env g = set_slots env slotstatus_open false (length g.slots) 0 g

unfoldable pub sp_command : (ℕ → ℕ) → Env → GameActor → GameActor
sp_command random env g =
    send_all_chat (t env.catalog "players_shuffled" []) (shuffle_players random g)

abbrev pub allow_download : LobbyPlayer → LobbyPlayer
allow_download p = record (begin_download p) { download_allowed = true }

module _ (crc32 : List ℕ → ℕ) (to_lowercase : List ℕ → List ℕ) where
  unfoldable pub approve_download : Env → Option ℕ → Option LobbyPlayer → GameActor → GameActor
  approve_download env req none g = g
  approve_download env req (some p) g =
      if p.download_finished
      then reply_to req (t env.catalog "download_already_has_map" ((codes "name", p.name) ∷ [])) g
      else let allowed = record g { players = update_player p.pid allow_download g.players } in
        let told = send_to_pid p.pid (send_w3gs_startdownload (host_pid allowed)) allowed in
        send_all_chat (t env.catalog "download_approved" ((codes "name", p.name) ∷ []))
          (send_map_parts crc32 p.pid told)

  unfoldable pub download_matches : Env → Option ℕ → List ℕ → List ℕ → GameActor → GameActor
  download_matches env req arg [] g =
      reply_to req (t env.catalog "download_no_match" ((codes "name", arg) ∷ [])) g
  download_matches env req arg (pid ∷ []) g = approve_download env req (get_player pid g.players) g
  download_matches env req arg (pid ∷ (other ∷ pids)) g =
      reply_to req (t env.catalog "download_many_matches" ((codes "name", arg) ∷ [])) g

  unfoldable pub download_command : Env → Option ℕ → List ℕ → GameActor → GameActor
  download_command env req arg g =
      let target = to_lowercase arg in
      if g.started
      then reply_to req (t env.catalog "download_game_started" []) g
      else if is_empty target
      then reply_to req (t env.catalog "download_usage" []) g
      else download_matches env req arg
          (pids_of (select (λ p. contains target (to_lowercase p.name)) g.players)) g

module _ (to_lowercase : List ℕ → List ℕ) where
  unfoldable pub hold_command : Env → Option ℕ → List ℕ → GameActor → GameActor
  hold_command env req arg g =
      if is_empty arg
      then reply_to req (t env.catalog "hold_usage" []) g
      else reply_to req (t env.catalog "hold_reserved" ((codes "names", arg) ∷ []))
          (record g { held_names = g.held_names ++ map to_lowercase (split_whitespace arg) })

  -- A slot that is out of range or has no player stays as it is.
  unfoldable pub kick_slot : Env → ℕ → GameActor → GameActor
  kick_slot env n g =
      let s = slot_at g.slots (n - 1) in
      if leb 1 n
        && leb n (length g.slots)
        && (s.slot_status == slotstatus_occupied && s.computer == 0)
      then remove_player env s.pid playerleave_lobby g
      else g

  unfoldable pub kick_player : Env → List ℕ → GameActor → GameActor
  kick_player env name g = elim (parse (2 ^ 64 - 1) (trim name)) [
    | some n ↦ kick_slot env n g
    | none ↦ elim (find_player_pid to_lowercase name g.players) [
      | none ↦ g
      | some pid ↦ remove_player env pid playerleave_lobby g
    ]
  ]

  -- The interval and the message, where the argument has both.
  unfoldable pub announcement : List ℕ → Option (ℕ × List ℕ)
  announcement arg =
      let behind : Option ℕ = find_space arg in
      let first : List ℕ = elim behind [ none ↦ arg | some n ↦ take n arg ] in
      let message : List ℕ = elim behind [ none ↦ [] | some n ↦ drop (suc n) arg ] in
      elim (parse (2 ^ 64 - 1) first) [
        | none ↦ none
        | some secs ↦ if ltb 0 secs && not (is_empty message) then some (secs, message) else none
      ]

  unfoldable pub set_announcement : Env → Option ℕ → Option (ℕ × List ℕ) → GameActor → GameActor
  set_announcement env req none g = reply_to req (t env.catalog "announce_usage" []) g
  set_announcement env req (some (secs, message)) g =
      send_all_chat (t env.catalog "announce_set" ((codes "seconds", decimal secs) ∷ []))
        (record g { announce = some (secs, message); last_announce = env.now_secs })

  unfoldable pub announce_command : Env → Option ℕ → List ℕ → GameActor → GameActor
  announce_command env req arg g =
      if is_empty arg || bytes_eq (to_lowercase arg) (codes "off")
      then send_all_chat (t env.catalog "announce_off" []) (record g { announce = none })
      else set_announcement env req (announcement arg) g

unfoldable pub drop_command : Env → Option ℕ → GameActor → GameActor
drop_command env req g =
    if g.game_loaded && g.lagging
    then stop_laggers env (t env.catalog "drop_laggers" []) g
    else reply_to req (t env.catalog "drop_none" []) g

unfoldable pub autostart_command : Env → Option ℕ → List ℕ → GameActor → GameActor
autostart_command env req arg g =
    if is_empty arg || bytes_eq (map to_ascii_lowercase arg) (codes "off")
    then send_all_chat (t env.catalog "autostart_off" []) (record g { autostart_override = some 0 })
    else elim (parse 255 arg) [
      | none ↦ reply_to req (t env.catalog "autostart_usage" []) g
      | some n ↦ maybe_autostart env (
          send_all_chat (t env.catalog "autostart_set" ((codes "count", decimal n) ∷ []))
            (record g { autostart_override = some n }))
    ]

unfoldable pub hcl_command : Env → Option ℕ → List ℕ → GameActor → GameActor
hcl_command env req arg g =
    if is_empty arg
    then send_all_chat (t env.catalog "hcl_current" ((codes "hcl", g.hcl_string) ∷ [])) g
    else if g.started
    then reply_to req (t env.catalog "hcl_game_started" []) g
    else if ltb (count_occupied g.slots) (length arg)
    then send_all_chat (t env.catalog "hcl_too_long" []) g
    else if not (all_allowed arg)
    then send_all_chat (t env.catalog "hcl_invalid_chars" []) g
    else send_all_chat (t env.catalog "hcl_set" ((codes "hcl", arg) ∷ []))
        (record g { hcl_string = arg })

unfoldable pub clearhcl_command : Env → Option ℕ → GameActor → GameActor
clearhcl_command env req g =
    if g.started
    then reply_to req (t env.catalog "hcl_game_started" []) g
    else send_all_chat (t env.catalog "hcl_cleared" []) (record g { hcl_string = [] })
