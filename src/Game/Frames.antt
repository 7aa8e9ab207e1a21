-- ===== src/Game/Frames.antt =====
-- src/game/actor.rs: handle_player_frame, what a frame of a joined player comes to.
-- Joins come through handle_join.
use ghostpp_rs.Prelude.{
  ℕ, ◌+◌, ◌-◌, ◌%◌, ◌^◌, false, ◌&&◌, ◌||◌, not, List, [], ◌∷◌, ◌++◌, Option, none, some, ltb, leb,
  ◌==◌, if◌then◌else◌, length, drop, as_u32, get_or, Run, ret, ◌>>=◌,
}
use ghostpp_rs.Util.{util_byte_array_to_u32}
use ghostpp_rs.Core.Gps.{gps_header_constant}
use ghostpp_rs.Core.GameProtocol.{
  IncomingAction, IncomingChatPlayer, IncomingMapSize, playerleave_lost, w3gs_mapsize,
  w3gs_mappartok, w3gs_pong_to_host, w3gs_gameloaded_self, w3gs_outgoing_action,
  w3gs_outgoing_keepalive, w3gs_leavegame, w3gs_dropreq, w3gs_chat_to_host,
}
use ghostpp_rs.Core.GameProtocol.Receive.{
  receive_w3gs_chat_to_host, receive_w3gs_gameloaded_self, receive_w3gs_outgoing_action,
  receive_w3gs_outgoing_keepalive, receive_w3gs_mapsize, receive_w3gs_mappartok,
  receive_w3gs_pong_to_host,
}
use ghostpp_rs.Core.Replay.{add_chat}
use ghostpp_rs.Game.{LobbyPlayer, GameActor, Env, player_chat, get_player, update_player}
use ghostpp_rs.Game.Batches.{record_replay}
use ghostpp_rs.Game.Downloads.{send_map_parts}
use ghostpp_rs.Game.Slots.Changes.{change_team, change_colour, change_race, change_handicap}
use ghostpp_rs.Game.Chat.{relay_chat}
use ghostpp_rs.Game.Loading.{handle_player_loaded}
use ghostpp_rs.Game.Leave.{notify, remove_player}
use ghostpp_rs.Game.Lag.{handle_drop_request}
use ghostpp_rs.Game.Reconnect.{handle_gps_frame}
use ghostpp_rs.Game.Desync.{Group, check_desync}
use ghostpp_rs.Game.MapSize.{handle_map_size}

unfoldable pub tell_chat : Option LobbyPlayer → List ℕ → GameActor → GameActor
tell_chat none message g = g
tell_chat (some p) message g = notify (player_chat p.name message p.spoofed p.spoofed_realm) g

-- The chat mode of a message in the game.
unfoldable pub chat_mode : List ℕ → ℕ
chat_mode extra = if leb 4 (length extra) then util_byte_array_to_u32 extra false 0 else 0

unfoldable pub record_chat : IncomingChatPlayer → GameActor → GameActor
record_chat chat g =
    if g.game_loaded && chat.flag == 32
    then record_replay (add_chat chat.from_pid chat.flag (chat_mode chat.extra_flags) chat.message)
        g
    else g

unfoldable pub handle_message : Env → ℕ → IncomingChatPlayer → GameActor → GameActor
handle_message env pid chat g =
    let told = tell_chat (get_player pid g.players) chat.message g in
    if told.game_loading then told else relay_chat env chat (record_chat chat told)

unfoldable pub handle_chat : Env → ℕ → IncomingChatPlayer → GameActor → GameActor
handle_chat env pid chat g =
    if chat.flag == 16 || chat.flag == 32
    then handle_message env pid chat g
    else if chat.flag == 17
    then change_team pid chat.byte g
    else if chat.flag == 18
    then change_colour pid chat.byte g
    else if chat.flag == 19
    then change_race pid chat.byte g
    else if chat.flag == 20
    then change_handicap pid chat.byte g
    else g

unfoldable pub acknowledge_part : ℕ → LobbyPlayer → LobbyPlayer
acknowledge_part acked p =
    if ltb p.last_part_acked acked then record p { last_part_acked = acked } else p

-- The last ten round trips.
unfoldable pub push_ping : ℕ → LobbyPlayer → LobbyPlayer
push_ping rtt p =
    let longer = p.pings ++ rtt ∷ [] in record p { pings = drop (length longer - 10) longer }

unfoldable pub handle_pong : Env → ℕ → ℕ → GameActor → GameActor
handle_pong env pid pong g =
    let rtt = (as_u32 env.ticks + 2 ^ 32 - pong) % 2 ^ 32 in
    if not (pong == 1) && ltb rtt 60000
    then record g { players = update_player pid (push_ping rtt) g.players }
    else g

unfoldable pub keep_alive : ℕ → LobbyPlayer → LobbyPlayer
keep_alive checksum p = record p {
  sync_counter = (p.sync_counter + 1) % 2 ^ 32;
  checksums = p.checksums ++ checksum ∷ [];
}

-- crc32fast's checksum and the order of a HashMap's groups are arguments. A chat packet that the parser
-- panics on ends the game task.
module _ (crc32 : List ℕ → ℕ) (iteration : List Group → List Group) where
  unfoldable pub handle_mapsize_frame : Env → ℕ → Option IncomingMapSize → GameActor → GameActor
  handle_mapsize_frame env pid none g = g
  handle_mapsize_frame env pid (some ms) g =
      handle_map_size crc32 env pid ms.size_flag ms.map_size g

  unfoldable pub handle_mappartok : ℕ → ℕ → GameActor → GameActor
  handle_mappartok pid acked g =
      send_map_parts crc32 pid
        (record g { players = update_player pid (acknowledge_part acked) g.players })

  unfoldable pub queue_action : Option IncomingAction → GameActor → GameActor
  queue_action none g = g
  queue_action (some action) g = record g { actions = g.actions ++ action ∷ [] }

  unfoldable pub handle_keepalive : Env → ℕ → ℕ → GameActor → GameActor
  handle_keepalive env pid checksum g =
      let queued = record g { players = update_player pid (keep_alive checksum) g.players } in
      if queued.game_loaded then check_desync iteration env queued else queued

  unfoldable pub chat_frame : Env → ℕ → Option IncomingChatPlayer → GameActor → GameActor
  chat_frame env pid none g = g
  chat_frame env pid (some chat) g = handle_chat env pid chat g

  -- Every packet but chat.
  unfoldable pub handle_w3gs_frame : Env → ℕ → ℕ → List ℕ → GameActor → GameActor
  handle_w3gs_frame env pid id bytes g =
      if id == w3gs_mapsize
      then handle_mapsize_frame env pid (receive_w3gs_mapsize bytes) g
      else if id == w3gs_mappartok
      then handle_mappartok pid (receive_w3gs_mappartok bytes) g
      else if id == w3gs_pong_to_host
      then handle_pong env pid (receive_w3gs_pong_to_host bytes) g
      else if id == w3gs_gameloaded_self
      then if receive_w3gs_gameloaded_self bytes then handle_player_loaded env pid g else g
      else if id == w3gs_outgoing_action
      then if g.game_loaded then queue_action (receive_w3gs_outgoing_action bytes pid) g else g
      else if id == w3gs_outgoing_keepalive
      then handle_keepalive env pid (receive_w3gs_outgoing_keepalive bytes) g
      else if id == w3gs_leavegame
      then remove_player env pid playerleave_lost g
      else if id == w3gs_dropreq
      then handle_drop_request env pid g
      else g

  abbrev pub count_received : ℕ → GameActor → GameActor
  count_received pid g = record g {
    players =
        update_player pid (λ p. record p { total_received = (p.total_received + 1) % 2 ^ 32 })
          g.players;
  }

  unfoldable pub handle_player_frame : Env → ℕ → ℕ → List ℕ → GameActor → Run GameActor
  handle_player_frame env pid id bytes g =
      if get_or bytes 0 0 == gps_header_constant
      then ret (handle_gps_frame pid id bytes g)
      else if id == w3gs_chat_to_host
      then receive_w3gs_chat_to_host bytes
        >>= (λ chat. ret (chat_frame env pid chat (count_received pid g)))
      else ret (handle_w3gs_frame env pid id bytes (count_received pid g))
