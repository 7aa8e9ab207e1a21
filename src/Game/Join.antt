-- ===== src/Game/Join.antt =====
-- src/game/actor.rs: handle_join, which lets a connection into the lobby as a player. The database's
-- answers (ban_check, mute_check), Unicode lower case and the random key are arguments.
use ghostpp_rs.Prelude.{
  ℕ, ◌+◌, ◌-◌, ◌/◌, ◌%◌, max, Bool, true, false, ◌||◌, not, List, [], ◌∷◌, ◌++◌, map, Option, none,
  some, leb, ◌==◌, if◌then◌else◌, any, length, set, as_u8,
}
use ghostpp_rs.Prelude.Text.{codes, bytes_eq}
use ghostpp_rs.Lang.{Catalog, t}
use ghostpp_rs.Util.{format_duration_secs}
use ghostpp_rs.Core.GameSlot.{slotstatus_occupied}
use ghostpp_rs.Core.GameProtocol.{IncomingJoinPlayer, rejectjoin_full, rejectjoin_started}
use ghostpp_rs.Core.GameProtocol.Receive.{is_empty, receive_w3gs_reqjoin}
use ghostpp_rs.Core.GameProtocol.Send.{
  send_w3gs_rejectjoin, send_w3gs_slotinfojoin, send_w3gs_playerinfo, send_w3gs_mapcheck,
}
use ghostpp_rs.Game.{LobbyPlayer, GameActor, Peer, Env, player_joined}
use ghostpp_rs.Game.Hub.{send_to_others, send_all_slot_info}
use ghostpp_rs.Game.Downloads.{to_ascii_lowercase}
use ghostpp_rs.Game.Slots.{slot_at, empty_slot, new_pid}
use ghostpp_rs.Game.Chat.{send_private_chat}
use ghostpp_rs.Game.VirtualHost.{four_zeros, delete_virtual_host}
use ghostpp_rs.Game.Leave.{remove_key, notify}
use ghostpp_rs.Game.Start.{maybe_autostart}
use ghostpp_rs.Game.Reconnect.{lookup, send_direct}

-- The address and the port, big-endian, as SLOTINFOJOIN carries them.
unfoldable pub addr_ip : Bool → Option (List ℕ) → List ℕ
addr_ip hide none = four_zeros
addr_ip hide (some octets) = if hide then four_zeros else octets

unfoldable pub addr_bytes : Peer → Bool → List ℕ × List ℕ
addr_bytes peer hide = (addr_ip hide peer.octets, as_u8 (peer.port / 256) ∷ as_u8 peer.port ∷ [])

unfoldable pub mute_duration_text : Catalog → ℕ → List ℕ
mute_duration_text catalog secs =
    if secs == 0 then t catalog "mute_permanent" [] else format_duration_secs secs

unfoldable pub db_servers : GameActor → List (List ℕ)
db_servers g = if is_empty g.servers then [] ∷ [] else g.servers

-- The first server that answers with a mute.
unfoldable pub first_mute : (List ℕ → Option ℕ) → List (List ℕ) → Option ℕ
first_mute check [] = none
first_mute check (server ∷ servers) = elim (check server) [
  | none ↦ first_mute check servers
  | some expires ↦ some expires
]

unfoldable pub has_name : List ℕ → LobbyPlayer → Bool
has_name name p = bytes_eq (map to_ascii_lowercase p.name) (map to_ascii_lowercase name)

-- The first entry of the list that is the name goes.
unfoldable pub claim_name : List ℕ → List (List ℕ) → List (List ℕ)
claim_name name [] = []
claim_name name (n ∷ names) =
    let rest = claim_name name names in if bytes_eq n name then names else n ∷ rest

unfoldable pub reject : ℕ → ℕ → ℕ → GameActor → GameActor
reject reason conn_id handle g =
    let told = send_direct handle (send_w3gs_rejectjoin reason) g in
    record told { conns = remove_key conn_id told.conns }

unfoldable pub is_muted_join : Option ℕ → Bool
is_muted_join none = false
is_muted_join (some expires) = true

unfoldable pub expires_or_zero : Option ℕ → ℕ
expires_or_zero none = 0
expires_or_zero (some expires) = expires

-- The parts of a join that the steps share.
pub record Joining : Type 0 where
  pub conn_id : ℕ
  pub handle : ℕ
  pub name : List ℕ
  pub internal_ip : List ℕ
  pub muted : Option ℕ
  pub gproxy_key : ℕ

-- The packets counted from the start of the connection: the answer, the virtual host's and the players'
-- info, and the map check.
unfoldable pub pre_sent : GameActor → ℕ
pre_sent g = (if not (g.virtual_host_pid == 255) then 3 else 2) + length g.players

unfoldable pub new_player : Joining → ℕ → ℕ → List ℕ → Peer → LobbyPlayer
new_player j pid sent external_ip peer = record {
  pid = pid;
  name = j.name;
  conn_id = j.conn_id;
  handle = j.handle;
  ip = peer.text;
  internal_ip = j.internal_ip;
  external_ip = external_ip;
  download_allowed = false;
  download_started = false;
  download_finished = false;
  last_part_sent = 0;
  last_part_acked = 0;
  finished_loading = false;
  finished_loading_ticks = 0;
  sync_counter = 0;
  checksums = [];
  lagging = false;
  started_lagging_ticks = 0;
  drop_vote = false;
  gproxy = false;
  gproxy_disconnected = false;
  gproxy_key = j.gproxy_key;
  gproxy_buffer = [];
  gproxy_buffer_bytes = 0;
  total_sent = sent;
  total_received = 1;
  disconnect_time = 0;
  spoofed = false;
  spoofed_realm = [];
  muted = is_muted_join j.muted;
  mute_expires = expires_or_zero j.muted;
  pings = [];
}

unfoldable pub occupy : ℕ → ℕ → GameActor → GameActor
occupy sid pid g = record g {
  slots = set g.slots sid (record (slot_at g.slots sid) {
    pid = pid;
    slot_status = slotstatus_occupied;
    computer = 0;
    download_status = 255;
  });
}

-- PLAYERINFO of everyone who is there.
unfoldable pub show_players : ℕ → List LobbyPlayer → GameActor → GameActor
show_players handle [] g = g
show_players handle (p ∷ players) g =
    show_players handle players
      (send_direct handle (send_w3gs_playerinfo p.pid p.name p.external_ip p.internal_ip) g)

-- What the joiner is sent before the player exists.
unfoldable pub welcome : ℕ → ℕ → GameActor → GameActor
welcome handle pid g =
    let address = addr_bytes (g.peers handle) g.hide_ip in
    let placed =
      send_direct handle
        (send_w3gs_slotinfojoin pid address.1 address.0 g.slots g.random_seed g.map_layout_style
          (g.map_num_players % 256))
        g in
    let hosted =
      if not (g.virtual_host_pid == 255)
      then send_direct handle
          (send_w3gs_playerinfo g.virtual_host_pid g.virtual_host_name four_zeros four_zeros) placed
      else placed in
    send_direct handle
      (send_w3gs_mapcheck g.map_info.path g.map_info.size g.map_info.info g.map_info.crc
        g.map_info.sha1)
      (show_players handle g.players hosted)

unfoldable pub tell_mute : Env → ℕ → Option ℕ → GameActor → GameActor
tell_mute env pid none g = g
tell_mute env pid (some expires) g =
    let remaining = if expires == 0 then 0 else max (expires - env.unix_time) 1 in
    send_private_chat pid
      (t env.catalog "mute_join_notice"
        ((codes "duration", mute_duration_text env.catalog remaining) ∷ []))
      g

-- The player joins the players, at the end of their order.
unfoldable pub insert_player : Joining → ℕ → ℕ → List ℕ → GameActor → GameActor
insert_player j pid sent external_ip g = record g {
  players = g.players ++ new_player j pid sent external_ip (g.peers j.handle) ∷ [];
  conn_pid = (j.conn_id, pid) ∷ remove_key j.conn_id g.conn_pid;
}

unfoldable pub seat : Env → Joining → ℕ → ℕ → GameActor → GameActor
seat env j sid pid g =
    let external_ip = (addr_bytes (g.peers j.handle) g.hide_ip).0 in
    let joined =
      insert_player j pid (pre_sent g) external_ip (welcome j.handle pid (occupy sid pid g)) in
    let shown =
      send_all_slot_info
        (send_to_others pid (send_w3gs_playerinfo pid j.name external_ip j.internal_ip) joined) in
    maybe_autostart env (notify (player_joined j.name) (tell_mute env pid j.muted shown))

unfoldable pub seat_or_reject : Option ℕ → Env → Joining → ℕ → GameActor → GameActor
seat_or_reject none env j sid g = reject rejectjoin_full j.conn_id j.handle g
seat_or_reject (some pid) env j sid g = seat env j sid pid g

-- With eleven players the virtual host makes room.
unfoldable pub make_room : GameActor → GameActor
make_room g = if leb 11 (length g.players) then delete_virtual_host g else g

unfoldable pub take_slot : Option ℕ → Env → Joining → GameActor → GameActor
take_slot none env j g = reject rejectjoin_full j.conn_id j.handle g
take_slot (some sid) env j g =
    let room = make_room g in seat_or_reject (new_pid room) env j sid room

module _ (ban_check : List ℕ → List ℕ → List ℕ → Bool) (mute_check : List ℕ → List ℕ → ℕ → Option ℕ)
    (to_lowercase : List ℕ → List ℕ) where
  unfoldable pub join_as : Env → ℕ → ℕ → ℕ → IncomingJoinPlayer → GameActor → GameActor
  join_as env key conn_id handle join g =
      if g.started
      then reject rejectjoin_started conn_id handle g
      else if any (has_name join.name) g.players
          || any (λ server. ban_check server join.name (g.peers handle).text) g.servers
      then reject rejectjoin_full conn_id handle g
      else take_slot (empty_slot g) env
          (record {
            conn_id = conn_id;
            handle = handle;
            name = join.name;
            internal_ip = join.internal_ip;
            muted = first_mute (λ server. mute_check server join.name env.unix_time) (db_servers g);
            gproxy_key = key;
          })
          (record g { held_names = claim_name (to_lowercase join.name) g.held_names })

  unfoldable pub join_on :
      Option ℕ → Env → ℕ → ℕ → Option IncomingJoinPlayer → GameActor → GameActor
  join_on none env key conn_id join g = g
  join_on (some handle) env key conn_id none g = g
  join_on (some handle) env key conn_id (some join) g = join_as env key conn_id handle join g

  unfoldable pub handle_join : Env → ℕ → ℕ → List ℕ → GameActor → GameActor
  handle_join env key conn_id bytes g =
      join_on (lookup conn_id g.conns) env key conn_id (receive_w3gs_reqjoin bytes) g
