-- ===== src/Core/GameProtocol/Send.antt =====
-- The builders of src/core/gameprotocol.rs, for the packets that the host sends. A builder that the
-- source guards by its parameters yields the empty packet when they are out of range. The text of a
-- name or a message is its UTF-8 bytes.
pub mod Sealed
pub mod SlotInfo
pub mod Actions
use ghostpp_rs.Prelude.{
  ℕ, ◌+◌, Bool, ◌&&◌, not, List, [], ◌∷◌, ◌++◌, map, leb, ltb, ◌==◌, if◌then◌else◌, length, take,
  drop, u16_le, u32_le, as_u8, as_u16, as_u32,
}
use ghostpp_rs.Util.{assign_length, util_encode_stat_string}
use ghostpp_rs.Core.GameSlot.{GameSlot, get_byte_array}
use ghostpp_rs.Core.GameProtocol.{
  IncomingAction, w3gs_header_constant, w3gs_ping_from_host, w3gs_slotinfojoin, w3gs_rejectjoin,
  w3gs_playerinfo, w3gs_playerleave_others, w3gs_gameloaded_others, w3gs_slotinfo,
  w3gs_countdown_start, w3gs_countdown_end, w3gs_incoming_action, w3gs_chat_from_host,
  w3gs_start_lag, w3gs_stop_lag, w3gs_searchgame, w3gs_gameinfo, w3gs_creategame, w3gs_refreshgame,
  w3gs_decreategame, w3gs_mapcheck, w3gs_startdownload, w3gs_mappart, w3gs_incoming_action2,
}
use ghostpp_rs.Core.GameProtocol.Receive.{is_empty}

-- Header, id, two bytes for the length, and the body; then assign_length.
unfoldable pub packet : ℕ → List ℕ → List ℕ
packet id body = (assign_length (w3gs_header_constant ∷ id ∷ 0 ∷ 0 ∷ body)).0

abbrev zeros : List ℕ
zeros = 0 ∷ 0 ∷ 0 ∷ 0 ∷ []

abbrev one_word : List ℕ
one_word = 1 ∷ 0 ∷ 0 ∷ 0 ∷ []

-- `get_ticks() as u32` is the argument.
unfoldable pub send_w3gs_ping_from_host : ℕ → List ℕ
send_w3gs_ping_from_host ticks = packet w3gs_ping_from_host (u32_le (as_u32 ticks))

-- The bytes of every slot, one after the other.
unfoldable pub slots_bytes : List GameSlot → List ℕ
slots_bytes [] = []
slots_bytes (s ∷ slots) = get_byte_array s ++ slots_bytes slots

unfoldable pub encode_slot_info : List GameSlot → ℕ → ℕ → ℕ → List ℕ
encode_slot_info slots random_seed layout_style player_slots =
    as_u8 (length slots) ∷ slots_bytes slots
    ++ (u32_le random_seed ++ (layout_style ∷ player_slots ∷ []))

unfoldable pub send_w3gs_slotinfojoin : ℕ → List ℕ → List ℕ → List GameSlot → ℕ → ℕ → ℕ → List ℕ
send_w3gs_slotinfojoin pid port external_ip slots random_seed layout_style player_slots =
    let slot_info = encode_slot_info slots random_seed layout_style player_slots in
    if length port == 2 && length external_ip == 4
    then packet w3gs_slotinfojoin (
        u16_le (as_u16 (length slot_info))
        ++ (slot_info ++ (pid ∷ 2 ∷ 0 ∷ port ++ (external_ip ++ (zeros ++ zeros)))))
    else []

unfoldable pub send_w3gs_slotinfo : List GameSlot → ℕ → ℕ → ℕ → List ℕ
send_w3gs_slotinfo slots random_seed layout_style player_slots =
    let slot_info = encode_slot_info slots random_seed layout_style player_slots in
    packet w3gs_slotinfo (u16_le (as_u16 (length slot_info)) ++ slot_info)

unfoldable pub send_w3gs_rejectjoin : ℕ → List ℕ
send_w3gs_rejectjoin reason = packet w3gs_rejectjoin (u32_le reason)

-- AF_INET, port, address and eight zero bytes.
abbrev sock_addr : List ℕ → List ℕ
sock_addr ip = 2 ∷ 0 ∷ 0 ∷ 0 ∷ ip ++ (zeros ++ zeros)

unfoldable pub send_w3gs_playerinfo : ℕ → List ℕ → List ℕ → List ℕ → List ℕ
send_w3gs_playerinfo pid name external_ip internal_ip =
    if (not (is_empty name) && leb (length name) 15)
      && (length external_ip == 4 && length internal_ip == 4)
    then packet w3gs_playerinfo
        (2 ∷ 0 ∷ 0 ∷ 0 ∷ pid ∷ name ++ (0 ∷ 1 ∷ 0 ∷ sock_addr external_ip ++ sock_addr internal_ip))
    else []

unfoldable pub send_w3gs_playerleave_others : ℕ → ℕ → List ℕ
send_w3gs_playerleave_others pid left_code =
    if not (pid == 255) then packet w3gs_playerleave_others (pid ∷ u32_le left_code) else []

unfoldable pub send_w3gs_gameloaded_others : ℕ → List ℕ
send_w3gs_gameloaded_others pid =
    if not (pid == 255) then packet w3gs_gameloaded_others (pid ∷ []) else []

unfoldable pub send_w3gs_countdown_start : List ℕ
send_w3gs_countdown_start = packet w3gs_countdown_start []

unfoldable pub send_w3gs_countdown_end : List ℕ
send_w3gs_countdown_end = packet w3gs_countdown_end []

unfoldable pub send_w3gs_chat_from_host : ℕ → List ℕ → ℕ → List ℕ → List ℕ → List ℕ
send_w3gs_chat_from_host from_pid to_pids flag flag_extra message =
    if (not (is_empty to_pids) && not (is_empty message)) && ltb (length message) 255
    then packet w3gs_chat_from_host
        (as_u8 (length to_pids) ∷ to_pids ++ (from_pid ∷ flag ∷ flag_extra ++ (message ++ 0 ∷ [])))
    else []

-- The pid and the lag of each player on the lag screen.
unfoldable pub lagger_bytes : List (ℕ × ℕ) → List ℕ
lagger_bytes [] = []
lagger_bytes ((pid, lag_ms) ∷ laggers) = pid ∷ u32_le lag_ms ++ lagger_bytes laggers

unfoldable pub send_w3gs_start_lag_pids : List (ℕ × ℕ) → List ℕ
send_w3gs_start_lag_pids laggers =
    if is_empty laggers
    then []
    else packet w3gs_start_lag (as_u8 (length laggers) ∷ lagger_bytes laggers)

unfoldable pub send_w3gs_stop_lag_pid : ℕ → ℕ → List ℕ
send_w3gs_stop_lag_pid pid lag_ms = packet w3gs_stop_lag (pid ∷ u32_le lag_ms)

-- "W3XP" or "WAR3", reversed.
abbrev product_id : Bool → List ℕ
product_id tft = if tft then 80 ∷ 88 ∷ 51 ∷ 87 ∷ [] else 51 ∷ 82 ∷ 65 ∷ 87 ∷ []

abbrev version_word : ℕ → List ℕ
version_word war3_version = war3_version ∷ 0 ∷ 0 ∷ 0 ∷ []

unfoldable pub send_w3gs_searchgame : Bool → ℕ → List ℕ
send_w3gs_searchgame tft war3_version =
    packet w3gs_searchgame (product_id tft ++ (version_word war3_version ++ zeros))

-- The parameters of the LAN game announcement.
pub record GameInfo : Type 0 where
  pub tft : Bool
  pub war3_version : ℕ
  pub map_game_type : List ℕ
  pub map_flags : List ℕ
  pub map_width : List ℕ
  pub map_height : List ℕ
  pub game_name : List ℕ
  pub host_name : List ℕ
  pub up_time : ℕ
  pub map_path : List ℕ
  pub map_crc : List ℕ
  pub slots_total : ℕ
  pub slots_open : ℕ
  pub port : ℕ
  pub host_counter : ℕ
  pub entry_key : ℕ

abbrev gameinfo_valid : GameInfo → Bool
gameinfo_valid g =
    ((length g.map_game_type == 4 && length g.map_flags == 4)
      && (length g.map_width == 2 && length g.map_height == 2))
    && ((not (is_empty g.game_name) && not (is_empty g.host_name))
        && (not (is_empty g.map_path) && length g.map_crc == 4))

abbrev pub gameinfo_stat : GameInfo → List ℕ
gameinfo_stat g =
    g.map_flags
    ++ (0 ∷ g.map_width
        ++ (g.map_height ++ (g.map_crc ++ (g.map_path ++ (0 ∷ g.host_name ++ (0 ∷ 0 ∷ []))))))

unfoldable pub send_w3gs_gameinfo : GameInfo → List ℕ
send_w3gs_gameinfo g =
    if gameinfo_valid g
    then packet w3gs_gameinfo (
        product_id g.tft
        ++ (version_word g.war3_version
            ++ (u32_le g.host_counter
                ++ (u32_le g.entry_key
                    ++ (g.game_name
                        ++ (0 ∷ 0 ∷ util_encode_stat_string (gameinfo_stat g)
                            ++ (0 ∷ u32_le g.slots_total
                                ++ (g.map_game_type
                                    ++ (one_word
                                        ++ (u32_le g.slots_open
                                            ++ (u32_le g.up_time ++ u16_le g.port)))))))))))
    else []

unfoldable pub send_w3gs_creategame : Bool → ℕ → List ℕ
send_w3gs_creategame tft war3_version =
    packet w3gs_creategame (product_id tft ++ (version_word war3_version ++ one_word))

unfoldable pub send_w3gs_refreshgame : ℕ → ℕ → List ℕ
send_w3gs_refreshgame players player_slots =
    packet w3gs_refreshgame (one_word ++ (u32_le players ++ u32_le player_slots))

unfoldable pub send_w3gs_decreategame : List ℕ
send_w3gs_decreategame = packet w3gs_decreategame one_word

unfoldable pub send_w3gs_mapcheck : List ℕ → List ℕ → List ℕ → List ℕ → List ℕ → List ℕ
send_w3gs_mapcheck map_path map_size map_info map_crc map_sha1 =
    if (not (is_empty map_path) && length map_size == 4)
      && ((length map_info == 4 && length map_crc == 4) && length map_sha1 == 20)
    then packet w3gs_mapcheck
        (one_word ++ (map_path ++ (0 ∷ map_size ++ (map_info ++ (map_crc ++ map_sha1)))))
    else []

unfoldable pub send_w3gs_startdownload : ℕ → List ℕ
send_w3gs_startdownload from_pid = packet w3gs_startdownload (one_word ++ from_pid ∷ [])

-- `&map_data[start..end]`, at most 1442 bytes from `start` on.
unfoldable pub map_chunk : ℕ → List ℕ → List ℕ
map_chunk start map_data =
    let end = if ltb (length map_data) (start + 1442) then length map_data else start + 1442 in
    drop start (take end map_data)

-- Pid, length and bytes of each action that the queue yields.
unfoldable pub incoming_action_subpacket : List IncomingAction → List ℕ
incoming_action_subpacket [] = []
incoming_action_subpacket (a ∷ actions) =
    a.pid ∷ u16_le (as_u16 (length a.action)) ++ (a.action ++ incoming_action_subpacket actions)

-- crc32fast's checksum is the argument `crc32`.
module _ (crc32 : List ℕ → ℕ) where
  unfoldable pub send_w3gs_mappart : ℕ → ℕ → ℕ → List ℕ → List ℕ
  send_w3gs_mappart from_pid to_pid start map_data =
      if ltb start (length map_data)
      then packet w3gs_mappart (
          to_pid ∷ from_pid ∷ one_word
          ++ (u32_le (as_u32 start)
              ++ (u32_le (crc32 (map_chunk start map_data)) ++ map_chunk start map_data)))
      else []

  -- Two bytes of the checksum, and the actions; nothing if there is no action.
  unfoldable pub extend_incoming_action_subpacket : List ℕ → List ℕ
  extend_incoming_action_subpacket subpacket =
      if is_empty subpacket then [] else take 2 (u32_le (crc32 subpacket)) ++ subpacket

  unfoldable pub send_w3gs_incoming_action : List IncomingAction → ℕ → List ℕ
  send_w3gs_incoming_action actions send_interval =
      packet w3gs_incoming_action (
        u16_le send_interval
        ++ extend_incoming_action_subpacket (incoming_action_subpacket actions))

  unfoldable pub send_w3gs_incoming_action2 : List IncomingAction → List ℕ
  send_w3gs_incoming_action2 actions =
      packet w3gs_incoming_action2
        (0 ∷ 0 ∷ extend_incoming_action_subpacket (incoming_action_subpacket actions))
