-- ===== src/Core/Runs.antt =====
-- The slots and packets of src/core on concrete values.
use ghostpp_rs.Prelude.{
  All, ◌%◌, ◌^◌, ℕ, ◌≡◌, ◌↔◌, ◌<◌, refl, true, false, none, some, List, [], ◌∷◌, arith, length, map,
  u32_le, panic,
}
use ghostpp_rs.Prelude.Utf8.{from_utf8_lossy, from_utf8_lossy_ascii}
use ghostpp_rs.Util.{validate_length}
use ghostpp_rs.Core.GameSlot.{GameSlot, get_byte_array}
use ghostpp_rs.Core.Replay.{ReplayRecorder, slot_actions, build}
use ghostpp_rs.Core.Replay.Container.{◌>>=◌, build_and_compress}
use ghostpp_rs.Core.Replay.Unpacked.{Unzips, read_file, build_and_compress-read_file}
use ghostpp_rs.Core.GameProtocol.Send.{slots_bytes}
use ghostpp_rs.Core.Replay.Blocks.{
  ReplayEvent, time_slot, time_slot2, chat, leave, record_all, read_blocks, IsEvent, duration,
}
use ghostpp_rs.Core.Replay.ReadBack.{read_blocks-record_all}
use ghostpp_rs.Core.GameProtocol.{IncomingAction}
use ghostpp_rs.Core.GameProtocol.Receive.{
  receive_w3gs_reqjoin, receive_w3gs_leavegame, receive_w3gs_outgoing_action,
  receive_w3gs_outgoing_keepalive, receive_w3gs_mapsize, receive_w3gs_mappartok,
  receive_w3gs_pong_to_host, receive_w3gs_chat_to_host,
}
use ghostpp_rs.Core.GameProtocol.Receive.Chat.{IsTruncatedChat, chat_to_host_panics}
use ghostpp_rs.Core.GameProtocol.Receive.Fields.{client_packet, receive_fields}
use ghostpp_rs.Core.GameProtocol.Receive.Join.{
  JoinFields, join_packet, internal_address, reqjoin_utf8, reqjoin_not_utf8,
}
use ghostpp_rs.Core.GameProtocol.Send.{
  encode_slot_info, incoming_action_subpacket, send_w3gs_ping_from_host, send_w3gs_rejectjoin,
  send_w3gs_playerleave_others, send_w3gs_gameloaded_others, send_w3gs_countdown_start,
  send_w3gs_countdown_end, send_w3gs_stop_lag_pid, send_w3gs_startdownload,
}
use ghostpp_rs.Core.GameProtocol.Send.SlotInfo.{read_slot_info, read-encode_slot_info}
use ghostpp_rs.Core.GameProtocol.Send.Actions.{
  read_actions, wire_action, read-incoming_action_subpacket,
}
use ghostpp_rs.Core.GameProtocol.Send.Sealed.{IsSealed, send_fixed-IsSealed}

abbrev human : GameSlot
human = record {
  pid = 2;
  download_status = 100;
  slot_status = 2;
  computer = 0;
  team = 1;
  colour = 3;
  race = 32;
  computer_type = 1;
  handicap = 100;
}

receive_fields_example :
    (receive_w3gs_leavegame (client_packet 33 (u32_le 8)) ≡ 8)
    × (receive_w3gs_pong_to_host (client_packet 70 (u32_le 8)) ≡ 8)
    × (receive_w3gs_outgoing_keepalive (client_packet 39 (1 ∷ u32_le 8)) ≡ 8)
    × (receive_w3gs_mappartok (client_packet 68 (1 ∷ 2 ∷ 3 ∷ 4 ∷ 5 ∷ 5 ∷ u32_le 8)) ≡ 8)
    × (receive_w3gs_mapsize (client_packet 66 (1 ∷ 2 ∷ 3 ∷ 4 ∷ 5 ∷ u32_le 8))
        ≡ some (record { size_flag = 5; map_size = 8 }))
    × (receive_w3gs_outgoing_action (client_packet 38 (1 ∷ 2 ∷ 3 ∷ 4 ∷ 22 ∷ [])) 6
        ≡ some (record { pid = 6; crc = 1 ∷ 2 ∷ 3 ∷ 4 ∷ []; action = 22 ∷ [] }))
receive_fields_example =
    receive_fields 8 1 2 3 4 5 6 (22 ∷ []) (omega arith) (ground arith) (omega arith)

abbrev bad : List ℕ
bad = 247 ∷ 33 ∷ 9 ∷ 0 ∷ 1 ∷ 0 ∷ 0 ∷ 0 ∷ []

bad_length : validate_length bad ≡ false
unfolding validate_length
bad_length = refl

chat_to_host_panics_example :
    (receive_w3gs_chat_to_host (247 ∷ 40 ∷ 4 ∷ 0 ∷ []) ≡ panic)
    ↔ ((validate_length (247 ∷ 40 ∷ 4 ∷ 0 ∷ []) ≡ true) × IsTruncatedChat (247 ∷ 40 ∷ 4 ∷ 0 ∷ []))
chat_to_host_panics_example = chat_to_host_panics (247 ∷ 40 ∷ 4 ∷ 0 ∷ [])

abbrev join : JoinFields
join = record {
  host_counter = 1;
  entry_key = 0;
  unknown = 0;
  listen_port = 224;
  listen_port_high = 23;
  peer_key = 1;
  unknown_word = 1;
  internal_port = 23;
  internal_port_high = 224;
  ip0 = 192;
  ip1 = 168;
  ip2 = 0;
  ip3 = 9;
}

abbrev bob : List ℕ
bob = 66 ∷ 111 ∷ 98 ∷ []

reqjoin_utf8_example :
    receive_w3gs_reqjoin (join_packet join bob)
    ≡ some (record {
      host_counter = 1;
      entry_key = 0;
      name = bob;
      internal_ip = internal_address join;
    })
reqjoin_utf8_example =
    reqjoin_utf8 join bob (omega arith) (omega arith) (omega arith) (ground arith) (ground arith)
      (from_utf8_lossy_ascii bob (ground arith))

-- The name 0xA4 0xA4 in Big5.
big5_longer : 2 < length (from_utf8_lossy (0xA4 ∷ 0xA4 ∷ []))
unfolding from_utf8_lossy
big5_longer = omega arith

abbrev actions : List IncomingAction
actions =
    record { pid = 1; crc = []; action = 22 ∷ 4 ∷ [] }
    ∷ record { pid = 3; crc = []; action = 27 ∷ [] }
    ∷ []

read-incoming_action_subpacket_example :
    read_actions 2 (incoming_action_subpacket actions) ≡ map wire_action actions
read-incoming_action_subpacket_example =
    read-incoming_action_subpacket actions 2 (ground arith) (omega arith)

read-encode_slot_info_example :
    read_slot_info (encode_slot_info (human ∷ []) 123456 3 12)
    ≡ record { slots = human ∷ []; random_seed = 123456; layout_style = 3; player_slots = 12 }
read-encode_slot_info_example =
    read-encode_slot_info (human ∷ []) 123456 3 12 (omega arith) (omega arith)

send_fixed-IsSealed_example :
    IsSealed 1 (send_w3gs_ping_from_host 9)
    × IsSealed 5 (send_w3gs_rejectjoin 9)
    × IsSealed 7 (send_w3gs_playerleave_others 2 9)
    × IsSealed 8 (send_w3gs_gameloaded_others 2)
    × IsSealed 10 send_w3gs_countdown_start
    × IsSealed 11 send_w3gs_countdown_end
    × IsSealed 17 (send_w3gs_stop_lag_pid 2 9)
    × IsSealed 63 (send_w3gs_startdownload 2)
send_fixed-IsSealed_example = send_fixed-IsSealed 2 9 (ground arith)

-- A checksum for the examples.
abbrev sum_of : List ℕ → ℕ
sum_of = length

abbrev recorder : ReplayRecorder
recorder = record {
  host_pid = 1;
  host_name = bob;
  players = (1, bob) ∷ [];
  slots = human ∷ [];
  random_seed = 5;
  select_mode = 3;
  start_spot_count = 12;
  map_game_type = 1;
  game_name = bob;
  stat_string = [];
  loading_blocks = [];
  compiled_blocks = [];
  replay_length_ms = 0;
}

abbrev events : List ReplayEvent
events =
    time_slot 100 ((2, 22 ∷ 4 ∷ []) ∷ [])
    ∷ chat 2 32 0 bob
    ∷ time_slot2 ((2, 27 ∷ []) ∷ [])
    ∷ leave 2 7
    ∷ []

events-IsEvent : All IsEvent events
unfolding slot_actions
events-IsEvent = ground arith

read_blocks-record_all_example :
    (read_blocks 4 (record_all events recorder).compiled_blocks ≡ events)
    × ((record_all events recorder).replay_length_ms % 2 ^ 32 ≡ duration events % 2 ^ 32)
read_blocks-record_all_example = read_blocks-record_all events recorder refl refl events-IsEvent

stored : Unzips some (λ chunk. chunk) (λ block. block)
unfolding Unzips
stored chunk full = (refl, (omega arith, refl))

build_and_compress-read_file_example :
    (build_and_compress some (λ bytes. 0) 29 6059 recorder >>= λ file.
    some (read_file (λ block. block) file))
    ≡ some (build recorder)
unfolding build slots_bytes get_byte_array
build_and_compress-read_file_example =
    build_and_compress-read_file some (λ bytes. 0) (λ chunk. chunk) (λ block. block) stored 29 6059
      recorder (omega arith)

reqjoin_not_utf8_example : receive_w3gs_reqjoin (join_packet join (0xA4 ∷ 0xA4 ∷ [])) ≡ none
reqjoin_not_utf8_example =
    reqjoin_not_utf8 join (0xA4 ∷ 0xA4 ∷ []) (omega arith) (ground arith) big5_longer
