-- ===== src/Core/GameProtocol.antt =====
-- src/core/gameprotocol.rs: the W3GS packets. Strings are their UTF-8 bytes; a `Vec<u8>` is a list of
-- numbers; a word is a number, written by its little-endian bytes.
pub mod Receive
pub mod Send
use ghostpp_rs.Prelude.{ℕ, List, [], ◌+◌, length, ◌==◌, if◌then◌else◌}

abbrev pub w3gs_header_constant : ℕ
w3gs_header_constant = 247

abbrev pub playerleave_disconnect : ℕ
playerleave_disconnect = 1

abbrev pub playerleave_lost : ℕ
playerleave_lost = 7

abbrev pub playerleave_lostbuildings : ℕ
playerleave_lostbuildings = 8

abbrev pub playerleave_won : ℕ
playerleave_won = 9

abbrev pub playerleave_draw : ℕ
playerleave_draw = 10

abbrev pub playerleave_observer : ℕ
playerleave_observer = 11

abbrev pub playerleave_lobby : ℕ
playerleave_lobby = 13

abbrev pub playerleave_gproxy : ℕ
playerleave_gproxy = 100

abbrev pub rejectjoin_full : ℕ
rejectjoin_full = 9

abbrev pub rejectjoin_started : ℕ
rejectjoin_started = 10

abbrev pub w3gs_ping_from_host : ℕ
w3gs_ping_from_host = 1

abbrev pub w3gs_slotinfojoin : ℕ
w3gs_slotinfojoin = 4

abbrev pub w3gs_rejectjoin : ℕ
w3gs_rejectjoin = 5

abbrev pub w3gs_playerinfo : ℕ
w3gs_playerinfo = 6

abbrev pub w3gs_playerleave_others : ℕ
w3gs_playerleave_others = 7

abbrev pub w3gs_gameloaded_others : ℕ
w3gs_gameloaded_others = 8

abbrev pub w3gs_slotinfo : ℕ
w3gs_slotinfo = 9

abbrev pub w3gs_countdown_start : ℕ
w3gs_countdown_start = 10

abbrev pub w3gs_countdown_end : ℕ
w3gs_countdown_end = 11

abbrev pub w3gs_incoming_action : ℕ
w3gs_incoming_action = 12

abbrev pub w3gs_chat_from_host : ℕ
w3gs_chat_from_host = 15

abbrev pub w3gs_start_lag : ℕ
w3gs_start_lag = 16

abbrev pub w3gs_stop_lag : ℕ
w3gs_stop_lag = 17

abbrev pub w3gs_reqjoin : ℕ
w3gs_reqjoin = 30

abbrev pub w3gs_leavegame : ℕ
w3gs_leavegame = 33

abbrev pub w3gs_gameloaded_self : ℕ
w3gs_gameloaded_self = 35

abbrev pub w3gs_outgoing_action : ℕ
w3gs_outgoing_action = 38

abbrev pub w3gs_outgoing_keepalive : ℕ
w3gs_outgoing_keepalive = 39

abbrev pub w3gs_chat_to_host : ℕ
w3gs_chat_to_host = 40

abbrev pub w3gs_dropreq : ℕ
w3gs_dropreq = 41

abbrev pub w3gs_searchgame : ℕ
w3gs_searchgame = 47

abbrev pub w3gs_gameinfo : ℕ
w3gs_gameinfo = 48

abbrev pub w3gs_creategame : ℕ
w3gs_creategame = 49

abbrev pub w3gs_refreshgame : ℕ
w3gs_refreshgame = 50

abbrev pub w3gs_decreategame : ℕ
w3gs_decreategame = 51

abbrev pub w3gs_mapcheck : ℕ
w3gs_mapcheck = 61

abbrev pub w3gs_startdownload : ℕ
w3gs_startdownload = 63

abbrev pub w3gs_mapsize : ℕ
w3gs_mapsize = 66

abbrev pub w3gs_mappart : ℕ
w3gs_mappart = 67

abbrev pub w3gs_mappartok : ℕ
w3gs_mappartok = 68

abbrev pub w3gs_pong_to_host : ℕ
w3gs_pong_to_host = 70

abbrev pub w3gs_incoming_action2 : ℕ
w3gs_incoming_action2 = 72

abbrev pub cth_message : ℕ
cth_message = 0

abbrev pub cth_messageextra : ℕ
cth_messageextra = 1

abbrev pub cth_teamchange : ℕ
cth_teamchange = 2

abbrev pub cth_colourchange : ℕ
cth_colourchange = 3

abbrev pub cth_racechange : ℕ
cth_racechange = 4

abbrev pub cth_handicapchange : ℕ
cth_handicapchange = 5

pub record IncomingJoinPlayer : Type 0 where
  pub host_counter : ℕ
  pub entry_key : ℕ
  pub name : List ℕ
  pub internal_ip : List ℕ

pub record IncomingAction : Type 0 where
  pub pid : ℕ
  pub crc : List ℕ
  pub action : List ℕ

-- IncomingAction::get_length
unfoldable pub get_length : IncomingAction → ℕ
get_length a = length a.action + 3

pub record IncomingChatPlayer : Type 0 where
  pub host_type : ℕ
  pub from_pid : ℕ
  pub to_pids : List ℕ
  pub flag : ℕ
  pub message : List ℕ
  pub extra_flags : List ℕ
  pub byte : ℕ

unfoldable pub new_message : ℕ → List ℕ → ℕ → List ℕ → IncomingChatPlayer
new_message from_pid to_pids flag message = record {
  host_type = cth_message;
  from_pid = from_pid;
  to_pids = to_pids;
  flag = flag;
  message = message;
  extra_flags = [];
  byte = 0;
}

unfoldable pub new_messageextra : ℕ → List ℕ → ℕ → List ℕ → List ℕ → IncomingChatPlayer
new_messageextra from_pid to_pids flag message extra_flags = record {
  host_type = cth_messageextra;
  from_pid = from_pid;
  to_pids = to_pids;
  flag = flag;
  message = message;
  extra_flags = extra_flags;
  byte = 0;
}

abbrev host_type_of : ℕ → ℕ
host_type_of flag =
    if flag == 17
    then cth_teamchange
    else if flag == 18
    then cth_colourchange
    else if flag == 19
    then cth_racechange
    else if flag == 20
    then cth_handicapchange
    else cth_message

unfoldable pub new_with_flag : ℕ → List ℕ → ℕ → ℕ → IncomingChatPlayer
new_with_flag from_pid to_pids flag byte = record {
  host_type = host_type_of flag;
  from_pid = from_pid;
  to_pids = to_pids;
  flag = flag;
  message = [];
  extra_flags = [];
  byte = byte;
}

pub record IncomingMapSize : Type 0 where
  pub size_flag : ℕ
  pub map_size : ℕ
