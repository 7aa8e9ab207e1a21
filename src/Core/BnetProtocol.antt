-- ===== src/Core/BnetProtocol.antt =====
-- src/core/bnetprotocol.rs: the packets between the bot and a Battle.net server. The constants, the
-- state of the login and the values that the parsers return; Receive, the parsers; Send, the builders.
pub mod Receive
pub mod Send
pub mod Sealed
pub mod Lists
pub mod Counter
mod Runs
pub mod Framed
pub mod Advert
pub mod Login
use ghostpp_rs.Prelude.{ℕ, List, [], ◌∷◌}

abbrev pub bnet_header_constant : ℕ
bnet_header_constant = 255

abbrev pub sid_null : ℕ
sid_null = 0

abbrev pub sid_stopadv : ℕ
sid_stopadv = 2

abbrev pub sid_getadvlistex : ℕ
sid_getadvlistex = 9

abbrev pub sid_enterchat : ℕ
sid_enterchat = 10

abbrev pub sid_joinchannel : ℕ
sid_joinchannel = 12

abbrev pub sid_chatcommand : ℕ
sid_chatcommand = 14

abbrev pub sid_checkad : ℕ
sid_checkad = 21

abbrev pub sid_startadvex3 : ℕ
sid_startadvex3 = 28

abbrev pub sid_notifyjoin : ℕ
sid_notifyjoin = 34

abbrev pub sid_ping : ℕ
sid_ping = 37

abbrev pub sid_logonresponse : ℕ
sid_logonresponse = 41

abbrev pub sid_netgameport : ℕ
sid_netgameport = 69

abbrev pub sid_auth_info : ℕ
sid_auth_info = 80

abbrev pub sid_auth_check : ℕ
sid_auth_check = 81

abbrev pub sid_auth_accountlogon : ℕ
sid_auth_accountlogon = 83

abbrev pub sid_auth_accountlogonproof : ℕ
sid_auth_accountlogonproof = 84

abbrev pub sid_friendlist : ℕ
sid_friendlist = 101

abbrev pub sid_clanmemberlist : ℕ
sid_clanmemberlist = 125

abbrev pub kr_good : ℕ
kr_good = 0

abbrev pub eid_showuser : ℕ
eid_showuser = 1

abbrev pub eid_join : ℕ
eid_join = 2

abbrev pub eid_leave : ℕ
eid_leave = 3

abbrev pub eid_whisper : ℕ
eid_whisper = 4

abbrev pub eid_talk : ℕ
eid_talk = 5

abbrev pub eid_broadcast : ℕ
eid_broadcast = 6

abbrev pub eid_channel : ℕ
eid_channel = 7

abbrev pub eid_userflags : ℕ
eid_userflags = 9

abbrev pub eid_whispersent : ℕ
eid_whispersent = 10

abbrev pub eid_channelfull : ℕ
eid_channelfull = 13

abbrev pub eid_channeldoesnotexist : ℕ
eid_channeldoesnotexist = 14

abbrev pub eid_channelrestricted : ℕ
eid_channelrestricted = 15

abbrev pub eid_info : ℕ
eid_info = 18

abbrev pub eid_error : ℕ
eid_error = 19

abbrev pub eid_emote : ℕ
eid_emote = 23

-- What the login keeps. A vector that is not set yet is empty.
pub record BnetProtocol : Type 0 where
  pub client_token : List ℕ
  pub login_type : List ℕ
  pub server_token : List ℕ
  pub mpqfile_time : List ℕ
  pub ix86ver_file_name : List ℕ
  pub value_string_formula : List ℕ
  pub key_state : List ℕ
  pub key_state_description : List ℕ
  pub salt : List ℕ
  pub server_public_key : List ℕ
  pub unique_name : List ℕ

-- The client token is fixed.
abbrev pub new : BnetProtocol
new = record {
  client_token = 220 ∷ 1 ∷ 203 ∷ 7 ∷ [];
  login_type = [];
  server_token = [];
  mpqfile_time = [];
  ix86ver_file_name = [];
  value_string_formula = [];
  key_state = [];
  key_state_description = [];
  salt = [];
  server_public_key = [];
  unique_name = [];
}

pub record IncomingGameHost : Type 0 where
  pub game_name : List ℕ
  pub ip : List ℕ
  pub host_counter : List ℕ
  pub port : ℕ

pub record IncomingChatEvent : Type 0 where
  pub user : List ℕ
  pub message : List ℕ
  pub chat_event : ℕ
  pub ping : ℕ
