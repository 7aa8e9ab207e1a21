-- ===== src/Core/BnetProtocol/Send.antt =====
-- The builders of src/core/bnetprotocol.rs, for the packets that the bot sends. A builder that the
-- source guards by its parameters yields the empty packet when they are wrong. The text of a string is
-- its UTF-8 bytes, which util_encode_ansi passes through.
use mathlib.Core.List.{reverse}
use ghostpp_rs.Prelude.{
  ℕ, ◌-◌, Bool, ◌&&◌, ◌||◌, not, List, [], ◌∷◌, ◌++◌, leb, ltb, ◌==◌, if◌then◌else◌, length,
  replicate, u16_le, u32_le,
}
use ghostpp_rs.Util.{assign_length, util_encode_stat_string, util_to_hex_string}
use ghostpp_rs.Core.GameSlot.{max_slots}
use ghostpp_rs.Core.GameProtocol.Receive.{is_empty}
use ghostpp_rs.Core.BnetProtocol.{
  bnet_header_constant, sid_null, sid_stopadv, sid_getadvlistex, sid_enterchat, sid_joinchannel,
  sid_chatcommand, sid_checkad, sid_startadvex3, sid_notifyjoin, sid_ping, sid_logonresponse,
  sid_netgameport, sid_auth_info, sid_auth_check, sid_auth_accountlogon, sid_auth_accountlogonproof,
  sid_friendlist, sid_clanmemberlist,
}

abbrev pub send_protocol_initialize_selector : List ℕ
send_protocol_initialize_selector = 1 ∷ []

abbrev pub header : ℕ → List ℕ
header id = bnet_header_constant ∷ id ∷ 0 ∷ 0 ∷ []

-- The header and the body; then assign_length.
unfoldable pub packet : ℕ → List ℕ → List ℕ
packet id body = (assign_length (header id ++ body)).0

abbrev zeros : List ℕ
zeros = 0 ∷ 0 ∷ 0 ∷ 0 ∷ []

unfoldable pub send_sid_null : List ℕ
send_sid_null = packet sid_null []

unfoldable pub send_sid_stopadv : List ℕ
send_sid_stopadv = packet sid_stopadv []

unfoldable pub send_sid_getadvlistex : List ℕ → List ℕ
send_sid_getadvlistex game_name = packet sid_getadvlistex (
    (255 ∷ 3 ∷ 0 ∷ 0 ∷ [])
    ++ ((255 ∷ 3 ∷ 0 ∷ 0 ∷ [])
        ++ (zeros ++ ((1 ∷ 0 ∷ 0 ∷ 0 ∷ []) ++ (game_name ++ (0 ∷ 0 ∷ 0 ∷ []))))))

unfoldable pub send_sid_enterchat : List ℕ
send_sid_enterchat = packet sid_enterchat (0 ∷ 0 ∷ [])

-- 2 joins without creating the channel, 1 is the first join.
unfoldable pub send_sid_joinchannel : List ℕ → List ℕ
send_sid_joinchannel channel =
    packet sid_joinchannel
      ((if not (is_empty channel) then 2 else 1) ∷ 0 ∷ 0 ∷ 0 ∷ channel ++ 0 ∷ [])

unfoldable pub send_sid_chatcommand : List ℕ → List ℕ
send_sid_chatcommand command = packet sid_chatcommand (command ++ 0 ∷ [])

unfoldable pub send_sid_checkad : List ℕ
send_sid_checkad = packet sid_checkad (zeros ++ (zeros ++ (zeros ++ zeros)))

-- What the bot announces of a game; the source passes the fields one by one.
pub record Advertisement : Type 0 where
  pub state : ℕ
  pub map_game_type : List ℕ
  pub map_flags : List ℕ
  pub map_width : List ℕ
  pub map_height : List ℕ
  pub game_name : List ℕ
  pub host_name : List ℕ
  pub up_time : ℕ
  pub map_path : List ℕ
  pub map_crc : List ℕ
  pub map_sha1 : List ℕ
  pub host_counter : ℕ

-- Eight hexadecimal digits, the lowest first: zeros in front, then reversed.
unfoldable pub host_counter_string : ℕ → List ℕ
host_counter_string n =
    let digits = util_to_hex_string n in reverse (replicate (8 - length digits) b'0' ++ digits)

unfoldable pub stat_bytes : Advertisement → List ℕ
stat_bytes a =
    a.map_flags
    ++ (0
        ∷ (a.map_width
            ++ (a.map_height
                ++ (a.map_crc ++ (a.map_path ++ (0 ∷ (a.host_name ++ (0 ∷ 0 ∷ a.map_sha1))))))))

-- The parameters that the source refuses.
unfoldable pub is_invalid : Advertisement → Bool
is_invalid a =
    not (length a.map_game_type == 4)
    || (not (length a.map_flags == 4)
        || (not (length a.map_width == 2)
            || (not (length a.map_height == 2)
                || (is_empty a.game_name
                    || (is_empty a.host_name
                        || (is_empty a.map_path
                            || (not (length a.map_crc == 4)
                                || (not (length a.map_sha1 == 20)
                                    || (leb 128 (length (util_encode_stat_string (stat_bytes a)))
                                        || not (
                                            length (host_counter_string a.host_counter)
                                            == 8))))))))))

-- The free slots: 110 with more than twelve slots, else 98.
abbrev pub slots_free : ℕ
slots_free = if ltb 12 max_slots then 110 else 98

unfoldable pub advert_body : Advertisement → List ℕ
advert_body a =
    a.state ∷ 0 ∷ 0 ∷ 0 ∷ u32_le a.up_time
    ++ (a.map_game_type
        ++ (255
            ∷ 3
            ∷ 0
            ∷ 0
            ∷ 0
            ∷ 0
            ∷ 0
            ∷ 0
            ∷ (a.game_name
                ++ (0
                    ∷ 0
                    ∷ slots_free
                    ∷ (host_counter_string a.host_counter
                        ++ (util_encode_stat_string (stat_bytes a) ++ 0 ∷ []))))))

unfoldable pub send_sid_startadvex3 : Advertisement → List ℕ
send_sid_startadvex3 a = if is_invalid a then [] else packet sid_startadvex3 (advert_body a)

unfoldable pub send_sid_notifyjoin : List ℕ → List ℕ
send_sid_notifyjoin game_name =
    packet sid_notifyjoin (zeros ++ ((14 ∷ 0 ∷ 0 ∷ 0 ∷ []) ++ (game_name ++ (0 ∷ 0 ∷ []))))

unfoldable pub send_sid_ping : List ℕ → List ℕ
send_sid_ping ping_value = if not (length ping_value == 4) then [] else packet sid_ping ping_value

unfoldable pub send_sid_logonresponse : List ℕ → List ℕ → List ℕ → List ℕ → List ℕ
send_sid_logonresponse client_token server_token password_hash account_name =
    packet sid_logonresponse
      (client_token ++ (server_token ++ (password_hash ++ (account_name ++ 0 ∷ []))))

unfoldable pub send_sid_netgameport : ℕ → List ℕ
send_sid_netgameport server_port = packet sid_netgameport (u16_le server_port)

-- "IX86", "W3XP" or "WAR3", the version, "enUS", the local address, the time zone and the locale twice.
unfoldable pub send_sid_auth_info : ℕ → Bool → ℕ → List ℕ → List ℕ → List ℕ
send_sid_auth_info ver tft locale_id country_abbrev country = packet sid_auth_info (
    zeros
    ++ ((54 ∷ 56 ∷ 88 ∷ 73 ∷ [])
        ++ ((if tft then 80 ∷ 88 ∷ 51 ∷ 87 ∷ [] else 51 ∷ 82 ∷ 65 ∷ 87 ∷ [])
            ++ ((ver ∷ 0 ∷ 0 ∷ 0 ∷ [])
                ++ ((83 ∷ 85 ∷ 110 ∷ 101 ∷ [])
                    ++ ((127 ∷ 0 ∷ 0 ∷ 1 ∷ [])
                        ++ ((44 ∷ 1 ∷ 0 ∷ 0 ∷ [])
                            ++ (u32_le locale_id
                                ++ (u32_le locale_id
                                    ++ (country_abbrev ++ (0 ∷ (country ++ 0 ∷ []))))))))))))

-- The lengths that the source refuses.
unfoldable pub keys_invalid : Bool → List ℕ → List ℕ → List ℕ → List ℕ → List ℕ → Bool
keys_invalid tft client_token exe_version exe_version_hash key_info_roc key_info_tft =
    not (length client_token == 4)
    || (not (length exe_version == 4)
        || (not (length exe_version_hash == 4)
            || (not (length key_info_roc == 36) || (tft && not (length key_info_tft == 36)))))

unfoldable pub keys_body :
    Bool → List ℕ → List ℕ → List ℕ → List ℕ → List ℕ → List ℕ → List ℕ → List ℕ
keys_body tft client_token version hash roc tft_key info owner =
    let num_keys : ℕ = if tft then 2 else 1 in
    client_token
    ++ (version
        ++ (hash
            ++ (u32_le num_keys
                ++ (u32_le 0
                    ++ (roc
                        ++ ((if tft then tft_key else []) ++ (info ++ (0 ∷ (owner ++ 0 ∷ [])))))))))

unfoldable pub send_sid_auth_check :
    Bool → List ℕ → List ℕ → List ℕ → List ℕ → List ℕ → List ℕ → List ℕ → List ℕ
send_sid_auth_check tft client_token exe_version exe_version_hash key_info_roc key_info_tft exe_info
      key_owner_name =
    if keys_invalid tft client_token exe_version exe_version_hash key_info_roc key_info_tft
    then []
    else packet sid_auth_check (
        keys_body tft client_token exe_version exe_version_hash key_info_roc key_info_tft exe_info
          key_owner_name)

unfoldable pub send_sid_auth_accountlogon : List ℕ → List ℕ → List ℕ
send_sid_auth_accountlogon client_public_key account_name =
    if not (length client_public_key == 32)
    then []
    else packet sid_auth_accountlogon (client_public_key ++ (account_name ++ 0 ∷ []))

unfoldable pub send_sid_auth_accountlogonproof : List ℕ → List ℕ
send_sid_auth_accountlogonproof client_password_proof =
    if not (length client_password_proof == 20)
    then []
    else packet sid_auth_accountlogonproof client_password_proof

unfoldable pub send_sid_friendlist : List ℕ
send_sid_friendlist = packet sid_friendlist []

unfoldable pub send_sid_clanmemberlist : List ℕ
send_sid_clanmemberlist = packet sid_clanmemberlist zeros
