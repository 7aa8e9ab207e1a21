-- ===== src/Core/BnetProtocol/Receive.antt =====
-- The parsers of src/core/bnetprotocol.rs, for the packets that the server sends. A parser that stores
-- into the login's state returns the new state with its result.
use ghostpp_rs.Prelude.{
  ℕ, zero, suc, ◌+◌, Bool, true, false, ◌&&◌, ◌||◌, List, [], ◌∷◌, ◌++◌, Option, none, some, ltb,
  leb, ◌==◌, if◌then◌else◌, length, get_or, take, drop, any, as_u8,
}
use ghostpp_rs.Prelude.Text.{codes, decimal}
use ghostpp_rs.Util.{
  validate_length, util_byte_array_to_u16, util_byte_array_to_u32, util_extract_cstring,
}
use ghostpp_rs.Core.BnetProtocol.{
  BnetProtocol, IncomingGameHost, IncomingChatEvent, kr_good, eid_showuser, eid_join, eid_leave,
  eid_whisper, eid_talk, eid_broadcast, eid_channel, eid_userflags, eid_whispersent,
  eid_channelfull, eid_channeldoesnotexist, eid_channelrestricted, eid_info, eid_error, eid_emote,
}

unfoldable pub receive_sid_null : List ℕ → Bool
receive_sid_null bytes = validate_length bytes

-- From the name on: a game whose eight digits of the counter are there.
game_host : List ℕ → List ℕ → Option IncomingGameHost
game_host bytes game_name =
    if ltb (length bytes) (length game_name + 35)
    then none
    else some (record {
      game_name = game_name;
      ip = take 4 (drop 20 bytes);
      host_counter = take 8 (drop (length game_name + 27) bytes);
      port = util_byte_array_to_u16 bytes false 18;
    })

unfoldable pub receive_sid_getadvlistex : List ℕ → Option IncomingGameHost
unfolding game_host
receive_sid_getadvlistex bytes =
    if validate_length bytes && leb 8 (length bytes)
    then (if util_byte_array_to_u32 bytes false 4 == 0 || ltb (length bytes) 25
        then none
        else game_host bytes (util_extract_cstring bytes 24))
    else none

unfoldable pub receive_sid_enterchat : List ℕ → BnetProtocol → BnetProtocol × Bool
receive_sid_enterchat bytes p =
    if validate_length bytes && leb 5 (length bytes)
    then (record p { unique_name = util_extract_cstring bytes 4 }, true)
    else (p, false)

-- The events that are passed on.
abbrev pub chat_events : List ℕ
chat_events =
    eid_showuser ∷ eid_join ∷ eid_leave ∷ eid_whisper ∷ eid_talk ∷ eid_broadcast ∷ eid_channel
    ∷ eid_userflags ∷ eid_whispersent ∷ eid_channelfull ∷ eid_channeldoesnotexist
    ∷ eid_channelrestricted ∷ eid_info ∷ eid_error ∷ eid_emote ∷ []

unfoldable pub receive_sid_chatevent : List ℕ → Option IncomingChatEvent
receive_sid_chatevent bytes =
    if validate_length bytes && leb 29 (length bytes)
    then (let event = as_u8 (util_byte_array_to_u32 bytes false 4) in
        let user = util_extract_cstring bytes 28 in
        if any (λ eid. eid == event) chat_events
        then some (record {
          user = user;
          message = util_extract_cstring bytes (length user + 29);
          chat_event = event;
          ping = util_byte_array_to_u32 bytes false 12;
        })
        else none)
    else none

unfoldable pub receive_sid_checkad : List ℕ → Bool
receive_sid_checkad bytes = validate_length bytes

unfoldable pub receive_sid_startadvex3 : List ℕ → Bool
receive_sid_startadvex3 bytes =
    validate_length bytes && (leb 8 (length bytes) && util_byte_array_to_u32 bytes false 4 == 0)

unfoldable pub receive_sid_ping : List ℕ → List ℕ
receive_sid_ping bytes =
    if validate_length bytes && leb 8 (length bytes) then take 4 (drop 4 bytes) else []

unfoldable pub receive_sid_auth_info : List ℕ → BnetProtocol → BnetProtocol × Bool
receive_sid_auth_info bytes p =
    if validate_length bytes && leb 25 (length bytes)
    then (let ix86ver_file_name = util_extract_cstring bytes 24 in
        (
          record p {
            login_type = take 4 (drop 4 bytes);
            server_token = take 4 (drop 8 bytes);
            mpqfile_time = take 8 (drop 16 bytes);
            ix86ver_file_name = ix86ver_file_name;
            value_string_formula = util_extract_cstring bytes (length ix86ver_file_name + 25);
          },
          true,
        ))
    else (p, false)

unfoldable pub receive_sid_auth_check : List ℕ → BnetProtocol → BnetProtocol × Bool
receive_sid_auth_check bytes p =
    if validate_length bytes && leb 9 (length bytes)
    then (let key_state = take 4 (drop 4 bytes) in
        (
          record p { key_state = key_state; key_state_description = util_extract_cstring bytes 8 },
          util_byte_array_to_u32 key_state false 0 == kr_good,
        ))
    else (p, false)

unfoldable pub receive_sid_auth_accountlogon : List ℕ → BnetProtocol → BnetProtocol × Bool
receive_sid_auth_accountlogon bytes p =
    if validate_length bytes && leb 8 (length bytes)
    then (if util_byte_array_to_u32 bytes false 4 == 0 && leb 72 (length bytes)
        then (
          record p { salt = take 32 (drop 8 bytes); server_public_key = take 32 (drop 40 bytes) },
          true,
        )
        else (p, false))
    else (p, false)

unfoldable pub receive_sid_auth_accountlogonproof : List ℕ → Bool
receive_sid_auth_accountlogonproof bytes =
    if validate_length bytes && leb 8 (length bytes)
    then (let status = util_byte_array_to_u32 bytes false 4 in status == 0 || status == 0xE)
    else false

-- The loop of both lists: `total` entries from index `i` on, each a name, `skip` bytes and a location.
-- It breaks off at an entry that begins behind the packet, or whose location would.
unfoldable pub entries : ℕ → ℕ → ℕ → List ℕ → List (List ℕ)
entries skip zero i bytes = []
entries skip (suc total) i bytes =
    let name = util_extract_cstring bytes i in
    let j = i + (length name + 1) in
    let location = util_extract_cstring bytes (j + skip) in
    let rest = entries skip total (j + skip + (length location + 1)) bytes in
    if ltb (length bytes) (i + 1)
    then []
    else if ltb (length bytes) (j + (skip + 1))
    then []
    else name ∷ rest

unfoldable pub receive_sid_friendlist : List ℕ → List (List ℕ)
receive_sid_friendlist bytes =
    if validate_length bytes && leb 5 (length bytes)
    then entries 6 (get_or bytes 4 0) 5 bytes
    else []

unfoldable pub receive_sid_clanmemberlist : List ℕ → List (List ℕ)
receive_sid_clanmemberlist bytes =
    if validate_length bytes && leb 9 (length bytes)
    then entries 2 (get_or bytes 8 0) 9 bytes
    else []

-- `Ipv4Addr::to_string`.
dotted : List ℕ → List ℕ
dotted (a ∷ b ∷ c ∷ d ∷ rest) =
    decimal a
    ++ (codes "." ++ (decimal b ++ (codes "." ++ (decimal c ++ (codes "." ++ decimal d)))))
dotted ip = []

unfoldable pub get_ip_string : IncomingGameHost → List ℕ
unfolding dotted
get_ip_string g = if ltb (length g.ip) 4 then [] else dotted g.ip
