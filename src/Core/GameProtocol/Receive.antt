-- ===== src/Core/GameProtocol/Receive.antt =====
-- The readers of src/core/gameprotocol.rs, for the packets that a client sends.
pub mod Chat
pub mod Fields
pub mod Join
use ghostpp_rs.Prelude.{
  ℕ, ◌+◌, ◌-◌, Bool, true, false, ◌&&◌, not, List, [], ◌∷◌, ◌++◌, Option, none, some, leb, ltb,
  ◌==◌, if◌then◌else◌, length, get_or, take, drop, Run, ret, panic, ◌>>=◌, index,
}
use ghostpp_rs.Util.{validate_length, util_byte_array_to_u32, util_extract_cstring}
use ghostpp_rs.Core.GameSlot.{max_slots}
use ghostpp_rs.Core.GameProtocol.{
  IncomingJoinPlayer, IncomingAction, IncomingChatPlayer, IncomingMapSize, new_message,
  new_messageextra, new_with_flag,
}

-- `is_empty()`.
abbrev pub is_empty {ℓ} : {A : Type ℓ} → List A → Bool
is_empty [] = true
is_empty (x ∷ xs) = false

unfoldable pub receive_w3gs_reqjoin : List ℕ → Option IncomingJoinPlayer
receive_w3gs_reqjoin bytes =
    if validate_length bytes && leb 20 (length bytes)
    then (let name = util_extract_cstring bytes 19 in
        if not (is_empty name) && leb (length name + 30) (length bytes)
        then some (record {
          host_counter = util_byte_array_to_u32 bytes false 4;
          entry_key = util_byte_array_to_u32 bytes false 8;
          name = name;
          internal_ip = take 4 (drop (length name + 26) bytes);
        })
        else none)
    else none

unfoldable pub receive_w3gs_leavegame : List ℕ → ℕ
receive_w3gs_leavegame bytes =
    if validate_length bytes && leb 8 (length bytes)
    then util_byte_array_to_u32 bytes false 4
    else 0

unfoldable pub receive_w3gs_gameloaded_self : List ℕ → Bool
receive_w3gs_gameloaded_self bytes = validate_length bytes

unfoldable pub receive_w3gs_outgoing_action : List ℕ → ℕ → Option IncomingAction
receive_w3gs_outgoing_action bytes pid =
    if not (pid == 255) && (validate_length bytes && leb 8 (length bytes))
    then some (record { pid = pid; crc = take 4 (drop 4 bytes); action = drop 8 bytes })
    else none

unfoldable pub receive_w3gs_outgoing_keepalive : List ℕ → ℕ
receive_w3gs_outgoing_keepalive bytes =
    if validate_length bytes && length bytes == 9 then util_byte_array_to_u32 bytes false 5 else 0

-- What follows the flag, which stands before index `i`.
chat_of_flag : List ℕ → ℕ → List ℕ → ℕ → ℕ → Run (Option IncomingChatPlayer)
chat_of_flag bytes from_pid to_pids flag i =
    if flag == 16 && ltb i (length bytes)
    then ret (some (new_message from_pid to_pids flag (util_extract_cstring bytes i)))
    else if (leb 17 flag && leb flag 20) && ltb i (length bytes)
    then (do byte ← index bytes i; ret (some (new_with_flag from_pid to_pids flag byte)))
    else if flag == 32 && leb (i + 5) (length bytes)
    then ret (
        some (
          new_messageextra from_pid to_pids flag (util_extract_cstring bytes (i + 4))
            (take 4 (drop i bytes))))
    else ret none

-- The receivers, the sender and the flag, once `total` is known to be in range.
chat_body : List ℕ → ℕ → Run (Option IncomingChatPlayer)
chat_body bytes total = do
  from_pid ← index bytes (5 + total)
  flag ← index bytes (5 + total + 1)
  chat_of_flag bytes from_pid (take total (drop 5 bytes)) flag (5 + total + 2)

chat_of_total : List ℕ → ℕ → Run (Option IncomingChatPlayer)
chat_of_total bytes total =
    if (ltb 0 total && leb total max_slots) && leb (5 + total) (length bytes)
    then chat_body bytes total
    else ret none

-- The length is all that is checked before `data[4]`, `data[i]` and `data[i + 1]` are read.
unfoldable pub receive_w3gs_chat_to_host : List ℕ → Run (Option IncomingChatPlayer)
unfolding chat_of_flag chat_body chat_of_total
receive_w3gs_chat_to_host bytes =
    if validate_length bytes
    then (do total ← index bytes 4; chat_of_total bytes total)
    else ret none

unfoldable pub receive_w3gs_searchgame : List ℕ → ℕ → Bool
receive_w3gs_searchgame bytes version =
    (validate_length bytes && leb 16 (length bytes))
    && ((util_byte_array_to_u32 bytes false 4 == 1462982736)
        && ((util_byte_array_to_u32 bytes false 8 == version)
            && (util_byte_array_to_u32 bytes false 12 == 0)))

unfoldable pub receive_w3gs_mapsize : List ℕ → Option IncomingMapSize
receive_w3gs_mapsize bytes =
    if validate_length bytes && leb 13 (length bytes)
    then some
        (record { size_flag = get_or bytes 8 0; map_size = util_byte_array_to_u32 bytes false 9 })
    else none

unfoldable pub receive_w3gs_mappartok : List ℕ → ℕ
receive_w3gs_mappartok bytes =
    if validate_length bytes && leb 14 (length bytes)
    then util_byte_array_to_u32 bytes false 10
    else 0

unfoldable pub receive_w3gs_pong_to_host : List ℕ → ℕ
receive_w3gs_pong_to_host bytes =
    if validate_length bytes && leb 8 (length bytes)
    then util_byte_array_to_u32 bytes false 4
    else 1
