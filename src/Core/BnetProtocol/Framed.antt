-- ===== src/Core/BnetProtocol/Framed.antt =====
-- Every builder of src/core/bnetprotocol.rs under the framing of src/net/codec.rs.
use ghostpp_rs.Prelude.{
  ℕ, ◌+◌, ◌≤◌, ◌≡◌, ◌≢◌, refl, Bool, true, false, List, [], ◌∷◌, ◌++◌, arith, length, length-append,
  if◌then◌else◌, not, ◌==◌, u32_le,
}
use ghostpp_rs.Util.{util_encode_stat_string}
use ghostpp_rs.Core.BnetProtocol.Send
use ghostpp_rs.Core.BnetProtocol.Send.{
  advert_body, keys_body, Advertisement, is_invalid, host_counter_string, stat_bytes, keys_invalid,
  packet, advert_body, keys_body,
}
use ghostpp_rs.Core.BnetProtocol.Sealed.{IsFramed, packet-IsFramed}
use ghostpp_rs.Core.BnetProtocol.Advert.{is_invalid-HasLengths}

-- The calls of the builders, with their arguments.
pub data Request : Type 0 where
  null stopadv enterchat checkad friendlist clanmemberlist : Request
  getadvlistex joinchannel chatcommand notifyjoin : List ℕ → Request
  startadvex3 : Advertisement → Request
  ping auth_accountlogonproof : List ℕ → Request
  logonresponse : List ℕ → List ℕ → List ℕ → List ℕ → Request
  netgameport : ℕ → Request
  auth_info : ℕ → Bool → ℕ → List ℕ → List ℕ → Request
  auth_check : Bool → List ℕ → List ℕ → List ℕ → List ℕ → List ℕ → List ℕ → List ℕ → Request
  auth_accountlogon : List ℕ → List ℕ → Request

abbrev pub built : Request → List ℕ
built null = Send.send_sid_null
built stopadv = Send.send_sid_stopadv
built enterchat = Send.send_sid_enterchat
built checkad = Send.send_sid_checkad
built friendlist = Send.send_sid_friendlist
built clanmemberlist = Send.send_sid_clanmemberlist
built (getadvlistex name) = Send.send_sid_getadvlistex name
built (joinchannel channel) = Send.send_sid_joinchannel channel
built (chatcommand command) = Send.send_sid_chatcommand command
built (notifyjoin name) = Send.send_sid_notifyjoin name
built (startadvex3 a) = Send.send_sid_startadvex3 a
built (ping value) = Send.send_sid_ping value
built (auth_accountlogonproof proof) = Send.send_sid_auth_accountlogonproof proof
built (logonresponse client server hash account) =
    Send.send_sid_logonresponse client server hash account
built (netgameport port) = Send.send_sid_netgameport port
built (auth_info ver tft locale short country) =
    Send.send_sid_auth_info ver tft locale short country
built (auth_check tft token version hash roc tft_key info owner) =
    Send.send_sid_auth_check tft token version hash roc tft_key info owner
built (auth_accountlogon key account) = Send.send_sid_auth_accountlogon key account

abbrev pub id_of : Request → ℕ
id_of null = 0
id_of stopadv = 2
id_of enterchat = 10
id_of checkad = 21
id_of friendlist = 101
id_of clanmemberlist = 125
id_of (getadvlistex name) = 9
id_of (joinchannel channel) = 12
id_of (chatcommand command) = 14
id_of (notifyjoin name) = 34
id_of (startadvex3 a) = 28
id_of (ping value) = 37
id_of (auth_accountlogonproof proof) = 84
id_of (logonresponse client server hash account) = 41
id_of (netgameport port) = 69
id_of (auth_info ver tft locale short country) = 80
id_of (auth_check tft token version hash roc tft_key info owner) = 81
id_of (auth_accountlogon key account) = 83

-- The bytes of the arguments whose length the source does not check.
abbrev pub text_size : Request → ℕ
text_size (getadvlistex name) = length name
text_size (joinchannel channel) = length channel
text_size (chatcommand command) = length command
text_size (notifyjoin name) = length name
text_size (startadvex3 a) = length a.game_name
text_size (logonresponse client server hash account) =
    length client + length server + length hash + length account
text_size (auth_info ver tft locale short country) = length short + length country
text_size (auth_check tft token version hash roc tft_key info owner) = length info + length owner
text_size (auth_accountlogon key account) = length account
text_size _ = 0

-- A builder that refuses some parameters.
guarded-IsFramed :
    (refused : Bool) (id : ℕ) (body : List ℕ)
    → (refused ≡ false → length body ≤ 65531)
    → (if refused then [] else packet id body) ≢ []
    → IsFramed id (if refused then [] else packet id body)
guarded-IsFramed true id body room sent = absurd (sent refl)
guarded-IsFramed false id body room sent = packet-IsFramed id body (room refl)

advert_room :
    (a : Advertisement)
    → length a.game_name ≤ 60000
    → is_invalid a ≡ false
    → length (advert_body a) ≤ 65531
unfolding advert_body
advert_room a h valid =
    let lengths = is_invalid-HasLengths a valid in
    omega (
      arith,
      lengths,
      length-append a.map_game_type (
          255
          ∷ 3
          ∷ 0
          ∷ 0
          ∷ 0
          ∷ 0
          ∷ 0
          ∷ 0
          ∷ (a.game_name
              ++ (0
                  ∷ 0
                  ∷ Send.slots_free
                  ∷ (host_counter_string a.host_counter
                      ++ (util_encode_stat_string (stat_bytes a) ++ 0 ∷ []))))),
      length-append a.game_name (
          0
          ∷ 0
          ∷ Send.slots_free
          ∷ (host_counter_string a.host_counter
              ++ (util_encode_stat_string (stat_bytes a) ++ 0 ∷ []))),
      length-append (host_counter_string a.host_counter)
          (util_encode_stat_string (stat_bytes a) ++ 0 ∷ []),
      length-append (util_encode_stat_string (stat_bytes a)) (0 ∷ []),
    )

keys_room :
    (tft : Bool) (token version hash roc tft_key info owner : List ℕ)
    → keys_invalid tft token version hash roc tft_key ≡ false
    → length info + length owner ≤ 60000
    → length (keys_body tft token version hash roc tft_key info owner) ≤ 65531
unfolding keys_body keys_invalid
keys_room tft token version hash roc tft_key info owner valid h = ground (
  arith,
  length-append token (
      version
      ++ (hash
          ++ (u32_le (if tft then 2 else 1)
              ++ (u32_le 0
                  ++ (roc
                      ++ ((if tft then tft_key else []) ++ (info ++ (0 ∷ (owner ++ 0 ∷ []))))))))),
  length-append version (
      hash
      ++ (u32_le (if tft then 2 else 1)
          ++ (u32_le 0
              ++ (roc ++ ((if tft then tft_key else []) ++ (info ++ (0 ∷ (owner ++ 0 ∷ [])))))))),
  length-append hash (
      u32_le (if tft then 2 else 1)
      ++ (u32_le 0
          ++ (roc ++ ((if tft then tft_key else []) ++ (info ++ (0 ∷ (owner ++ 0 ∷ []))))))),
  length-append roc ((if tft then tft_key else []) ++ (info ++ (0 ∷ (owner ++ 0 ∷ [])))),
  length-append tft_key (info ++ (0 ∷ (owner ++ 0 ∷ []))),
  length-append info (0 ∷ (owner ++ 0 ∷ [])),
  length-append owner (0 ∷ []),
)

-- What a builder yields, unless it is empty, comes out of the decoder as one frame with its id and a right
-- length field, if the texts have at most 60000 bytes in all.
pub built-IsFramed :
    (r : Request) → text_size r ≤ 60000 → built r ≢ [] → IsFramed (id_of r) (built r)
unfolding Send.send_sid_null Send.send_sid_stopadv Send.send_sid_enterchat Send.send_sid_checkad
    Send.send_sid_friendlist Send.send_sid_clanmemberlist Send.send_sid_getadvlistex
    Send.send_sid_joinchannel Send.send_sid_chatcommand Send.send_sid_notifyjoin
    Send.send_sid_startadvex3 Send.send_sid_ping Send.send_sid_auth_accountlogonproof
    Send.send_sid_logonresponse Send.send_sid_netgameport Send.send_sid_auth_info
    Send.send_sid_auth_check Send.send_sid_auth_accountlogon
built-IsFramed null h sent = packet-IsFramed 0 _ (omega arith)
built-IsFramed stopadv h sent = packet-IsFramed 2 _ (omega arith)
built-IsFramed enterchat h sent = packet-IsFramed 10 _ (omega arith)
built-IsFramed checkad h sent = packet-IsFramed 21 _ (omega arith)
built-IsFramed friendlist h sent = packet-IsFramed 101 _ (omega arith)
built-IsFramed clanmemberlist h sent = packet-IsFramed 125 _ (omega arith)
built-IsFramed (getadvlistex name) h sent =
    packet-IsFramed 9 _ (omega (arith, length-append name (0 ∷ 0 ∷ 0 ∷ [])))
built-IsFramed (joinchannel channel) h sent =
    packet-IsFramed 12 _ (omega (arith, length-append channel (0 ∷ [])))
built-IsFramed (chatcommand command) h sent =
    packet-IsFramed 14 _ (omega (arith, length-append command (0 ∷ [])))
built-IsFramed (notifyjoin name) h sent =
    packet-IsFramed 34 _ (omega (arith, length-append name (0 ∷ 0 ∷ [])))
built-IsFramed (startadvex3 a) h sent = guarded-IsFramed (is_invalid a) 28 _ (advert_room a h) sent
built-IsFramed (ping value) h sent =
    guarded-IsFramed (not (length value == 4)) 37 _ (λ few. ground arith) sent
built-IsFramed (auth_accountlogonproof proof) h sent =
    guarded-IsFramed (not (length proof == 20)) 84 _ (λ few. ground arith) sent
built-IsFramed (logonresponse client server hash account) h sent = packet-IsFramed 41 _ (
    omega (
      arith,
      length-append client (server ++ (hash ++ (account ++ 0 ∷ []))),
      length-append server (hash ++ (account ++ 0 ∷ [])),
      length-append hash (account ++ 0 ∷ []),
      length-append account (0 ∷ []),
    ))
built-IsFramed (netgameport port) h sent = packet-IsFramed 69 _ (omega arith)
built-IsFramed (auth_info ver true locale short country) h sent =
    packet-IsFramed 80 _
      (omega (arith, length-append short (0 ∷ (country ++ 0 ∷ [])), length-append country (0 ∷ [])))
built-IsFramed (auth_info ver false locale short country) h sent =
    packet-IsFramed 80 _
      (omega (arith, length-append short (0 ∷ (country ++ 0 ∷ [])), length-append country (0 ∷ [])))
built-IsFramed (auth_check tft token version hash roc tft_key info owner) h sent =
    guarded-IsFramed (keys_invalid tft token version hash roc tft_key) 81 _
      (λ valid. keys_room tft token version hash roc tft_key info owner valid h) sent
built-IsFramed (auth_accountlogon key account) h sent =
    guarded-IsFramed (not (length key == 32)) 83 _
      (λ few. ground (arith, length-append key (account ++ 0 ∷ []), length-append account (0 ∷ [])))
      sent
