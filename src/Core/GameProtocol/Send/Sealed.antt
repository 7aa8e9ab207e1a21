-- ===== src/Core/GameProtocol/Send/Sealed.antt =====
-- Every packet that the builders of src/core/gameprotocol.rs yield passes the framing of
-- src/net/codec.rs.
use ghostpp_rs.Prelude.{
  ℕ, ◌+◌, ◌*◌, ◌-◌, ◌≤◌, ◌<◌, ◌≡◌, ◌≢◌, refl, true, false, List, [], ◌∷◌, ◌++◌, arith, length,
  length-append, ap, sym, ◌∙◌, append-nil, length-drop, length-take, take, ◌==◌, le→leb, lt→ltb,
  u32_le, min,
}
use ghostpp_rs.Util.{validate_length}
use ghostpp_rs.Net.Codec.{decoded, decode, accepts, w3gs}
use ghostpp_rs.Net.Codec.Framing.{decode-assign_length}
use ghostpp_rs.Core.GameSlot.{GameSlot}
use ghostpp_rs.Core.GameProtocol.{IncomingAction}
use ghostpp_rs.Core.GameProtocol.Receive.{is_empty}
use ghostpp_rs.Core.GameProtocol.Send.{
  packet, send_w3gs_ping_from_host, send_w3gs_rejectjoin, send_w3gs_playerinfo,
  send_w3gs_playerleave_others, send_w3gs_gameloaded_others, send_w3gs_countdown_start,
  send_w3gs_countdown_end, send_w3gs_chat_from_host, send_w3gs_stop_lag_pid,
  send_w3gs_startdownload, send_w3gs_slotinfo, send_w3gs_slotinfojoin, encode_slot_info,
  slots_bytes, map_chunk, send_w3gs_mappart, send_w3gs_incoming_action, send_w3gs_incoming_action2,
  incoming_action_subpacket, extend_incoming_action_subpacket,
}
use ghostpp_rs.Core.GameProtocol.Send.SlotInfo.{length-slots_bytes}
use ghostpp_rs.Core.GameProtocol.Send.Actions.{total_length, length-incoming_action_subpacket}

-- The packet comes out of the decoder as one frame with its id, and its length field is right.
abbrev pub IsSealed : ℕ → List ℕ → Type 0
IsSealed id p =
    (decode w3gs p ≡ decoded (record { magic = 247; id = id; bytes = p }) [])
    × (validate_length p ≡ true)

not_255 : (pid : ℕ) → pid ≢ 255 → (pid == 255) ≡ false
not_255 pid h = ground arith

accepts-w3gs : accepts w3gs 247 ≡ true
unfolding accepts
accepts-w3gs = refl

packet-IsSealed : (id : ℕ) (body : List ℕ) → length body + 4 ≤ 65535 → IsSealed id (packet id body)
unfolding packet
packet-IsSealed id body h = (
  ap (decode w3gs) (sym (append-nil _))
      ∙ (decode-assign_length w3gs 247 id 0 0 body [] accepts-w3gs h).0,
  (decode-assign_length w3gs 247 id 0 0 body [] accepts-w3gs h).1,
)

-- The packets of fixed size, for every player and every value; pid 255 stands for no player.
pub send_fixed-IsSealed :
    (pid value : ℕ)
    → pid ≢ 255
    → IsSealed 1 (send_w3gs_ping_from_host value)
      × IsSealed 5 (send_w3gs_rejectjoin value)
      × IsSealed 7 (send_w3gs_playerleave_others pid value)
      × IsSealed 8 (send_w3gs_gameloaded_others pid)
      × IsSealed 10 send_w3gs_countdown_start
      × IsSealed 11 send_w3gs_countdown_end
      × IsSealed 17 (send_w3gs_stop_lag_pid pid value)
      × IsSealed 63 (send_w3gs_startdownload pid)
unfolding send_w3gs_ping_from_host send_w3gs_rejectjoin send_w3gs_playerleave_others
    send_w3gs_gameloaded_others send_w3gs_countdown_start send_w3gs_countdown_end
    send_w3gs_stop_lag_pid send_w3gs_startdownload
send_fixed-IsSealed pid value h = rw (not_255 pid h) (
  packet-IsSealed 1 _ (omega arith),
  packet-IsSealed 5 _ (omega arith),
  packet-IsSealed 7 _ (omega arith),
  packet-IsSealed 8 _ (omega arith),
  packet-IsSealed 10 _ (omega arith),
  packet-IsSealed 11 _ (omega arith),
  packet-IsSealed 17 _ (omega arith),
  packet-IsSealed 63 _ (omega arith),
)

is_empty-eq_false {ℓ} : {A : Type ℓ} (xs : List A) → 1 ≤ length xs → is_empty xs ≡ false
is_empty-eq_false [] h = absurd (omega arith)
is_empty-eq_false (x ∷ xs) h = refl

length-encode_slot_info :
    (slots : List GameSlot) (seed layout n : ℕ)
    → length (encode_slot_info slots seed layout n) ≡ 9 * length slots + 7
unfolding encode_slot_info
length-encode_slot_info slots seed layout n = omega (
  arith,
  length-append (slots_bytes slots) (u32_le seed ++ (layout ∷ n ∷ [])),
  length-slots_bytes slots,
)

slotinfo-IsSealed :
    (slots : List GameSlot) (seed layout n : ℕ)
    → length slots < 256
    → IsSealed 9 (send_w3gs_slotinfo slots seed layout n)
unfolding send_w3gs_slotinfo
slotinfo-IsSealed slots seed layout n h =
    packet-IsSealed 9 _ (omega (arith, length-encode_slot_info slots seed layout n))

slotinfojoin-IsSealed :
    (pid p q a b c d : ℕ) (slots : List GameSlot) (seed layout n : ℕ)
    → length slots < 256
    → IsSealed 4 (send_w3gs_slotinfojoin pid (p ∷ q ∷ []) (a ∷ b ∷ c ∷ d ∷ []) slots seed layout n)
unfolding send_w3gs_slotinfojoin
slotinfojoin-IsSealed pid p q a b c d slots seed layout n h = packet-IsSealed 4 _ (
    omega (
      arith,
      length-encode_slot_info slots seed layout n,
      length-append (encode_slot_info slots seed layout n)
          (pid ∷ 2 ∷ 0 ∷ p ∷ q ∷ a ∷ b ∷ c ∷ d ∷ 0 ∷ 0 ∷ 0 ∷ 0 ∷ 0 ∷ 0 ∷ 0 ∷ 0 ∷ []),
    ))

playerinfo-IsSealed :
    (pid a b c d i j k l : ℕ) (name : List ℕ)
    → 1 ≤ length name
    → length name ≤ 15
    → IsSealed 6 (send_w3gs_playerinfo pid name (a ∷ b ∷ c ∷ d ∷ []) (i ∷ j ∷ k ∷ l ∷ []))
unfolding send_w3gs_playerinfo
playerinfo-IsSealed pid a b c d i j k l name h m =
    rw (is_empty-eq_false name h, le→leb (length name) 15 m)
      (packet-IsSealed 6 _ (
        omega (
          arith,
          length-append name (
              0 ∷ 1 ∷ 0 ∷ 2 ∷ 0 ∷ 0 ∷ 0 ∷ a ∷ b ∷ c ∷ d ∷ 0 ∷ 0 ∷ 0 ∷ 0 ∷ 0 ∷ 0 ∷ 0 ∷ 0 ∷ 2 ∷ 0 ∷ 0
              ∷ 0 ∷ i ∷ j ∷ k ∷ l ∷ 0 ∷ 0 ∷ 0 ∷ 0 ∷ 0 ∷ 0 ∷ 0 ∷ 0 ∷ []),
        )))

-- The lobby packets, for every lobby of at most 255 slots, and names of 1 to 15 bytes.
send_lobby-IsSealed :
    (pid p q a b c d i j k l : ℕ) (name : List ℕ) (slots : List GameSlot) (seed layout n : ℕ)
    → length slots < 256
    → 1 ≤ length name
    → length name ≤ 15
    → IsSealed 9 (send_w3gs_slotinfo slots seed layout n)
      × IsSealed 4
          (send_w3gs_slotinfojoin pid (p ∷ q ∷ []) (a ∷ b ∷ c ∷ d ∷ []) slots seed layout n)
      × IsSealed 6 (send_w3gs_playerinfo pid name (a ∷ b ∷ c ∷ d ∷ []) (i ∷ j ∷ k ∷ l ∷ []))
send_lobby-IsSealed pid p q a b c d i j k l name slots seed layout n h lo hi = (
  slotinfo-IsSealed slots seed layout n h,
  slotinfojoin-IsSealed pid p q a b c d slots seed layout n h,
  playerinfo-IsSealed pid a b c d i j k l name lo hi,
)

-- Chat from the host, with at most 255 receivers, four extra bytes and 254 bytes of text.
chat_from_host-IsSealed :
    (from_pid flag : ℕ) (to_pids flag_extra message : List ℕ)
    → 1 ≤ length to_pids
    → length to_pids ≤ 255
    → length flag_extra ≤ 4
    → 1 ≤ length message
    → length message < 255
    → IsSealed 15 (send_w3gs_chat_from_host from_pid to_pids flag flag_extra message)
unfolding send_w3gs_chat_from_host
chat_from_host-IsSealed from_pid flag to_pids flag_extra message h₁ h₂ h₃ h₄ h₅ =
    rw (is_empty-eq_false to_pids h₁, is_empty-eq_false message h₄, lt→ltb (length message) 255 h₅)
      (packet-IsSealed 15 _ (
        omega (
          arith,
          length-append to_pids (from_pid ∷ flag ∷ flag_extra ++ (message ++ 0 ∷ [])),
          length-append flag_extra (message ++ 0 ∷ []),
          length-append message (0 ∷ []),
        )))

pub length-map_chunk :
    (start : ℕ) (map_data : List ℕ)
    → length (map_chunk start map_data) ≡ min 1442 (length map_data - start)
unfolding map_chunk
length-map_chunk start map_data = ground (
  arith,
  length-drop start (take (length map_data) map_data),
  length-take (length map_data) map_data,
  length-drop start (take (start + 1442) map_data),
  length-take (start + 1442) map_data,
)

module _ (crc32 : List ℕ → ℕ) where
  -- A part of the map, from every position inside it.
  mappart-IsSealed :
      (from_pid to_pid start : ℕ) (map_data : List ℕ)
      → start < length map_data
      → IsSealed 67 (send_w3gs_mappart crc32 from_pid to_pid start map_data)
  unfolding send_w3gs_mappart
  mappart-IsSealed from_pid to_pid start map_data h =
      rw (lt→ltb start (length map_data) h)
        (packet-IsSealed 67 _ (omega (arith, length-map_chunk start map_data)))

  length-extend_incoming_action_subpacket :
      (bytes : List ℕ) → length (extend_incoming_action_subpacket crc32 bytes) ≤ length bytes + 2
  unfolding extend_incoming_action_subpacket
  length-extend_incoming_action_subpacket [] = omega arith
  length-extend_incoming_action_subpacket (b ∷ bytes) = omega arith

  -- Both action packets, for every batch of at most 65527 bytes of actions.
  incoming_action-IsSealed :
      (actions : List IncomingAction) (send_interval : ℕ)
      → total_length actions ≤ 65527
      → IsSealed 12 (send_w3gs_incoming_action crc32 actions send_interval)
        × IsSealed 72 (send_w3gs_incoming_action2 crc32 actions)
  unfolding send_w3gs_incoming_action send_w3gs_incoming_action2
  incoming_action-IsSealed actions send_interval h =
      let n = length-extend_incoming_action_subpacket (incoming_action_subpacket actions) in
      let m = length-incoming_action_subpacket actions in
      (packet-IsSealed 12 _ (omega arith), packet-IsSealed 72 _ (omega arith))
