-- ===== src/Core/GameProtocol/Receive/Fields.antt =====
-- The readers of src/core/gameprotocol.rs that take fields at fixed offsets.
use ghostpp_rs.Prelude.{
  ℕ, ◌+◌, ◌/◌, ◌%◌, ◌≤◌, ◌≡◌, ◌≢◌, true, false, List, [], ◌∷◌, none, some, arith, length, IsU32,
  u32_le,
}
use ghostpp_rs.Util.{assign_length, validate_length, util_byte_array_to_u32}
use ghostpp_rs.Util.Length.{assign_length_packet, validate_length_sealed}
use ghostpp_rs.Core.GameProtocol.Receive.{
  receive_w3gs_leavegame, receive_w3gs_outgoing_action, receive_w3gs_outgoing_keepalive,
  receive_w3gs_searchgame, receive_w3gs_mapsize, receive_w3gs_mappartok, receive_w3gs_pong_to_host,
  receive_w3gs_reqjoin, receive_w3gs_gameloaded_self,
}

-- A client's packet: header, id, length field and body.
abbrev pub client_packet : ℕ → List ℕ → List ℕ
client_packet id body = (assign_length (247 ∷ id ∷ 0 ∷ 0 ∷ body)).0

-- Each reader finds its field in the packet that a client builds by the layout in the source's
-- comments, for every value of the field and of the bytes that the reader skips; the action reader
-- also keeps the whole rest of the packet, up to the longest that the length field can state.
pub receive_fields :
    (n a b c d e pid : ℕ) (action : List ℕ)
    → IsU32 n
    → pid ≢ 255
    → length action ≤ 65527
    → (receive_w3gs_leavegame (client_packet 33 (u32_le n)) ≡ n)
      × (receive_w3gs_pong_to_host (client_packet 70 (u32_le n)) ≡ n)
      × (receive_w3gs_outgoing_keepalive (client_packet 39 (a ∷ u32_le n)) ≡ n)
      × (receive_w3gs_mappartok (client_packet 68 (a ∷ b ∷ c ∷ d ∷ e ∷ e ∷ u32_le n)) ≡ n)
      × (receive_w3gs_mapsize (client_packet 66 (a ∷ b ∷ c ∷ d ∷ e ∷ u32_le n))
          ≡ some (record { size_flag = e; map_size = n }))
      × (receive_w3gs_outgoing_action (client_packet 38 (a ∷ b ∷ c ∷ d ∷ action)) pid
          ≡ some (record { pid = pid; crc = a ∷ b ∷ c ∷ d ∷ []; action = action }))
unfolding receive_w3gs_leavegame receive_w3gs_pong_to_host receive_w3gs_outgoing_keepalive
    receive_w3gs_mappartok receive_w3gs_mapsize receive_w3gs_outgoing_action util_byte_array_to_u32
receive_fields n a b c d e pid action hn hp h = (
  rw (shape 33 (u32_le n) (omega arith)) (ground (arith, valid 33 (u32_le n))),
  rw (shape 70 (u32_le n) (omega arith)) (ground (arith, valid 70 (u32_le n))),
  rw (shape 39 (a ∷ u32_le n) (omega arith)) (ground (arith, valid 39 (a ∷ u32_le n))),
  rw (shape 68 (a ∷ b ∷ c ∷ d ∷ e ∷ e ∷ u32_le n) (omega arith))
      (ground (arith, valid 68 (a ∷ b ∷ c ∷ d ∷ e ∷ e ∷ u32_le n))),
  rw (shape 66 (a ∷ b ∷ c ∷ d ∷ e ∷ u32_le n) (omega arith))
      (ground (arith, valid 66 (a ∷ b ∷ c ∷ d ∷ e ∷ u32_le n))),
  rw (shape 38 (a ∷ b ∷ c ∷ d ∷ action) (omega arith))
      (ground (arith, valid 38 (a ∷ b ∷ c ∷ d ∷ action))),
)
  where
    shape :
        (id : ℕ) (body : List ℕ)
        → length body + 4 ≤ 65535
        → client_packet id body
          ≡ 247 ∷ id ∷ (length body + 4) % 256 ∷ (length body + 4) / 256 % 256 ∷ body
    shape id body = assign_length_packet 247 id 0 0 body

    valid :
        (id : ℕ) (body : List ℕ)
        → length body + 4 ≤ 65535
        → validate_length
            (247 ∷ id ∷ (length body + 4) % 256 ∷ (length body + 4) / 256 % 256 ∷ body)
          ≡ true
    valid id body = validate_length_sealed 247 id body

-- A packet whose length field is wrong is read by no reader: each gives its fallback.
receive_bad_length :
    (bytes : List ℕ) (pid version : ℕ)
    → validate_length bytes ≡ false
    → (receive_w3gs_reqjoin bytes ≡ none)
      × (receive_w3gs_leavegame bytes ≡ 0)
      × (receive_w3gs_gameloaded_self bytes ≡ false)
      × (receive_w3gs_outgoing_action bytes pid ≡ none)
      × (receive_w3gs_outgoing_keepalive bytes ≡ 0)
      × (receive_w3gs_searchgame bytes version ≡ false)
      × (receive_w3gs_mapsize bytes ≡ none)
      × (receive_w3gs_mappartok bytes ≡ 0)
      × (receive_w3gs_pong_to_host bytes ≡ 1)
unfolding receive_w3gs_reqjoin receive_w3gs_leavegame receive_w3gs_gameloaded_self
    receive_w3gs_outgoing_action receive_w3gs_outgoing_keepalive receive_w3gs_searchgame
    receive_w3gs_mapsize receive_w3gs_mappartok receive_w3gs_pong_to_host
receive_bad_length bytes pid version v = ground arith
