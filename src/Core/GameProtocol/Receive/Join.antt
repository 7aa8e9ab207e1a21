-- ===== src/Core/GameProtocol/Receive/Join.antt =====
-- receive_w3gs_reqjoin of src/core/gameprotocol.rs: the request of a client to join the lobby.
use ghostpp_rs.Prelude.{
  ℕ, suc, ◌+◌, ◌/◌, ◌%◌, ◌≤◌, ◌<◌, ◌≡◌, ◌≢◌, refl, ap, ◌∙◌, true, false, List, [], ◌∷◌, ◌++◌, none,
  some, arith, length, length-append, take, drop, IsU32, u32_le, All,
}
use ghostpp_rs.Prelude.Utf8.{from_utf8_lossy}
use ghostpp_rs.Util.{validate_length, util_byte_array_to_u32, util_extract_cstring}
use ghostpp_rs.Util.Length.{assign_length_packet, validate_length_sealed}
use ghostpp_rs.Core.GameProtocol.Receive.{receive_w3gs_reqjoin, is_empty}
use ghostpp_rs.Core.GameProtocol.Receive.Fields.{client_packet}
use ghostpp_rs.Core.GameProtocol.Receive.Chat.{until_nul-append_nul}

-- What stands around the name in a join request: the fields that the reader skips, and the address.
pub record JoinFields : Type 0 where
  pub host_counter : ℕ
  pub entry_key : ℕ
  pub unknown : ℕ
  pub listen_port : ℕ
  pub listen_port_high : ℕ
  pub peer_key : ℕ
  pub unknown_word : ℕ
  pub internal_port : ℕ
  pub internal_port_high : ℕ
  pub ip0 : ℕ
  pub ip1 : ℕ
  pub ip2 : ℕ
  pub ip3 : ℕ

abbrev pub internal_address : JoinFields → List ℕ
internal_address f = f.ip0 ∷ f.ip1 ∷ f.ip2 ∷ f.ip3 ∷ []

abbrev behind_name : JoinFields → List ℕ
behind_name f =
    u32_le f.unknown_word ++ (f.internal_port ∷ f.internal_port_high ∷ internal_address f)

abbrev join_body : JoinFields → List ℕ → List ℕ
join_body f name =
    u32_le f.host_counter
    ++ (u32_le f.entry_key
        ++ (f.unknown
            ∷ f.listen_port
            ∷ f.listen_port_high
            ∷ (u32_le f.peer_key ++ (name ++ 0 ∷ behind_name f))))

-- A join request with the bytes `name` for the name.
abbrev pub join_packet : JoinFields → List ℕ → List ℕ
join_packet f name = client_packet 30 (join_body f name)

abbrev join_bytes : JoinFields → List ℕ → List ℕ
join_bytes f name =
    247
    ∷ 30
    ∷ (length (join_body f name) + 4) % 256
    ∷ (length (join_body f name) + 4) / 256 % 256
    ∷ join_body f name

module _ (f : JoinFields) (name : List ℕ) (room : length name ≤ 65505) where
  length-join_body : length (join_body f name) ≡ length name + 26
  length-join_body = omega (arith, length-append name (0 ∷ behind_name f))

  join_packet_shape : join_packet f name ≡ join_bytes f name
  join_packet_shape =
      assign_length_packet 247 30 0 0 (join_body f name) (omega (arith, length-join_body))

  join_bytes_valid : validate_length (join_bytes f name) ≡ true
  join_bytes_valid =
      validate_length_sealed 247 30 (join_body f name) (omega (arith, length-join_body))

  join_name :
      All (λ b. b ≢ 0) name → util_extract_cstring (join_bytes f name) 19 ≡ from_utf8_lossy name
  unfolding util_extract_cstring
  join_name h =
      ground
        (arith, length-append name (0 ∷ behind_name f), until_nul-append_nul name (behind_name f) h)

drop-append_add : (k : ℕ) (xs ys : List ℕ) → drop (length xs + k) (xs ++ ys) ≡ drop k ys
drop-append_add k [] ys = ap (λ (n : ℕ). drop n ys) (omega arith)
drop-append_add k (x ∷ xs) ys =
    ap (λ (n : ℕ). drop n (x ∷ (xs ++ ys)))
      (let e : suc (length xs) + k ≡ suc (length xs + k) = omega arith in e)
    ∙ drop-append_add k xs ys

join_address :
    (f : JoinFields) (name : List ℕ)
    → take 4 (drop (length name + 26) (join_bytes f name)) ≡ internal_address f
join_address f name =
    ap (λ (n : ℕ). take 4 (drop n (join_bytes f name)))
      (let e : length name + 26 ≡ length (take 19 (join_bytes f name)) + (length name + 7) =
          omega arith in
        e)
    ∙ ap (take 4) (
        drop-append_add (length name + 7) (take 19 (join_bytes f name)) (name ++ 0 ∷ behind_name f)
        ∙ drop-append_add 7 name (0 ∷ behind_name f))

is_empty-eq_false : (xs : List ℕ) → xs ≢ [] → is_empty xs ≡ false
is_empty-eq_false [] h = absurd (h refl)
is_empty-eq_false (x ∷ xs) h = refl

-- A name of at most 65505 bytes that is UTF-8, not empty and free of NUL arrives with the host
-- counter, the entry key and the address that the client sent, for every 32-bit counter and key.
pub reqjoin_utf8 :
    (f : JoinFields) (name : List ℕ)
    → IsU32 f.host_counter
    → IsU32 f.entry_key
    → length name ≤ 65505
    → name ≢ []
    → All (λ b. b ≢ 0) name
    → from_utf8_lossy name ≡ name
    → receive_w3gs_reqjoin (join_packet f name)
      ≡ some (record {
        host_counter = f.host_counter;
        entry_key = f.entry_key;
        name = name;
        internal_ip = internal_address f;
      })
unfolding receive_w3gs_reqjoin util_byte_array_to_u32
reqjoin_utf8 f name hc hk room ne nul utf8 =
    rw
      (join_packet_shape f name room, join_bytes_valid f name room, join_name f name room nul, utf8)
      (ground (arith, length-join_body f name room, join_address f name, is_empty-eq_false name))

-- The bug: the reader takes the length of the decoded name for the length of the bytes on the wire.
-- A name of at most 65505 bytes without NUL whose lossy decoding is longer than its bytes (a byte that
-- is no UTF-8 becomes three) makes it look for the address past the end of the packet, and the request
-- is refused.
pub reqjoin_not_utf8 :
    (f : JoinFields) (name : List ℕ)
    → length name ≤ 65505
    → All (λ b. b ≢ 0) name
    → length name < length (from_utf8_lossy name)
    → receive_w3gs_reqjoin (join_packet f name) ≡ none
unfolding receive_w3gs_reqjoin
reqjoin_not_utf8 f name room nul longer =
    rw (join_packet_shape f name room, join_bytes_valid f name room, join_name f name room nul)
      (ground (arith, length-join_body f name room))
