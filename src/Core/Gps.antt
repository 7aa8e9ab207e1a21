-- ===== src/Core/Gps.antt =====
-- src/core/gpsprotocol.rs: the GProxy++ packets. A packet is sealed by assign_length.
pub mod RoundTrip
use ghostpp_rs.Prelude.{
  ℕ, Bool, ◌&&◌, List, [], ◌∷◌, ◌++◌, Option, none, some, leb, ◌==◌, if◌then◌else◌, length, get_or,
  u16_le, u32_le, u32_from_le,
}
use ghostpp_rs.Util.{assign_length}

abbrev pub gps_header_constant : ℕ
gps_header_constant = 248

abbrev pub rejectgps_invalid : ℕ
rejectgps_invalid = 1

abbrev pub rejectgps_notfound : ℕ
rejectgps_notfound = 2

abbrev pub gps_init : ℕ
gps_init = 1

abbrev pub gps_reconnect : ℕ
gps_reconnect = 2

abbrev pub gps_ack : ℕ
gps_ack = 3

abbrev pub gps_reject : ℕ
gps_reject = 4

abbrev packet : ℕ → List ℕ → List ℕ
packet id body = (assign_length (gps_header_constant ∷ id ∷ 0 ∷ 0 ∷ body)).0

unfoldable pub send_gpsc_init : ℕ → List ℕ
send_gpsc_init version = packet gps_init (u32_le version)

unfoldable pub send_gpsc_reconnect : ℕ → ℕ → ℕ → List ℕ
send_gpsc_reconnect pid reconnect_key last_packet =
    packet gps_reconnect (pid ∷ u32_le reconnect_key ++ u32_le last_packet)

unfoldable pub send_gpsc_ack : ℕ → List ℕ
send_gpsc_ack last_packet = packet gps_ack (u32_le last_packet)

unfoldable pub send_gpss_init : ℕ → ℕ → ℕ → ℕ → List ℕ
send_gpss_init reconnect_port pid reconnect_key num_empty_actions =
    packet gps_init
      (u16_le reconnect_port ++ (pid ∷ (u32_le reconnect_key ++ num_empty_actions ∷ [])))

unfoldable pub send_gpss_reconnect : ℕ → List ℕ
send_gpss_reconnect last_packet = packet gps_reconnect (u32_le last_packet)

unfoldable pub send_gpss_ack : ℕ → List ℕ
send_gpss_ack last_packet = packet gps_ack (u32_le last_packet)

unfoldable pub send_gpss_reject : ℕ → List ℕ
send_gpss_reject reason = packet gps_reject (u32_le reason)

-- `data[0] == GPS_HEADER_CONSTANT && data[1] == id`.
abbrev has_header : ℕ → List ℕ → Bool
has_header id bytes = get_or bytes 0 0 == gps_header_constant && get_or bytes 1 0 == id

-- The word at index `i` of a packet that is long enough.
abbrev word_at : List ℕ → ℕ → ℕ → ℕ → ℕ → ℕ
word_at bytes i j k l =
    u32_from_le (get_or bytes i 0) (get_or bytes j 0) (get_or bytes k 0) (get_or bytes l 0)

unfoldable pub receive_gps_init : List ℕ → Option ℕ
receive_gps_init bytes =
    if leb 8 (length bytes) && has_header gps_init bytes then some (word_at bytes 4 5 6 7) else none

pub record GpsReconnect : Type 0 where
  pub pid : ℕ
  pub key : ℕ
  pub last_packet : ℕ

unfoldable pub receive_gps_reconnect : List ℕ → Option GpsReconnect
receive_gps_reconnect bytes =
    if length bytes == 13 && has_header gps_reconnect bytes
    then some (record {
      pid = get_or bytes 4 0;
      key = word_at bytes 5 6 7 8;
      last_packet = word_at bytes 9 10 11 12;
    })
    else none

unfoldable pub receive_gps_ack : List ℕ → Option ℕ
receive_gps_ack bytes =
    if length bytes == 8 && has_header gps_ack bytes then some (word_at bytes 4 5 6 7) else none
