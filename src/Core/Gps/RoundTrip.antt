-- ===== src/Core/Gps/RoundTrip.antt =====
-- The GProxy++ packets of src/core/gpsprotocol.rs on the wire.
use ghostpp_rs.Prelude.{ℕ, ◌≡◌, some, arith, IsU32}
use ghostpp_rs.Util.{assign_length}
use ghostpp_rs.Core.Gps.{
  send_gpsc_init, send_gpsc_reconnect, send_gpsc_ack, receive_gps_init, receive_gps_reconnect,
  receive_gps_ack,
}

-- The server reads each packet of a GProxy++ client as the client built it, for every 32-bit value.
receive-send :
    (pid n key : ℕ)
    → IsU32 n
    → IsU32 key
    → (receive_gps_init (send_gpsc_init n) ≡ some n)
      × (receive_gps_ack (send_gpsc_ack n) ≡ some n)
      × (receive_gps_reconnect (send_gpsc_reconnect pid key n)
          ≡ some (record { pid = pid; key = key; last_packet = n }))
unfolding receive_gps_init send_gpsc_init receive_gps_ack send_gpsc_ack receive_gps_reconnect
    send_gpsc_reconnect assign_length
receive-send pid n key hn hk = ground arith
