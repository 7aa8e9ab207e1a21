-- ===== src/Game/Gproxy.antt =====
-- src/game/actor.rs: the replay buffer of a GProxy++ player (trim_gproxy_buffer).
pub mod Replayed
pub mod Trimmed
use ghostpp_rs.Prelude.{
  ℕ, zero, suc, ◌+◌, ◌-◌, ◌%◌, ◌^◌, min, List, [], ◌∷◌, ltb, if◌then◌else◌, length, as_u32,
}
use ghostpp_rs.Game.{LobbyPlayer}

-- `pop_front`, with the bytes of what it yields taken off the counter.
pop_packet : List (List ℕ) → LobbyPlayer → LobbyPlayer
pop_packet [] p = p
pop_packet (bytes ∷ buffer) p = record p {
  gproxy_buffer = buffer;
  gproxy_buffer_bytes = p.gproxy_buffer_bytes - length bytes;
}

unfoldable pub pop_packets : ℕ → LobbyPlayer → LobbyPlayer
unfolding pop_packet
pop_packets zero p = p
pop_packets (suc n) p = pop_packets n (pop_packet p.gproxy_buffer p)

-- How many packets were dropped from the buffer before (`wrapping_sub`).
abbrev pub already_unqueued : LobbyPlayer → ℕ
already_unqueued p = (p.total_sent + 2 ^ 32 - as_u32 (length p.gproxy_buffer)) % 2 ^ 32

unfoldable pub trim_gproxy_buffer : ℕ → LobbyPlayer → LobbyPlayer
trim_gproxy_buffer last_packet p =
    if ltb (already_unqueued p) last_packet
    then pop_packets (min (last_packet - already_unqueued p) (length p.gproxy_buffer)) p
    else p
