-- ===== src/Game/Gproxy/Trimmed.antt =====
-- src/game/actor.rs: what trim_gproxy_buffer leaves of the buffer, whatever the counters say.
use ghostpp_rs.Prelude.{
  ℕ, zero, suc, ◌-◌, ◌≡◌, refl, ◌∙◌, min, List, [], ◌∷◌, length, drop, drop-nil, ltb, Bool-cases,
  inl, inr, if◌then◌else◌, if-either,
}
use ghostpp_rs.Game.{LobbyPlayer}
use ghostpp_rs.Game.Gproxy.{pop_packet, pop_packets, already_unqueued, trim_gproxy_buffer}

pop_packet-buffer :
    (n : ℕ) (buffer : List (List ℕ)) (p : LobbyPlayer)
    → p.gproxy_buffer ≡ buffer
    → drop n (pop_packet buffer p).gproxy_buffer ≡ drop (suc n) buffer
unfolding pop_packet
pop_packet-buffer n [] p e = rw (e, drop-nil n) refl
pop_packet-buffer n (bytes ∷ buffer) p e = refl

pop_packets-buffer :
    (n : ℕ) (p : LobbyPlayer) → (pop_packets n p).gproxy_buffer ≡ drop n p.gproxy_buffer
unfolding pop_packets
pop_packets-buffer zero p = refl
pop_packets-buffer (suc n) p =
    pop_packets-buffer n (pop_packet p.gproxy_buffer p) ∙ pop_packet-buffer n p.gproxy_buffer p refl

-- What a trim leaves of the buffer.
pub trim_gproxy_buffer-buffer :
    (last_packet : ℕ) (p : LobbyPlayer)
    → (trim_gproxy_buffer last_packet p).gproxy_buffer
      ≡ drop
          (if ltb (already_unqueued p) last_packet
            then min (last_packet - already_unqueued p) (length p.gproxy_buffer)
            else 0)
          p.gproxy_buffer
unfolding trim_gproxy_buffer
trim_gproxy_buffer-buffer last_packet p = elim (Bool-cases (ltb (already_unqueued p) last_packet)) [
  | inl behind ↦ simp behind (pop_packets-buffer _ p)
  | inr level ↦ simp level refl
]

pop_packet-received :
    (buffer : List (List ℕ)) (p : LobbyPlayer)
    → (pop_packet buffer p).total_received ≡ p.total_received
unfolding pop_packet
pop_packet-received [] p = refl
pop_packet-received (bytes ∷ buffer) p = refl

pop_packets-received :
    (n : ℕ) (p : LobbyPlayer) → (pop_packets n p).total_received ≡ p.total_received
unfolding pop_packets
pop_packets-received zero p = refl
pop_packets-received (suc n) p =
    pop_packets-received n (pop_packet p.gproxy_buffer p) ∙ pop_packet-received p.gproxy_buffer p

pub trim_gproxy_buffer-received :
    (last_packet : ℕ) (p : LobbyPlayer)
    → (trim_gproxy_buffer last_packet p).total_received ≡ p.total_received
unfolding trim_gproxy_buffer
trim_gproxy_buffer-received last_packet p =
    if-either (λ (q : LobbyPlayer). q.total_received) (ltb (already_unqueued p) last_packet)
      (pop_packets-received _ p) refl
