-- ===== src/Game/Reconnect/Resumed.antt =====
-- src/game/actor.rs: a reconnect gets the whole replay buffer through. The limit that game_tick keeps the
-- buffer under leaves room for it in the write queue of the new connection.
use ghostpp_rs.Prelude.{
  ℕ, zero, suc, ◌≤◌, ◌≡◌, refl, sym, ap, ◌∙◌, Bool, true, false, ◌&&◌, List, [], ◌∷◌, ◌++◌, Option,
  some, arith, ◌==◌, length, drop, if-true, ==_refl,
}
use ghostpp_rs.Net.Conn.{Link, opened, try_send, total_bytes}
use ghostpp_rs.Core.Gps.{send_gpss_reconnect}
use ghostpp_rs.Game.{LobbyPlayer, GameActor, Env, get_player}
use ghostpp_rs.Util.{assign_length}
use ghostpp_rs.Game.Gproxy.{trim_gproxy_buffer}
use ghostpp_rs.Game.Gproxy.Trimmed.{trim_gproxy_buffer-buffer, trim_gproxy_buffer-received}
use ghostpp_rs.Game.Lag.{gproxy_buffer_max_bytes}
use ghostpp_rs.Game.Reconnect.{
  send_direct, rejoin, replay_buffer, connected, reconnect, reconnect_player,
  handle_gproxy_reconnect,
}
use ghostpp_rs.Game.Reconnect.Outgoing.{
  try_send_fits, queued_on, send_direct-link, replay_buffer-sends, IsExtended, announce_rejoin-true,
}

total_bytes-drop :
    (n : ℕ) (packets : List (List ℕ)) → total_bytes (drop n packets) ≤ total_bytes packets
total_bytes-drop zero packets = omega arith
total_bytes-drop (suc n) [] = omega arith
total_bytes-drop (suc n) (packet ∷ packets) = omega (arith, total_bytes-drop n packets)

-- The new connection does not change what the trim leaves.
rejoin-buffer :
    (id last_packet : ℕ) (p : LobbyPlayer)
    → (rejoin id last_packet p).gproxy_buffer ≡ (trim_gproxy_buffer last_packet p).gproxy_buffer
unfolding rejoin
rejoin-buffer id last_packet p =
    trim_gproxy_buffer-buffer last_packet
      (record p { conn_id = id; handle = id; gproxy_disconnected = false; disconnect_time = 0 })
    ∙ sym (trim_gproxy_buffer-buffer last_packet p)

rejoin-bytes :
    (id last_packet : ℕ) (p : LobbyPlayer)
    → total_bytes (rejoin id last_packet p).gproxy_buffer ≤ total_bytes p.gproxy_buffer
rejoin-bytes id last_packet p =
    rw (rejoin-buffer id last_packet p, trim_gproxy_buffer-buffer last_packet p)
      (total_bytes-drop _ p.gproxy_buffer)

rejoin-received :
    (id last_packet : ℕ) (p : LobbyPlayer)
    → (rejoin id last_packet p).total_received ≡ p.total_received
unfolding rejoin
rejoin-received id last_packet p = trim_gproxy_buffer-received last_packet _

reconnect_length : (n : ℕ) → length (send_gpss_reconnect n) ≡ 8
unfolding send_gpss_reconnect assign_length
reconnect_length n = refl

-- A valid request is answered.
reconnect_valid :
    (env : Env) (pid key last_packet : ℕ) (g : GameActor) (p : LobbyPlayer)
    → get_player pid g.players ≡ some p
    → p.gproxy ≡ true
    → p.gproxy_key ≡ key
    → handle_gproxy_reconnect env pid key last_packet g ≡ reconnect env p last_packet g
unfolding handle_gproxy_reconnect reconnect_player
reconnect_valid env pid key last_packet g p found uses same =
    ap (λ (o : Option LobbyPlayer). reconnect_player o env key last_packet g) found
    ∙ if-true (p.gproxy && p.gproxy_key == key) _ _ (rw (uses, same, ==_refl key) refl)

-- The state once the request has been answered on the new connection.
answered : LobbyPlayer → ℕ → GameActor → GameActor
answered p last_packet g =
    send_direct g.next_conn_id
      (send_gpss_reconnect (rejoin g.next_conn_id last_packet p).total_received)
      (connected p last_packet g)

answered-link :
    (p : LobbyPlayer) (last_packet : ℕ) (g : GameActor)
    → (answered p last_packet g).links g.next_conn_id
      ≡ queued_on
          (opened g.next_conn_id)
          (send_gpss_reconnect (rejoin g.next_conn_id last_packet p).total_received)
unfolding answered connected opened
answered-link p last_packet g =
    let id = g.next_conn_id in
    let answer = send_gpss_reconnect (rejoin id last_packet p).total_received in
    let small = reconnect_length (rejoin id last_packet p).total_received in
    send_direct-link id answer (connected p last_packet g)
    ∙ ap (λ (x : Link × Bool). x.0)
        (ap (try_send answer) (if-true (id == id) (opened id) (g.links id) (==_refl id))
          ∙ try_send_fits answer (opened id) refl (omega (arith, small)))

backlog_sent :
    (p : LobbyPlayer) (last_packet : ℕ) (g : GameActor)
    → total_bytes p.gproxy_buffer ≤ gproxy_buffer_max_bytes
    → ((replay_buffer g.next_conn_id
          (rejoin g.next_conn_id last_packet p).gproxy_buffer
          (answered p last_packet g)).1
        ≡ true)
      × (((replay_buffer g.next_conn_id
              (rejoin g.next_conn_id last_packet p).gproxy_buffer
              (answered p last_packet g)).0.links
            g.next_conn_id).channel
          ≡ send_gpss_reconnect p.total_received ∷ (trim_gproxy_buffer last_packet p).gproxy_buffer)
backlog_sent p last_packet g within =
    let id = g.next_conn_id in
    let p' = rejoin id last_packet p in
    let answer = send_gpss_reconnect p'.total_received in
    let sent =
      replay_buffer-sends id p'.gproxy_buffer (answered p last_packet g)
        (queued_on (opened id) answer) (answered-link p last_packet g) (unfold opened in refl)
        (unfold opened in
          omega
            (arith, within, rejoin-bytes id last_packet p, reconnect_length p'.total_received)) in
    (
      sent.0,
      sent.1
          ∙ (unfold opened in
              (λ i.
                send_gpss_reconnect (rejoin-received id last_packet p i)
                ∷ rejoin-buffer id last_packet p i)),
    )

-- A valid reconnect resumes the stream: the new connection is handed the answer and then, in order, every
-- packet of the replay buffer that the client has not received, if the buffer is within the limit that
-- game_tick keeps it under.
pub handle_gproxy_reconnect_resends :
    (env : Env) (pid key last_packet : ℕ) (g : GameActor) (p : LobbyPlayer)
    → get_player pid g.players ≡ some p
    → p.gproxy ≡ true
    → p.gproxy_key ≡ key
    → total_bytes p.gproxy_buffer ≤ gproxy_buffer_max_bytes
    → (more : List (List ℕ)) × (((handle_gproxy_reconnect env pid key last_packet g).links
          g.next_conn_id).channel
        ≡ (send_gpss_reconnect p.total_received ∷ (trim_gproxy_buffer last_packet p).gproxy_buffer)
          ++ more)
unfolding IsExtended reconnect answered
handle_gproxy_reconnect_resends env pid key last_packet g p found uses same within =
    let id = g.next_conn_id in
    let sent =
      replay_buffer id (rejoin id last_packet p).gproxy_buffer (answered p last_packet g) in
    let backlog = backlog_sent p last_packet g within in
    let announced = announce_rejoin-true env p sent backlog.0 id in
    (
      announced.0,
      ap (λ (x : GameActor). (x.links id).channel)
            (reconnect_valid env pid key last_packet g p found uses same)
          ∙ (announced.1 ∙ ap (λ (c : List (List ℕ)). c ++ announced.0) backlog.1),
    )
