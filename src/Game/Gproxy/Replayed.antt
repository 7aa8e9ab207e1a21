-- ===== src/Game/Gproxy/Replayed.antt =====
-- src/game/actor.rs: what a GProxy++ player's buffer holds after any sends and acknowledgements.
use ghostpp_rs.Prelude.{
  ℕ, zero, suc, ◌+◌, ◌-◌, ◌^◌, ◌≤◌, ◌<◌, ◌≡◌, refl, sym, ap, ◌∙◌, min, max, true, List, [], ◌∷◌,
  ◌++◌, arith, length, take, drop, ltb, Bool-cases, inl, inr, drop-drop, drop-append_le,
  take-append-drop, length-append, length-drop, append_assoc, append-nil,
}
use ghostpp_rs.Net.Conn.{total_bytes}
use ghostpp_rs.Game.{LobbyPlayer}
use ghostpp_rs.Game.Hub.{note_sent}
use ghostpp_rs.Game.Gproxy.{pop_packet, pop_packets, already_unqueued, trim_gproxy_buffer}

-- A packet is sent, or the client reports the number of the last packet that it has received.
pub data GproxyEvent : Type 0 where
  sends : List ℕ → GproxyEvent
  acknowledges : ℕ → GproxyEvent

unfoldable pub gproxy_event : GproxyEvent → LobbyPlayer → LobbyPlayer
gproxy_event (sends bytes) p = note_sent true bytes p
gproxy_event (acknowledges last_packet) p = trim_gproxy_buffer last_packet p

unfoldable pub gproxy_events : List GproxyEvent → LobbyPlayer → LobbyPlayer
gproxy_events [] p = p
gproxy_events (e ∷ events) p = gproxy_events events (gproxy_event e p)

-- All that was sent, and the greatest number acknowledged.
unfoldable pub sent_by : List GproxyEvent → List (List ℕ)
sent_by [] = []
sent_by (sends bytes ∷ events) = bytes ∷ sent_by events
sent_by (acknowledges last_packet ∷ events) = sent_by events

unfoldable pub last_acknowledged : List GproxyEvent → ℕ
last_acknowledged [] = 0
last_acknowledged (sends bytes ∷ events) = last_acknowledged events
last_acknowledged (acknowledges last_packet ∷ events) = max last_packet (last_acknowledged events)

-- `history` was sent since the game loaded, behind `base` packets; its first `gone` are acknowledged.
pub record Holds (base gone : ℕ) (history : List (List ℕ)) (p : LobbyPlayer) : Type 0 where
  pub proxied : p.gproxy ≡ true
  pub buffer : p.gproxy_buffer ≡ drop gone history
  pub within : gone ≤ length history
  pub total : p.total_sent ≡ base + length history
  pub counted : p.gproxy_buffer_bytes ≡ total_bytes p.gproxy_buffer

drop_eq : (m n : ℕ) (xs : List (List ℕ)) → m ≡ n → drop m xs ≡ drop n xs
drop_eq m n xs e = ap (λ (k : ℕ). drop k xs) e

pop_packet-lem :
    (buffer : List (List ℕ)) (p : LobbyPlayer)
    → p.gproxy_buffer ≡ buffer
    → p.gproxy_buffer_bytes ≡ total_bytes p.gproxy_buffer
    → ((pop_packet buffer p).gproxy_buffer ≡ drop 1 buffer)
      × ((pop_packet buffer p).gproxy ≡ p.gproxy)
      × ((pop_packet buffer p).total_sent ≡ p.total_sent)
      × ((pop_packet buffer p).gproxy_buffer_bytes
          ≡ total_bytes (pop_packet buffer p).gproxy_buffer)
unfolding pop_packet
pop_packet-lem [] p e h = (e, refl, refl, h)
pop_packet-lem (bytes ∷ buffer) p e h = (refl, refl, refl, omega (arith, h, ap total_bytes e))

pop_packets-lem :
    (n : ℕ) (p : LobbyPlayer)
    → p.gproxy_buffer_bytes ≡ total_bytes p.gproxy_buffer
    → ((pop_packets n p).gproxy_buffer ≡ drop n p.gproxy_buffer)
      × ((pop_packets n p).gproxy ≡ p.gproxy)
      × ((pop_packets n p).total_sent ≡ p.total_sent)
      × ((pop_packets n p).gproxy_buffer_bytes ≡ total_bytes (pop_packets n p).gproxy_buffer)
unfolding pop_packets
pop_packets-lem zero p h = (refl, refl, refl, h)
pop_packets-lem (suc n) p h =
    let (buffer, proxied, total, counted) = pop_packet-lem p.gproxy_buffer p refl h in
    let (buffer', proxied', total', counted') =
      pop_packets-lem n (pop_packet p.gproxy_buffer p) counted in
    (
      buffer'
          ∙ ap (drop n) buffer
          ∙ drop-drop n 1 p.gproxy_buffer
          ∙ drop_eq (1 + n) (suc n) p.gproxy_buffer (omega arith),
      proxied' ∙ proxied,
      total' ∙ total,
      counted',
    )

total_bytes-append :
    (ps : List (List ℕ)) (bytes : List ℕ)
    → total_bytes (ps ++ bytes ∷ []) ≡ total_bytes ps + length bytes
total_bytes-append [] bytes = omega arith
total_bytes-append (q ∷ ps) bytes = omega (arith, total_bytes-append ps bytes)

note_sent-Holds :
    (base gone : ℕ) (history : List (List ℕ)) (p : LobbyPlayer) (bytes : List ℕ)
    → Holds base gone history p
    → base + length history + 1 < 2 ^ 32
    → Holds base gone (history ++ bytes ∷ []) (note_sent true bytes p)
unfolding note_sent
note_sent-Holds base gone history p bytes h room = simp h.proxied (record {
  proxied = refl;
  buffer =
      ap (λ (t : List (List ℕ)). t ++ bytes ∷ []) h.buffer
      ∙ sym (drop-append_le gone history (bytes ∷ []) h.within);
  within = omega (arith, h.within, length-append history (bytes ∷ []));
  total = omega (arith, h.total, length-append history (bytes ∷ []));
  counted = omega (arith, h.counted, total_bytes-append p.gproxy_buffer bytes);
})

already-Holds :
    (base gone : ℕ) (history : List (List ℕ)) (p : LobbyPlayer)
    → Holds base gone history p
    → base + length history < 2 ^ 32
    → (already_unqueued p ≡ base + gone) × (length p.gproxy_buffer ≡ length history - gone)
already-Holds base gone history p h room = (omega (arith, left, h.total, h.within), left)
  where
    left : length p.gproxy_buffer ≡ length history - gone
    left = ap length h.buffer ∙ length-drop gone history

trim-Holds :
    (base gone : ℕ) (history : List (List ℕ)) (p : LobbyPlayer) (last_packet : ℕ)
    → Holds base gone history p
    → base + length history < 2 ^ 32
    → Holds base
        (max gone (min (last_packet - base) (length history)))
        history
        (trim_gproxy_buffer last_packet p)
trim-Holds base gone history p last_packet h room =
    elim (Bool-cases (ltb (already_unqueued p) last_packet)) [
      | inl more ↦
          let n = min (last_packet - already_unqueued p) (length p.gproxy_buffer) in
          let (buffer, proxied, total, counted) = pop_packets-lem n p h.counted in
          let (already, left) = already-Holds base gone history p h room in
          unfold trim_gproxy_buffer in
          simp more (record {
            proxied = proxied ∙ h.proxied;
            buffer =
                buffer
                ∙ ap (drop n) h.buffer
                ∙ drop-drop n gone history
                ∙ ap (λ (k : ℕ). drop k history) (ground (arith, already, left, h.within));
            within = omega (arith, h.within);
            total = total ∙ h.total;
            counted = counted;
          })
      | inr nothing_new ↦
          let (already, left) = already-Holds base gone history p h room in
          unfold trim_gproxy_buffer in
          simp nothing_new (record {
            proxied = h.proxied;
            buffer =
                h.buffer ∙ ap (λ (k : ℕ). drop k history) (ground (arith, already, left, h.within));
            within = omega (arith, h.within);
            total = h.total;
            counted = h.counted;
          })
    ]

-- Every run of sends and acknowledgements keeps the buffer at the packets that were not acknowledged.
gproxy_events-Holds :
    (events : List GproxyEvent) (base gone : ℕ) (history : List (List ℕ)) (p : LobbyPlayer)
    → Holds base gone history p
    → base + length history + length (sent_by events) < 2 ^ 32
    → (gone' : ℕ) × Holds base gone' (history ++ sent_by events) (gproxy_events events p)
      × (gone' ≤ max gone (last_acknowledged events - base))
unfolding gproxy_events gproxy_event sent_by last_acknowledged
gproxy_events-Holds [] base gone history p h room = (gone, rw (append-nil history) h, omega arith)
gproxy_events-Holds (sends bytes ∷ events) base gone history p h room =
    let (gone', holds, bound) =
      gproxy_events-Holds events base gone (history ++ bytes ∷ []) (note_sent true bytes p)
        (note_sent-Holds base gone history p bytes h (omega arith))
        (omega (arith, length-append history (bytes ∷ []))) in
    (gone', rw⁻¹ (append_assoc history (bytes ∷ []) (sent_by events)) holds, bound)
gproxy_events-Holds (acknowledges last_packet ∷ events) base gone history p h room =
    let gone₁ = max gone (min (last_packet - base) (length history)) in
    let (gone', holds, bound) =
      gproxy_events-Holds events base gone₁ history (trim_gproxy_buffer last_packet p)
        (trim-Holds base gone history p last_packet h (omega arith)) room in
    (gone', holds, omega (arith, bound))

-- No packet is lost or doubled by a reconnect: after any run of sends and acknowledgements since the
-- game loaded, whatever number of packets the client has received (at least what it acknowledged, at
-- most what was sent), those packets followed by the trimmed buffer are all that was sent, in order,
-- as long as the count stays below 2 ^ 32.
pub replayed :
    (events : List GproxyEvent) (p : LobbyPlayer) (received : ℕ)
    → p.gproxy ≡ true
    → p.gproxy_buffer ≡ []
    → p.gproxy_buffer_bytes ≡ 0
    → last_acknowledged events ≤ p.total_sent + received
    → received ≤ length (sent_by events)
    → p.total_sent + length (sent_by events) < 2 ^ 32
    → take received (sent_by events)
        ++ (trim_gproxy_buffer (p.total_sent + received) (gproxy_events events p)).gproxy_buffer
      ≡ sent_by events
replayed events p received proxied empty zero_bytes acked most room =
    let start : Holds p.total_sent 0 [] p = record {
      proxied = proxied;
      buffer = empty;
      within = omega arith;
      total = omega arith;
      counted = zero_bytes ∙ sym (ap total_bytes empty);
    } in
    let (gone, holds, bound) = gproxy_events-Holds events p.total_sent 0 [] p start (omega arith) in
    let trimmed =
      trim-Holds p.total_sent gone (sent_by events) (gproxy_events events p)
        (p.total_sent + received) holds (omega arith) in
    ap (λ (t : List (List ℕ)). take received (sent_by events) ++ t)
      (trimmed.buffer ∙ drop_eq _ received (sent_by events) (omega (arith, bound)))
    ∙ take-append-drop received (sent_by events)
