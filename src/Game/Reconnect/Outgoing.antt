-- ===== src/Game/Reconnect/Outgoing.antt =====
-- src/game/actor.rs: what a reconnect and the announcements put on the connections.
use ghostpp_rs.Prelude.{
  ℕ, ◌+◌, ◌≤◌, ◌≡◌, refl, sym, ap, ◌∙◌, Bool, true, false, List, [], ◌∷◌, ◌++◌, Option, none, some,
  inl, inr, arith, ltb, ◌==◌, length, append_assoc, append-nil, Bool-cases, eq-cases, ◌≢◌, if-true,
  if-false, ==_refl,
}
use ghostpp_rs.Net.Conn.{Link, try_send, total_bytes, write_queue_max_bytes}
use ghostpp_rs.Game.{LobbyPlayer, GameActor, Env, get_player}
use ghostpp_rs.Game.Hub.{hand_over, deliver, send_to_pid, pids_of}
use ghostpp_rs.Core.GameProtocol.Send.{send_w3gs_chat_from_host}
use ghostpp_rs.Core.Replay.{add_chat}
use ghostpp_rs.Game.Batches.{record_replay}
use ghostpp_rs.Game.Downloads.{host_pid}
use ghostpp_rs.Game.Chat.{in_game, chat_to, send_all_chat}
use ghostpp_rs.Game.Reconnect.{send_direct, replay_buffer, announce_rejoin}

-- A link that takes packets takes one that fits its budget.
pub try_send_fits :
    (packet : List ℕ) (l : Link)
    → l.receiving ≡ true
    → l.queued + length packet ≤ write_queue_max_bytes
    → try_send packet l
      ≡ (record l { queued = l.queued + length packet; channel = l.channel ++ packet ∷ [] }, true)
unfolding try_send
try_send_fits packet l receiving fits =
    if-false (ltb write_queue_max_bytes (l.queued + length packet)) _ _ (ground arith)
    ∙ if-true l.receiving _ _ receiving

abbrev pub queued_on : Link → List ℕ → Link
queued_on l packet = record l {
  queued = l.queued + length packet;
  channel = l.channel ++ packet ∷ [];
}

pub send_direct-link :
    (handle : ℕ) (packet : List ℕ) (g : GameActor)
    → (send_direct handle packet g).links handle ≡ (try_send packet (g.links handle)).0
unfolding send_direct
send_direct-link handle packet g = if-true (handle == handle) _ _ (==_refl handle)

-- The whole buffer goes out in order if it fits the budget.
pub replay_buffer-sends :
    (handle : ℕ) (packets : List (List ℕ)) (g : GameActor) (l : Link)
    → g.links handle ≡ l
    → l.receiving ≡ true
    → l.queued + total_bytes packets ≤ write_queue_max_bytes
    → ((replay_buffer handle packets g).1 ≡ true)
      × (((replay_buffer handle packets g).0.links handle).channel ≡ l.channel ++ packets)
unfolding replay_buffer
replay_buffer-sends handle [] g l at receiving fits =
    (refl, ap (λ (x : Link). x.channel) at ∙ sym (append-nil l.channel))
replay_buffer-sends handle (packet ∷ packets) g l at receiving fits =
    let sent = ap (try_send packet) at ∙ try_send_fits packet l receiving (omega arith) in
    let after = send_direct handle packet g in
    let rest =
      replay_buffer-sends handle packets after (queued_on l packet)
        (send_direct-link handle packet g ∙ ap (λ (x : Link × Bool). x.0) sent) receiving
        (omega arith) in
    let goes =
      if-true (try_send packet (g.links handle)).1 (replay_buffer handle packets after) (g, false)
        (ap (λ (x : Link × Bool). x.1) sent) in
    (
      ap (λ (x : GameActor × Bool). x.1) goes ∙ rest.0,
      ap (λ (x : GameActor × Bool). (x.0.links handle).channel) goes
          ∙ (rest.1 ∙ append_assoc l.channel (packet ∷ []) packets),
    )

-- What goes out joins the end of the channels.
unfoldable pub IsExtended : GameActor → GameActor → Type 0
IsExtended g h =
    (id : ℕ) → (more : List (List ℕ)) × ((h.links id).channel ≡ (g.links id).channel ++ more)

IsExtended-refl : (g : GameActor) → IsExtended g g
unfolding IsExtended
IsExtended-refl g id = ([], sym (append-nil (g.links id).channel))

IsExtended-trans : (f g h : GameActor) → IsExtended f g → IsExtended g h → IsExtended f h
unfolding IsExtended
IsExtended-trans f g h fg gh id =
    let a = fg id in
    let b = gh id in
    (
      a.0 ++ b.0,
      b.1 ∙ (ap (λ (c : List (List ℕ)). c ++ b.0) a.1 ∙ append_assoc (f.links id).channel a.0 b.0),
    )

try_send-channel :
    (packet : List ℕ) (l : Link)
    → (more : List (List ℕ)) × ((try_send packet l).0.channel ≡ l.channel ++ more)
unfolding try_send
try_send-channel packet l =
    elim (Bool-cases (ltb write_queue_max_bytes (l.queued + length packet))) [
      | inl full ↦ simp full ([], sym (append-nil l.channel))
      | inr room ↦ elim (Bool-cases l.receiving) [
        | inl up ↦ simp (room, up) (packet ∷ [], refl)
        | inr down ↦ simp (room, down) ([], sym (append-nil l.channel))
      ]
    ]

hand_over-IsExtended :
    (p : LobbyPlayer) (bytes : List ℕ) (g : GameActor) → IsExtended g (hand_over p bytes g)
unfolding IsExtended hand_over
hand_over-IsExtended p bytes g id = elim (eq-cases id p.handle) [
  | inl same ↦ rw (same, ==_refl p.handle) (try_send-channel bytes (g.links p.handle))
  | inr other ↦ simp (differ other) ([], sym (append-nil (g.links id).channel))
]
  where
    differ : id ≢ p.handle → (id == p.handle) ≡ false
    differ h = ground arith

deliver-IsExtended :
    (o : Option LobbyPlayer) (bytes : List ℕ) (g : GameActor) → IsExtended g (deliver o bytes g)
unfolding deliver
deliver-IsExtended none bytes g = IsExtended-refl g
deliver-IsExtended (some p) bytes g = elim (Bool-cases p.gproxy_disconnected) [
  | inl gone ↦ simp gone (IsExtended-refl g)
  | inr there ↦ simp there (hand_over-IsExtended p bytes g)
]

send_to_pid-IsExtended :
    (pid : ℕ) (bytes : List ℕ) (g : GameActor) → IsExtended g (send_to_pid pid bytes g)
unfolding send_to_pid IsExtended
send_to_pid-IsExtended pid bytes g = deliver-IsExtended (get_player pid g.players) bytes _

chat_to-IsExtended :
    (from flag : ℕ) (extra message pids : List ℕ) (g : GameActor)
    → IsExtended g (chat_to from flag extra message pids g)
unfolding chat_to
chat_to-IsExtended from flag extra message [] g = IsExtended-refl g
chat_to-IsExtended from flag extra message (pid ∷ pids) g =
    let bytes = send_w3gs_chat_from_host from (pid ∷ []) flag extra message in
    IsExtended-trans g (send_to_pid pid bytes g)
      (chat_to from flag extra message pids (send_to_pid pid bytes g))
      (send_to_pid-IsExtended pid bytes g)
      (chat_to-IsExtended from flag extra message pids (send_to_pid pid bytes g))

send_all_chat-IsExtended :
    (message : List ℕ) (g : GameActor) → IsExtended g (send_all_chat message g)
unfolding send_all_chat IsExtended record_replay
send_all_chat-IsExtended message g = elim (Bool-cases (in_game g)) [
  | inl running ↦ simp running (
      chat_to-IsExtended (host_pid g) 32 (0 ∷ 0 ∷ 0 ∷ 0 ∷ []) message (pids_of g.players)
        (record_replay (add_chat (host_pid g) 32 0 message) g))
  | inr lobby ↦ simp lobby (chat_to-IsExtended (host_pid g) 16 [] message (pids_of g.players) g)
]

pub announce_rejoin-true :
    (env : Env) (p : LobbyPlayer) (r : GameActor × Bool)
    → r.1 ≡ true
    → IsExtended r.0 (announce_rejoin env p r)
unfolding announce_rejoin
announce_rejoin-true env p (g, true) e = send_all_chat-IsExtended _ g
announce_rejoin-true env p (g, false) e = ground arith
