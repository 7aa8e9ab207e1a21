-- ===== src/Game/Batches/Handed.antt =====
-- src/game/actor.rs: a beat of send_all_actions, at the connection of each player.
use ghostpp_rs.Prelude.{
  ℕ, zero, suc, ◌+◌, ◌%◌, ◌^◌, ◌≡◌, refl, sym, ap, ◌∙◌, Bool, true, false, ◌&&◌, not, List, [], ◌∷◌,
  ◌++◌, map, ◌==◌, if◌then◌else◌, All, as_u16, any, replicate, Bool-cases, inl, inr,
}
use ghostpp_rs.Net.Conn.{Link}
use ghostpp_rs.Core.GameProtocol.{IncomingAction}
use ghostpp_rs.Core.GameProtocol.Send.{send_w3gs_incoming_action, send_w3gs_incoming_action2}
use ghostpp_rs.Core.Replay.{ReplayRecorder, add_time_slot, add_time_slot2}
use ghostpp_rs.Game.{LobbyPlayer, GameActor}
use ghostpp_rs.Game.Hub.{send_to_pid, pids_of, send_all}
use ghostpp_rs.Game.Hub.Settled.{
  settle, settle_player, send_to_pid-settle, send_all-settle, record_replay-settle,
}
use ghostpp_rs.Game.Hub.Delivery.{IsKeyed, send_all-latency}
use ghostpp_rs.Game.Batches.{
  chunks_of, direct_pids, record_replay, replay_actions, send_empty_actions, send_empty_to,
  pay_empty_actions, send_chunks, send_all_actions,
}
use ghostpp_rs.Game.Batches.Stream.{note_all, beat_packets}
use ghostpp_rs.Game.Batches.Mixed.{owed, send_all_actions-players}
use ghostpp_rs.Game.Batches.Wire.{
  IsWired, IsSole, offer_all, offer_all-append, offer_if, dealt, settle-IsSole, send_to_pid-link,
  send_to_pids-link, players-settle,
}
use ghostpp_rs.Game.Batches.Placed.{Placed, all-Placed}
use ghostpp_rs.Game.Lag.Beat.{send_empty_actions-settle, pay_empty_actions-settle}

offer_repeated :
    (c : Bool) (n : ℕ) (bytes : List ℕ) (l : Link)
    → offer_all (if c then replicate n bytes else []) (offer_all (if c then bytes ∷ [] else []) l)
      ≡ offer_all (if c then bytes ∷ replicate n bytes else []) l
unfolding offer_all
offer_repeated true n bytes l = refl
offer_repeated false n bytes l = refl

offer_nothing : (c : Bool) (l : Link) → l ≡ offer_all (if c then [] else []) l
unfolding offer_all
offer_nothing true l = refl
offer_nothing false l = refl

offer_both :
    (there : Bool) (xs ys : List (List ℕ)) (l : Link)
    → offer_all (if there then ys else []) (offer_all (if there then xs else []) l)
      ≡ offer_all (if there then xs ++ ys else []) l
offer_both true xs ys l = sym (offer_all-append xs ys l)
offer_both false xs ys l = unfold offer_all in refl

module _ (crc32 : List ℕ → ℕ) (handle target : ℕ) (there : Bool) where
  empty_action : List ℕ
  empty_action = send_w3gs_incoming_action crc32 [] 0

  send_empty_actions-link :
      (n pid : ℕ) (g : GameActor)
      → IsSole handle target there g
      → (send_empty_actions crc32 n pid g).links handle
        ≡ offer_all
            (if pid == target && there then replicate n empty_action else [])
            (g.links handle)
  unfolding send_empty_actions empty_action
  send_empty_actions-link zero pid g sole = offer_nothing (pid == target && there) (g.links handle)
  send_empty_actions-link (suc n) pid g sole =
      let bytes = send_w3gs_incoming_action crc32 [] 0 in
      let c = pid == target && there in
      send_empty_actions-link n pid (send_to_pid pid bytes g) (
        settle-IsSole handle target there g (send_to_pid pid bytes g)
          (send_to_pid-settle pid bytes g) sole)
      ∙ ap (offer_all (if c then replicate n bytes else []))
          (send_to_pid-link pid bytes g handle c (sole pid) ∙ offer_if c bytes (g.links handle))
      ∙ offer_repeated c n bytes (g.links handle)

  send_empty_to-link :
      (n : ℕ) (pids : List ℕ) (g : GameActor)
      → IsSole handle target there g
      → (send_empty_to crc32 n pids g).links handle
        ≡ offer_all (dealt there target (replicate n empty_action) pids) (g.links handle)
  unfolding send_empty_to dealt
  send_empty_to-link n [] g sole = unfold offer_all in refl
  send_empty_to-link n (pid ∷ pids) g sole =
      let g' = send_empty_actions crc32 n pid g in
      send_empty_to-link n pids g'
        (settle-IsSole handle target there g g' (send_empty_actions-settle crc32 n pid g) sole)
      ∙ ap (offer_all (dealt there target (replicate n empty_action) pids))
          (send_empty_actions-link n pid g sole)
      ∙ sym
          (offer_all-append _ (dealt there target (replicate n empty_action) pids) (g.links handle))

pids_of-settle_player :
    (players : List LobbyPlayer) → pids_of (map settle_player players) ≡ pids_of players
unfolding settle_player
pids_of-settle_player [] = refl
pids_of-settle_player (p ∷ players) =
    ap (λ (pids : List ℕ). p.pid ∷ pids) (pids_of-settle_player players)

pids_of-settle : (g h : GameActor) → settle g ≡ settle h → pids_of g.players ≡ pids_of h.players
pids_of-settle g h e =
    sym (pids_of-settle_player g.players)
    ∙ ap pids_of (players-settle g h e)
    ∙ pids_of-settle_player h.players

module _ (crc32 : List ℕ → ℕ) (p : LobbyPlayer) where
  present : Bool
  present = not p.gproxy_disconnected

  owed-dealt :
      (n : ℕ) (b : Bool)
      → (if b && not p.gproxy then replicate n (send_w3gs_incoming_action crc32 [] 0) else [])
        ≡ (if b then owed crc32 n true p else [])
  unfolding owed
  owed-dealt n true = refl
  owed-dealt n false = refl

  owed-none : (n : ℕ) (b : Bool) → [] ≡ (if b then owed crc32 n false p else [])
  unfolding owed
  owed-none n true = refl
  owed-none n false = refl

  pay_empty_actions-link :
      (g : GameActor)
      → Placed g.players p
      → (pay_empty_actions crc32 g).links p.handle
        ≡ offer_all
            (if present
              then owed crc32 g.gproxy_empty_actions (any (λ q. q.gproxy) g.players) p
              else [])
            (g.links p.handle)
  unfolding pay_empty_actions record_replay present empty_action offer_all
  pay_empty_actions-link g placed = elim (Bool-cases (any (λ q. q.gproxy) g.players)) [
    | inl mixed ↦ simp mixed (
        send_empty_to-link crc32 p.handle p.pid present g.gproxy_empty_actions
          (direct_pids g.players) g placed.sole
        ∙ ap (λ (packets : List (List ℕ)). offer_all packets (g.links p.handle))
            (placed.direct present _ ∙ owed-dealt g.gproxy_empty_actions present))
    | inr direct ↦ simp direct (
        ap (λ (packets : List (List ℕ)). offer_all packets (g.links p.handle))
          (owed-none g.gproxy_empty_actions present))
  ]

  -- A broadcast comes to the player's connection once.
  record IsReached (g : GameActor) : Type 0 where
    sole : IsSole p.handle p.pid present g
    once :
        (packets : List (List ℕ))
        → dealt present p.pid packets (pids_of g.players) ≡ (if present then packets else [])

  settle-IsReached : (g h : GameActor) → settle h ≡ settle g → IsReached g → IsReached h
  settle-IsReached g h e reached = record {
    sole = settle-IsSole p.handle p.pid present g h e reached.sole;
    once =
        λ packets. ap (dealt present p.pid packets) (pids_of-settle h g e) ∙ reached.once packets;
  }

  send_all-link :
      (bytes : List ℕ) (g : GameActor)
      → IsReached g
      → (send_all bytes g).links p.handle
        ≡ offer_all (if present then bytes ∷ [] else []) (g.links p.handle)
  unfolding send_all
  send_all-link bytes g reached =
      send_to_pids-link p.handle p.pid present (pids_of g.players) bytes g reached.sole
      ∙ ap (λ (packets : List (List ℕ)). offer_all packets (g.links p.handle))
          (reached.once (bytes ∷ []))

  -- The broadcast of a chunk, with its entry in the replay.
  chunk_link :
      (f : ReplayRecorder → ReplayRecorder) (bytes : List ℕ) (g : GameActor)
      → IsReached g
      → ((send_all bytes (record_replay f g)).links p.handle
          ≡ offer_all (if present then bytes ∷ [] else []) (g.links p.handle))
        × IsReached (send_all bytes (record_replay f g))
  chunk_link f bytes g reached =
      let recorded = settle-IsReached g (record_replay f g) (record_replay-settle f g) reached in
      (
        send_all-link bytes (record_replay f g) recorded ∙ (unfold record_replay in refl),
        settle-IsReached (record_replay f g) (send_all bytes (record_replay f g))
            (send_all-settle bytes (record_replay f g)) recorded,
      )

  send_chunks-link :
      (chunks : List (List IncomingAction)) (g : GameActor)
      → IsReached g
      → (send_chunks crc32 chunks g).links p.handle
        ≡ offer_all
            (if present then beat_packets crc32 (as_u16 g.latency_ms) chunks else [])
            (g.links p.handle)
  unfolding send_chunks beat_packets
  send_chunks-link [] g reached = offer_nothing present (g.links p.handle)
  send_chunks-link (chunk ∷ []) g reached =
      (chunk_link (add_time_slot (as_u16 g.latency_ms) (replay_actions chunk))
        (send_w3gs_incoming_action crc32 chunk (as_u16 g.latency_ms)) g reached).0
  send_chunks-link (chunk ∷ next ∷ chunks) g reached =
      let bytes = send_w3gs_incoming_action2 crc32 chunk in
      let f = add_time_slot2 (replay_actions chunk) in
      let g' = send_all bytes (record_replay f g) in
      let first = chunk_link f bytes g reached in
      send_chunks-link (next ∷ chunks) g' first.1
      ∙ ap
          (λ (n : ℕ).
            offer_all (if present then beat_packets crc32 (as_u16 n) (next ∷ chunks) else [])
              (g'.links p.handle))
          (same_latency f bytes g)
      ∙ ap
          (offer_all
            (if present then beat_packets crc32 (as_u16 g.latency_ms) (next ∷ chunks) else []))
          first.0
      ∙ offer_both present (bytes ∷ []) (beat_packets crc32 (as_u16 g.latency_ms) (next ∷ chunks))
          (g.links p.handle)
    where
      same_latency :
          (f : ReplayRecorder → ReplayRecorder) (bytes : List ℕ) (g : GameActor)
          → (send_all bytes (record_replay f g)).latency_ms ≡ g.latency_ms
      same_latency f bytes g =
          send_all-latency bytes (record_replay f g) ∙ (unfold record_replay in refl)

  latency-pay : (g : GameActor) → (pay_empty_actions crc32 g).latency_ms ≡ g.latency_ms
  unfolding settle
  latency-pay g = ap (λ (x : GameActor). x.latency_ms) (pay_empty_actions-settle crc32 g)

  -- The state in which the chunks go out.
  counted : GameActor → GameActor
  counted g = record g { sync_counter = (g.sync_counter + 1) % 2 ^ 32; actions = [] }

  counted-IsReached : (g : GameActor) → IsReached g → IsReached (counted g)
  unfolding counted
  counted-IsReached g reached = record { sole = reached.sole; once = reached.once }

  present-if :
      (gone : Bool) (packets : List (List ℕ)) (l : Link)
      → offer_all (if not gone then packets else []) l ≡ (if gone then l else offer_all packets l)
  unfolding offer_all
  present-if true packets l = refl
  present-if false packets l = refl

module _ (crc32 : List ℕ → ℕ) where
  -- What a beat sends the player: the empty actions that it is owed, and then the chunks of the queue.
  abbrev pub stream : GameActor → LobbyPlayer → List (List ℕ)
  stream g p =
      owed crc32 g.gproxy_empty_actions (any (λ q. q.gproxy) g.players) p
      ++ beat_packets crc32 (as_u16 g.latency_ms) (chunks_of g.actions)

  send_all_actions-link :
      (g : GameActor) (p : LobbyPlayer)
      → Placed g.players p
      → (send_all_actions crc32 g).links p.handle ≡ (
          if p.gproxy_disconnected
          then g.links p.handle
          else offer_all (stream g p) (g.links p.handle))
  unfolding send_all_actions present counted
  send_all_actions-link g p placed =
      let g' = pay_empty_actions crc32 g in
      let there : Bool = not p.gproxy_disconnected in
      let reached : IsReached crc32 p g = record { sole = placed.sole; once = placed.once there } in
      let paid = settle-IsReached crc32 p g g' (pay_empty_actions-settle crc32 g) reached in
      send_chunks-link crc32 p (chunks_of g.actions) (counted crc32 p g')
        (counted-IsReached crc32 p g' paid)
      ∙ ap
          (λ (n : ℕ).
            offer_all (if there then beat_packets crc32 (as_u16 n) (chunks_of g.actions) else [])
              (g'.links p.handle))
          (latency-pay crc32 p g)
      ∙ ap
          (offer_all
            (if there then beat_packets crc32 (as_u16 g.latency_ms) (chunks_of g.actions) else []))
          (pay_empty_actions-link crc32 p g placed)
      ∙ offer_both there (owed crc32 g.gproxy_empty_actions (any (λ q. q.gproxy) g.players) p)
          (beat_packets crc32 (as_u16 g.latency_ms) (chunks_of g.actions)) (g.links p.handle)
      ∙ present-if crc32 p p.gproxy_disconnected (stream g p) (g.links p.handle)

  handed :
      (g : GameActor) (players : List LobbyPlayer)
      → All (Placed g.players) players
      → All
          (λ p. (send_all_actions crc32 g).links p.handle ≡ (
            if p.gproxy_disconnected
            then g.links p.handle
            else offer_all (stream g p) (g.links p.handle)))
          players
  handed g [] placed = tt
  handed g (p ∷ players) placed = (send_all_actions-link g p placed.0, handed g players placed.1)

  -- In a game where no two players have one pid or one connection, a beat hands the connection of every
  -- player who is not waiting for a reconnect one stream of packets, byte for byte and in order, and
  -- counts it for every player: the empty actions that the player is owed, and then the chunks of the
  -- queue. Players who are behind GProxy++ are owed none; the others are owed `gproxy_empty_actions` of
  -- them as soon as one player is behind GProxy++.
  pub send_all_actions_handed :
      (g : GameActor)
      → IsKeyed g.players
      → IsWired g.players
      → ((send_all_actions crc32 g).players
          ≡ map (λ p. note_all g.game_loaded (stream g p) p) g.players)
        × All
            (λ p. (send_all_actions crc32 g).links p.handle ≡ (
              if p.gproxy_disconnected
              then g.links p.handle
              else offer_all (stream g p) (g.links p.handle)))
            g.players
  send_all_actions_handed g keyed wired = (
    send_all_actions-players crc32 g keyed,
    handed g g.players (all-Placed g.players keyed wired),
  )
