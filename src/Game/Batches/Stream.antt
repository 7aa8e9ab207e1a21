-- ===== src/Game/Batches/Stream.antt =====
-- src/game/actor.rs: what send_all_actions sends, player by player.
use ghostpp_rs.Prelude.{ℕ, ◌≡◌, refl, sym, ap, ◌∙◌, Bool, List, [], ◌∷◌, map, as_u16}
use ghostpp_rs.Core.GameProtocol.{IncomingAction}
use ghostpp_rs.Core.GameProtocol.Send.{send_w3gs_incoming_action, send_w3gs_incoming_action2}
use ghostpp_rs.Core.Replay.{ReplayRecorder, add_time_slot2}
use ghostpp_rs.Game.{LobbyPlayer, GameActor}
use ghostpp_rs.Game.Hub.{note_sent, send_all}
use ghostpp_rs.Game.Hub.Delivery.{
  IsKeyed, send_all-players, send_all-latency, map-IsKeyed, note_sent-pid,
}
use ghostpp_rs.Game.Batches.{replay_actions, record_replay, send_chunks}

-- The packets of a player, one after the other.
unfoldable pub note_all : Bool → List (List ℕ) → LobbyPlayer → LobbyPlayer
note_all game_loaded [] p = p
note_all game_loaded (bytes ∷ packets) p =
    note_all game_loaded packets (note_sent game_loaded bytes p)

map-note_all :
    (game_loaded : Bool) (bytes : List ℕ) (packets : List (List ℕ)) (players : List LobbyPlayer)
    → map (note_all game_loaded packets) (map (note_sent game_loaded bytes) players)
      ≡ map (note_all game_loaded (bytes ∷ packets)) players
unfolding note_all
map-note_all game_loaded bytes packets [] = refl
map-note_all game_loaded bytes packets (p ∷ players) =
    ap (λ (t : List LobbyPlayer). note_all game_loaded packets (note_sent game_loaded bytes p) ∷ t)
      (map-note_all game_loaded bytes packets players)

map-note_none :
    (game_loaded : Bool) (players : List LobbyPlayer)
    → map (note_all game_loaded []) players ≡ players
unfolding note_all
map-note_none game_loaded [] = refl
map-note_none game_loaded (p ∷ players) =
    ap (λ (t : List LobbyPlayer). p ∷ t) (map-note_none game_loaded players)

module _ (crc32 : List ℕ → ℕ) where
  -- The packets of one beat: every chunk but the last as INCOMING_ACTION2, the last, with the
  -- interval, as INCOMING_ACTION.
  unfoldable pub beat_packets : ℕ → List (List IncomingAction) → List (List ℕ)
  beat_packets interval [] = []
  beat_packets interval (chunk ∷ []) = send_w3gs_incoming_action crc32 chunk interval ∷ []
  beat_packets interval (chunk ∷ next ∷ chunks) =
      send_w3gs_incoming_action2 crc32 chunk ∷ beat_packets interval (next ∷ chunks)

  -- One broadcast of the beat, with its entry in the replay.
  broadcast :
      (f : ReplayRecorder → ReplayRecorder) (bytes : List ℕ) (g : GameActor)
      → IsKeyed g.players
      → ((send_all bytes (record_replay f g)).players
          ≡ map (note_sent g.game_loaded bytes) g.players)
        × ((send_all bytes (record_replay f g)).game_loaded ≡ g.game_loaded)
        × ((send_all bytes (record_replay f g)).latency_ms ≡ g.latency_ms)
  unfolding record_replay
  broadcast f bytes g keyed =
      let sent = send_all-players bytes (record_replay f g) keyed in
      (sent.0, sent.1, send_all-latency bytes (record_replay f g))

  pub send_chunks-players :
      (chunks : List (List IncomingAction)) (g : GameActor)
      → IsKeyed g.players
      → (send_chunks crc32 chunks g).players
        ≡ map (note_all g.game_loaded (beat_packets (as_u16 g.latency_ms) chunks)) g.players
  unfolding send_chunks beat_packets
  send_chunks-players [] g keyed = sym (map-note_none g.game_loaded g.players)
  send_chunks-players (chunk ∷ []) g keyed =
      (broadcast _ (send_w3gs_incoming_action crc32 chunk (as_u16 g.latency_ms)) g keyed).0
      ∙ sym (map-note_none g.game_loaded _)
      ∙ map-note_all g.game_loaded (send_w3gs_incoming_action crc32 chunk (as_u16 g.latency_ms)) []
          g.players
  send_chunks-players (chunk ∷ next ∷ chunks) g keyed =
      let bytes = send_w3gs_incoming_action2 crc32 chunk in
      let g' = send_all bytes (record_replay (add_time_slot2 (replay_actions chunk)) g) in
      let (players, loaded, latency) =
        broadcast (add_time_slot2 (replay_actions chunk)) bytes g keyed in
      let keyed' : IsKeyed g'.players = rw players (
        map-IsKeyed (note_sent g.game_loaded bytes) g.players (note_sent-pid g.game_loaded bytes)
          keyed) in
      send_chunks-players (next ∷ chunks) g' keyed'
      ∙ (λ i.
          map (note_all (loaded i) (beat_packets (as_u16 (latency i)) (next ∷ chunks))) (players i))
      ∙ map-note_all g.game_loaded bytes (beat_packets (as_u16 g.latency_ms) (next ∷ chunks))
          g.players
