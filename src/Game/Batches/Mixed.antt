-- ===== src/Game/Batches/Mixed.antt =====
-- src/game/actor.rs: a beat of send_all_actions in a lobby where only some players are behind GProxy++.
use ghostpp_rs.Prelude.{
  ℕ, zero, suc, ◌+◌, ◌%◌, ◌^◌, ◌≡◌, ◌≢◌, refl, sym, ap, ◌∙◌, Bool, true, false, ◌&&◌, not, List, [],
  ◌∷◌, ◌++◌, map, if◌then◌else◌, All, arith, as_u16, any, replicate, Bool-cases, eq-cases, inl, inr,
}
use ghostpp_rs.Core.GameProtocol.Send.{send_w3gs_incoming_action}
use ghostpp_rs.Game.{LobbyPlayer, GameActor, update_player}
use ghostpp_rs.Game.Hub.{note_sent, send_to_pid}
use ghostpp_rs.Game.Hub.Delivery.{
  IsKeyed, send_to_pid-players, send_to_pid-latency, map-IsKeyed, note_sent-pid, update_all,
  update_player-head, update_all-skips,
}
use ghostpp_rs.Game.Batches.{
  chunks_of, send_all_actions, pay_empty_actions, send_empty_actions, send_empty_to, direct_pids,
  record_replay,
}
use ghostpp_rs.Game.Batches.Stream.{note_all, beat_packets, send_chunks-players}

note_all-pid :
    (game_loaded : Bool) (packets : List (List ℕ)) (p : LobbyPlayer)
    → (note_all game_loaded packets p).pid ≡ p.pid
unfolding note_all
note_all-pid game_loaded [] p = refl
note_all-pid game_loaded (bytes ∷ packets) p =
    note_all-pid game_loaded packets (note_sent game_loaded bytes p)
    ∙ note_sent-pid game_loaded bytes p

note_all-append :
    (game_loaded : Bool) (xs ys : List (List ℕ)) (p : LobbyPlayer)
    → note_all game_loaded ys (note_all game_loaded xs p) ≡ note_all game_loaded (xs ++ ys) p
unfolding note_all
note_all-append game_loaded [] ys p = refl
note_all-append game_loaded (bytes ∷ xs) ys p =
    note_all-append game_loaded xs ys (note_sent game_loaded bytes p)

update_player-unchanged :
    (game_loaded : Bool) (pid : ℕ) (players : List LobbyPlayer)
    → update_player pid (note_all game_loaded []) players ≡ players
unfolding update_player note_all
update_player-unchanged game_loaded pid [] = refl
update_player-unchanged game_loaded pid (p ∷ players) =
    ground (arith, update_player-unchanged game_loaded pid players)

update_player-hit :
    (f : LobbyPlayer → LobbyPlayer) (pid : ℕ) (p : LobbyPlayer) (players : List LobbyPlayer)
    → p.pid ≡ pid
    → update_player pid f (p ∷ players) ≡ f p ∷ update_player pid f players
unfolding update_player
update_player-hit f pid p players h = ground arith

update_player-miss :
    (f : LobbyPlayer → LobbyPlayer) (pid : ℕ) (p : LobbyPlayer) (players : List LobbyPlayer)
    → p.pid ≢ pid
    → update_player pid f (p ∷ players) ≡ p ∷ update_player pid f players
unfolding update_player
update_player-miss f pid p players h = ground arith

update_player-twice :
    (game_loaded : Bool) (pid : ℕ) (bytes : List ℕ) (packets : List (List ℕ))
    (players : List LobbyPlayer)
    → update_player pid
        (note_all game_loaded packets)
        (update_player pid (note_sent game_loaded bytes) players)
      ≡ update_player pid (note_all game_loaded (bytes ∷ packets)) players
unfolding note_all
update_player-twice game_loaded pid bytes packets [] = unfold update_player in refl
update_player-twice game_loaded pid bytes packets (p ∷ players) =
    let f = note_sent game_loaded bytes in
    let f' = note_all game_loaded packets in
    let both = note_all game_loaded (bytes ∷ packets) in
    let rest = update_player-twice game_loaded pid bytes packets players in
    elim (eq-cases p.pid pid) [
      | inl e ↦
          ap (update_player pid f') (update_player-hit f pid p players e)
          ∙ update_player-hit f' pid (f p) (update_player pid f players)
              (note_sent-pid game_loaded bytes p ∙ e)
          ∙ ap (λ (t : List LobbyPlayer). both p ∷ t) rest
          ∙ sym (update_player-hit both pid p players e)
      | inr e ↦
          ap (update_player pid f') (update_player-miss f pid p players e)
          ∙ update_player-miss f' pid p (update_player pid f players) e
          ∙ ap (λ (t : List LobbyPlayer). p ∷ t) rest
          ∙ sym (update_player-miss both pid p players e)
    ]

-- The players who are not behind GProxy++, changed one by one.
direct_pids-All :
    (pid : ℕ) (players : List LobbyPlayer)
    → All (λ (q : LobbyPlayer). q.pid ≢ pid) players
    → All (λ other. other ≢ pid) (direct_pids players)
unfolding direct_pids
direct_pids-All pid [] h = tt
direct_pids-All pid (p ∷ players) h = elim (Bool-cases p.gproxy) [
  | inl proxied ↦ rw proxied (direct_pids-All pid players h.1)
  | inr direct ↦ rw direct (h.0, direct_pids-All pid players h.1)
]

update_all-direct :
    (f : LobbyPlayer → LobbyPlayer) (players : List LobbyPlayer)
    → ((p : LobbyPlayer) → (f p).pid ≡ p.pid)
    → IsKeyed players
    → update_all f (direct_pids players) players ≡ map (λ p. if p.gproxy then p else f p) players
unfolding direct_pids update_all
update_all-direct f [] same h = refl
update_all-direct f (p ∷ players) same (fresh, keyed) = elim (Bool-cases p.gproxy) [
  | inl proxied ↦ simp proxied (
      update_all-skips f (direct_pids players) p players (direct_pids-All p.pid players fresh)
      ∙ ap (λ (t : List LobbyPlayer). p ∷ t) (update_all-direct f players same keyed))
  | inr direct ↦ simp direct (
      ap (update_all f (direct_pids players)) (update_player-head f p players fresh)
      ∙ update_all-skips f (direct_pids players) (f p) players
          (rw (same p) (direct_pids-All p.pid players fresh))
      ∙ ap (λ (t : List LobbyPlayer). f p ∷ t) (update_all-direct f players same keyed))
]

module _ (crc32 : List ℕ → ℕ) where
  -- The empty actions that a beat owes a player, `n` of them if the lobby is mixed and the player is not
  -- behind GProxy++.
  unfoldable pub owed : ℕ → Bool → LobbyPlayer → List (List ℕ)
  owed n mixed p =
      if mixed && not p.gproxy then replicate n (send_w3gs_incoming_action crc32 [] 0) else []

  send_empty_actions-players :
      (n pid : ℕ) (g : GameActor)
      → ((send_empty_actions crc32 n pid g).players
          ≡ update_player pid
              (note_all g.game_loaded (replicate n (send_w3gs_incoming_action crc32 [] 0)))
              g.players)
        × ((send_empty_actions crc32 n pid g).game_loaded ≡ g.game_loaded)
        × ((send_empty_actions crc32 n pid g).latency_ms ≡ g.latency_ms)
  unfolding send_empty_actions
  send_empty_actions-players zero pid g =
      (sym (update_player-unchanged g.game_loaded pid g.players), refl, refl)
  send_empty_actions-players (suc n) pid g =
      let bytes = send_w3gs_incoming_action crc32 [] 0 in
      let g' = send_to_pid pid bytes g in
      let (players, loaded) = send_to_pid-players pid bytes g in
      let (players', loaded', latency') = send_empty_actions-players n pid g' in
      (
        players'
            ∙ (λ i. update_player pid (note_all (loaded i) (replicate n bytes)) (players i))
            ∙ update_player-twice g.game_loaded pid bytes (replicate n bytes) g.players,
        loaded' ∙ loaded,
        latency' ∙ send_to_pid-latency pid bytes g,
      )

  send_empty_to-players :
      (n : ℕ) (pids : List ℕ) (g : GameActor)
      → ((send_empty_to crc32 n pids g).players
          ≡ update_all
              (note_all g.game_loaded (replicate n (send_w3gs_incoming_action crc32 [] 0)))
              pids
              g.players)
        × ((send_empty_to crc32 n pids g).game_loaded ≡ g.game_loaded)
        × ((send_empty_to crc32 n pids g).latency_ms ≡ g.latency_ms)
  unfolding send_empty_to update_all
  send_empty_to-players n [] g = (refl, refl, refl)
  send_empty_to-players n (pid ∷ pids) g =
      let bytes = send_w3gs_incoming_action crc32 [] 0 in
      let (players, loaded, latency) = send_empty_actions-players n pid g in
      let (players', loaded', latency') =
        send_empty_to-players n pids (send_empty_actions crc32 n pid g) in
      (
        players' ∙ (λ i. update_all (note_all (loaded i) (replicate n bytes)) pids (players i)),
        loaded' ∙ loaded,
        latency' ∙ latency,
      )

  note_owed :
      (game_loaded : Bool) (n : ℕ) (p : LobbyPlayer)
      → (if p.gproxy
          then p
          else note_all game_loaded (replicate n (send_w3gs_incoming_action crc32 [] 0)) p)
        ≡ note_all game_loaded (owed n true p) p
  unfolding owed note_all
  note_owed game_loaded n p = elim (Bool-cases p.gproxy) [
    | inl proxied ↦ simp proxied refl
    | inr direct ↦ simp direct refl
  ]

  map-owed-mixed :
      (game_loaded : Bool) (n : ℕ) (players : List LobbyPlayer)
      → map
          (λ p.
            if p.gproxy
            then p
            else note_all game_loaded (replicate n (send_w3gs_incoming_action crc32 [] 0)) p)
          players
        ≡ map (λ p. note_all game_loaded (owed n true p) p) players
  unfolding owed
  map-owed-mixed game_loaded n [] = refl
  map-owed-mixed game_loaded n (p ∷ players) =
      λ i. note_owed game_loaded n p i ∷ map-owed-mixed game_loaded n players i

  map-owed-direct :
      (game_loaded : Bool) (n : ℕ) (players : List LobbyPlayer)
      → players ≡ map (λ p. note_all game_loaded (owed n false p) p) players
  unfolding owed note_all
  map-owed-direct game_loaded n [] = refl
  map-owed-direct game_loaded n (p ∷ players) =
      ap (λ (t : List LobbyPlayer). p ∷ t) (map-owed-direct game_loaded n players)

  pay_empty_actions-players :
      (g : GameActor)
      → IsKeyed g.players
      → ((pay_empty_actions crc32 g).players
          ≡ map
              (λ p.
                note_all g.game_loaded
                  (owed g.gproxy_empty_actions (any (λ q. q.gproxy) g.players) p)
                  p)
              g.players)
        × ((pay_empty_actions crc32 g).game_loaded ≡ g.game_loaded)
        × ((pay_empty_actions crc32 g).latency_ms ≡ g.latency_ms)
  unfolding pay_empty_actions record_replay
  pay_empty_actions-players g keyed = elim (Bool-cases (any (λ p. p.gproxy) g.players)) [
    | inl mixed ↦
        let n = g.gproxy_empty_actions in
        let owing = note_all g.game_loaded (replicate n (send_w3gs_incoming_action crc32 [] 0)) in
        let (players, loaded, latency) = send_empty_to-players n (direct_pids g.players) g in
        simp mixed (
          players
              ∙ update_all-direct owing g.players (note_all-pid g.game_loaded _) keyed
              ∙ map-owed-mixed g.game_loaded n g.players,
          loaded,
          latency,
        )
    | inr direct ↦
        simp direct (map-owed-direct g.game_loaded g.gproxy_empty_actions g.players, refl, refl)
  ]

  map-note_all :
      (game_loaded : Bool) (before : LobbyPlayer → List (List ℕ)) (packets : List (List ℕ))
      (players : List LobbyPlayer)
      → map (note_all game_loaded packets) (map (λ p. note_all game_loaded (before p) p) players)
        ≡ map (λ p. note_all game_loaded (before p ++ packets) p) players
  map-note_all game_loaded before packets [] = refl
  map-note_all game_loaded before packets (p ∷ players) = λ i.
      note_all-append game_loaded (before p) packets p i
      ∷ map-note_all game_loaded before packets players i

  -- With distinct pids, each beat counts the same stream of packets for every player: the empty actions that the player is
  -- owed, and then the chunks of the queue, in order. Players who are behind GProxy++ are owed none;
  -- the others are owed `gproxy_empty_actions` of them as soon as one player is behind GProxy++.
  pub send_all_actions-players :
      (g : GameActor)
      → IsKeyed g.players
      → (send_all_actions crc32 g).players
        ≡ map
            (λ p.
              note_all g.game_loaded
                (owed g.gproxy_empty_actions (any (λ q. q.gproxy) g.players) p
                  ++ beat_packets crc32 (as_u16 g.latency_ms) (chunks_of g.actions))
                p)
            g.players
  unfolding send_all_actions
  send_all_actions-players g keyed =
      let mixed = any (λ p. p.gproxy) g.players in
      let before = owed g.gproxy_empty_actions mixed in
      let g' = pay_empty_actions crc32 g in
      let (players, loaded, latency) = pay_empty_actions-players g keyed in
      let keyed' : IsKeyed g'.players = rw players (
        map-IsKeyed (λ p. note_all g.game_loaded (before p) p) g.players
          (λ p. note_all-pid g.game_loaded (before p) p) keyed) in
      send_chunks-players crc32 (chunks_of g.actions)
        (record g' { sync_counter = (g'.sync_counter + 1) % 2 ^ 32; actions = [] }) keyed'
      ∙ (λ i.
          map (note_all (loaded i) (beat_packets crc32 (as_u16 (latency i)) (chunks_of g.actions)))
            (players i))
      ∙ map-note_all g.game_loaded before
          (beat_packets crc32 (as_u16 g.latency_ms) (chunks_of g.actions)) g.players
