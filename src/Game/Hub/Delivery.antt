-- ===== src/Game/Hub/Delivery.antt =====
-- src/game/actor.rs: what send_to_pid and the broadcasts do to each player.
use ghostpp_rs.Prelude.{
  ℕ, ◌≡◌, ◌≢◌, refl, sym, ap, ◌∙◌, Bool, List, [], ◌∷◌, map, Option, none, some, All, arith, inl,
  inr, Bool-cases,
}
use ghostpp_rs.Game.{LobbyPlayer, GameActor, get_player, update_player}
use ghostpp_rs.Game.Hub.{
  note_sent, hand_over, deliver, send_to_pid, send_to_pids, pids_of, send_all, send_all_slot_info,
}

-- No two players have one pid: the keys of a map.
abbrev pub IsKeyed : List LobbyPlayer → Type 0
IsKeyed [] = Unit
IsKeyed (p ∷ players) = All (λ (q : LobbyPlayer). q.pid ≢ p.pid) players × IsKeyed players

-- What does not change, whatever is sent.
deliver-keeps :
    (o : Option LobbyPlayer) (bytes : List ℕ) (g : GameActor)
    → ((deliver o bytes g).players ≡ g.players) × ((deliver o bytes g).game_loaded ≡ g.game_loaded)
unfolding deliver hand_over
deliver-keeps none bytes g = (refl, refl)
deliver-keeps (some p) bytes g = elim (Bool-cases p.gproxy_disconnected) [
  | inl gone ↦ rw gone (refl, refl)
  | inr not_yet ↦ rw not_yet (refl, refl)
]

pub send_to_pid-players :
    (pid : ℕ) (bytes : List ℕ) (g : GameActor)
    → ((send_to_pid pid bytes g).players
        ≡ update_player pid (note_sent g.game_loaded bytes) g.players)
      × ((send_to_pid pid bytes g).game_loaded ≡ g.game_loaded)
unfolding send_to_pid
send_to_pid-players pid bytes g =
    deliver-keeps (get_player pid g.players) bytes
      (record g { players = update_player pid (note_sent g.game_loaded bytes) g.players })

pub note_sent-pid :
    (game_loaded : Bool) (bytes : List ℕ) (p : LobbyPlayer)
    → (note_sent game_loaded bytes p).pid ≡ p.pid
unfolding note_sent
note_sent-pid game_loaded bytes p = refl

-- Changes of several players by their pids, with a change that keeps the pid.
module _ (f : LobbyPlayer → LobbyPlayer) where
  unfoldable pub update_all : List ℕ → List LobbyPlayer → List LobbyPlayer
  update_all [] players = players
  update_all (pid ∷ pids) players = update_all pids (update_player pid f players)

  update_player-none :
      (pid : ℕ) (players : List LobbyPlayer)
      → All (λ (q : LobbyPlayer). q.pid ≢ pid) players
      → update_player pid f players ≡ players
  unfolding update_player
  update_player-none pid [] h = refl
  update_player-none pid (p ∷ players) h = ground (arith, update_player-none pid players h.1)

  pub update_player-head :
      (p : LobbyPlayer) (players : List LobbyPlayer)
      → All (λ (q : LobbyPlayer). q.pid ≢ p.pid) players
      → update_player p.pid f (p ∷ players) ≡ f p ∷ players
  unfolding update_player
  update_player-head p players fresh = ground (arith, update_player-none p.pid players fresh)

  pub update_all-skips :
      (pids : List ℕ) (q : LobbyPlayer) (players : List LobbyPlayer)
      → All (λ pid. pid ≢ q.pid) pids
      → update_all pids (q ∷ players) ≡ q ∷ update_all pids players
  unfolding update_all update_player
  update_all-skips [] q players h = refl
  update_all-skips (pid ∷ pids) q players h =
      ground (arith, update_all-skips pids q (update_player pid f players) h.1)

  All-pids_of :
      (pid : ℕ) (players : List LobbyPlayer)
      → All (λ (q : LobbyPlayer). q.pid ≢ pid) players
      → All (λ other. other ≢ pid) (pids_of players)
  All-pids_of pid [] h = tt
  All-pids_of pid (p ∷ players) h = (h.0, All-pids_of pid players h.1)

  update_all-keyed :
      (players : List LobbyPlayer)
      → ((p : LobbyPlayer) → (f p).pid ≡ p.pid)
      → IsKeyed players
      → update_all (pids_of players) players ≡ map f players
  update_all-keyed [] same h = unfold update_all in refl
  update_all-keyed (p ∷ players) same (fresh, keyed) =
      first
      ∙ update_all-skips (pids_of players) (f p) players
          (rw (same p) (All-pids_of p.pid players fresh))
      ∙ ap (λ (t : List LobbyPlayer). f p ∷ t) (update_all-keyed players same keyed)
    where
      first :
          update_all (pids_of (p ∷ players)) (p ∷ players)
          ≡ update_all (pids_of players) (f p ∷ players)
      first =
          unfold update_all in
          ap (update_all (pids_of players)) (update_player-head p players fresh)

send_to_pids-players :
    (pids bytes : List ℕ) (g : GameActor)
    → ((send_to_pids pids bytes g).players
        ≡ update_all (note_sent g.game_loaded bytes) pids g.players)
      × ((send_to_pids pids bytes g).game_loaded ≡ g.game_loaded)
unfolding send_to_pids update_all
send_to_pids-players [] bytes g = (refl, refl)
send_to_pids-players (pid ∷ pids) bytes g =
    let here = send_to_pid-players pid bytes g in
    let rest = send_to_pids-players pids bytes (send_to_pid pid bytes g) in
    (rest.0 ∙ (λ i. update_all (note_sent (here.1 i) bytes) pids (here.0 i)), rest.1 ∙ here.1)

-- A broadcast reaches every player exactly once: each counts it as sent, and each GProxy++ player's
-- replay buffer takes it once the game has loaded, in whatever state the player's connection is.
pub send_all-players :
    (bytes : List ℕ) (g : GameActor)
    → IsKeyed g.players
    → ((send_all bytes g).players ≡ map (note_sent g.game_loaded bytes) g.players)
      × ((send_all bytes g).game_loaded ≡ g.game_loaded)
unfolding send_all
send_all-players bytes g keyed =
    let sent = send_to_pids-players (pids_of g.players) bytes g in
    (
      sent.0
          ∙ update_all-keyed (note_sent g.game_loaded bytes) g.players
              (note_sent-pid g.game_loaded bytes) keyed,
      sent.1,
    )

deliver-latency :
    (o : Option LobbyPlayer) (bytes : List ℕ) (g : GameActor)
    → (deliver o bytes g).latency_ms ≡ g.latency_ms
unfolding deliver hand_over
deliver-latency none bytes g = refl
deliver-latency (some p) bytes g = elim (Bool-cases p.gproxy_disconnected) [
  | inl gone ↦ rw gone refl
  | inr not_yet ↦ rw not_yet refl
]

send_to_pids-latency :
    (pids bytes : List ℕ) (g : GameActor) → (send_to_pids pids bytes g).latency_ms ≡ g.latency_ms
unfolding send_to_pids send_to_pid
send_to_pids-latency [] bytes g = refl
send_to_pids-latency (pid ∷ pids) bytes g =
    send_to_pids-latency pids bytes (send_to_pid pid bytes g)
    ∙ deliver-latency (get_player pid g.players) bytes
        (record g { players = update_player pid (note_sent g.game_loaded bytes) g.players })

pub send_to_pid-latency :
    (pid : ℕ) (bytes : List ℕ) (g : GameActor) → (send_to_pid pid bytes g).latency_ms ≡ g.latency_ms
unfolding send_to_pid
send_to_pid-latency pid bytes g =
    deliver-latency (get_player pid g.players) bytes
      (record g { players = update_player pid (note_sent g.game_loaded bytes) g.players })

pub send_all-latency :
    (bytes : List ℕ) (g : GameActor) → (send_all bytes g).latency_ms ≡ g.latency_ms
unfolding send_all
send_all-latency bytes g = send_to_pids-latency (pids_of g.players) bytes g

pub map-IsKeyed :
    (f : LobbyPlayer → LobbyPlayer) (players : List LobbyPlayer)
    → ((p : LobbyPlayer) → (f p).pid ≡ p.pid)
    → IsKeyed players
    → IsKeyed (map f players)
map-IsKeyed f [] same h = tt
map-IsKeyed f (p ∷ players) same (fresh, keyed) =
    (still p.pid (f p).pid (same p) players fresh, map-IsKeyed f players same keyed)
  where
    still :
        (pid pid' : ℕ)
        → pid' ≡ pid
        → (qs : List LobbyPlayer) → All (λ (q : LobbyPlayer). q.pid ≢ pid) qs
        → All (λ (q : LobbyPlayer). q.pid ≢ pid') (map f qs)
    still pid pid' e [] h = tt
    still pid pid' e (q ∷ qs) h = (λ eq. h.0 (sym (same q) ∙ eq ∙ e), still pid pid' e qs h.1)

deliver-slots :
    (o : Option LobbyPlayer) (bytes : List ℕ) (g : GameActor) → (deliver o bytes g).slots ≡ g.slots
unfolding deliver hand_over
deliver-slots none bytes g = refl
deliver-slots (some p) bytes g = elim (Bool-cases p.gproxy_disconnected) [
  | inl gone ↦ rw gone refl
  | inr not_yet ↦ rw not_yet refl
]

send_to_pids-slots :
    (pids bytes : List ℕ) (g : GameActor) → (send_to_pids pids bytes g).slots ≡ g.slots
unfolding send_to_pids send_to_pid
send_to_pids-slots [] bytes g = refl
send_to_pids-slots (pid ∷ pids) bytes g =
    send_to_pids-slots pids bytes (send_to_pid pid bytes g)
    ∙ deliver-slots (get_player pid g.players) bytes
        (record g { players = update_player pid (note_sent g.game_loaded bytes) g.players })

pub send_all_slot_info-slots : (g : GameActor) → (send_all_slot_info g).slots ≡ g.slots
unfolding send_all_slot_info send_all
send_all_slot_info-slots g = send_to_pids-slots (pids_of g.players) _ g
