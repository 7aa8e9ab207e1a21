-- ===== src/Game/Hub/Settled.antt =====
-- src/game/actor.rs: what stays as it is whatever is sent. `settle` forgets what a packet that goes
-- out touches: the players' counters and replay buffers, their connections, the list of pending drops
-- and the replay.
use ghostpp_rs.Prelude.{
  ℕ, ◌≡◌, refl, ap, ◌∙◌, Bool, List, [], ◌∷◌, map, Option, none, some, inl, inr, Bool-cases, ◌==◌,
}
use ghostpp_rs.Core.Replay.{ReplayRecorder}
use ghostpp_rs.Net.Conn.{opened}
use ghostpp_rs.Game.{LobbyPlayer, GameActor, get_player, update_player}
use ghostpp_rs.Game.Hub.{
  note_sent, hand_over, deliver, send_to_pid, send_to_pids, pids_of, send_all, send_all_slot_info,
}
use ghostpp_rs.Game.Batches.{record_replay}

unfoldable pub settle_player : LobbyPlayer → LobbyPlayer
settle_player p = record p { total_sent = 0; gproxy_buffer = []; gproxy_buffer_bytes = 0 }

unfoldable pub settle : GameActor → GameActor
settle g = record g {
  players = map settle_player g.players;
  links = opened;
  pending_drop = [];
  replay = none;
}

note_sent-settle :
    (loaded : Bool) (bytes : List ℕ) (p : LobbyPlayer)
    → settle_player (note_sent loaded bytes p) ≡ settle_player p
unfolding settle_player note_sent
note_sent-settle loaded bytes p = refl

update_player-settle :
    (loaded : Bool) (bytes : List ℕ) (pid : ℕ) (players : List LobbyPlayer)
    → map settle_player (update_player pid (note_sent loaded bytes) players)
      ≡ map settle_player players
unfolding update_player
update_player-settle loaded bytes pid [] = refl
update_player-settle loaded bytes pid (p ∷ players) =
    let rest = update_player-settle loaded bytes pid players in
    elim (Bool-cases (p.pid == pid)) [
      | inl same ↦ rw (same, note_sent-settle loaded bytes p, rest) refl
      | inr other ↦ rw (other, rest) refl
    ]

deliver-settle :
    (o : Option LobbyPlayer) (bytes : List ℕ) (g : GameActor)
    → settle (deliver o bytes g) ≡ settle g
unfolding settle deliver hand_over
deliver-settle none bytes g = refl
deliver-settle (some p) bytes g = elim (Bool-cases p.gproxy_disconnected) [
  | inl gone ↦ rw gone refl
  | inr not_yet ↦ rw not_yet refl
]

pub send_to_pid-settle :
    (pid : ℕ) (bytes : List ℕ) (g : GameActor) → settle (send_to_pid pid bytes g) ≡ settle g
unfolding send_to_pid
send_to_pid-settle pid bytes g =
    deliver-settle (get_player pid g.players) bytes counted ∙ (unfold settle in same)
  where
    counted : GameActor
    counted = record g { players = update_player pid (note_sent g.game_loaded bytes) g.players }

    same : settle counted ≡ settle g
    same =
        unfold settle in
        ap
          (λ (ps : List LobbyPlayer). record g {
            players = ps;
            links = opened;
            pending_drop = [];
            replay = none;
          })
          (update_player-settle g.game_loaded bytes pid g.players)

pub send_to_pids-settle :
    (pids bytes : List ℕ) (g : GameActor) → settle (send_to_pids pids bytes g) ≡ settle g
unfolding send_to_pids
send_to_pids-settle [] bytes g = refl
send_to_pids-settle (pid ∷ pids) bytes g =
    send_to_pids-settle pids bytes (send_to_pid pid bytes g) ∙ send_to_pid-settle pid bytes g

pub send_all-settle : (bytes : List ℕ) (g : GameActor) → settle (send_all bytes g) ≡ settle g
unfolding send_all
send_all-settle bytes g = send_to_pids-settle (pids_of g.players) bytes g

pub send_all_slot_info-settle : (g : GameActor) → settle (send_all_slot_info g) ≡ settle g
unfolding send_all_slot_info
send_all_slot_info-settle g = send_all-settle _ g

pub record_replay-settle :
    (f : ReplayRecorder → ReplayRecorder) (g : GameActor) → settle (record_replay f g) ≡ settle g
unfolding settle record_replay
record_replay-settle f g = refl
