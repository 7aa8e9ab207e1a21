-- ===== src/Game/Batches.antt =====
-- src/game/actor.rs: send_all_actions, the beat that sends the queued actions to everyone, and
-- schedule_next_beat.
pub mod Slicing
pub mod Stream
pub mod Mixed
pub mod Wire
pub mod Placed
pub mod Handed
use mathlib.Core.Option
use ghostpp_rs.Prelude.{
  ℕ, zero, suc, ◌+◌, ◌%◌, ◌^◌, Bool, true, false, ◌&&◌, not, List, [], ◌∷◌, ◌++◌, map, Option, none,
  some, if◌then◌else◌, length, any, ltb, as_u16,
}
use ghostpp_rs.Core.GameProtocol.{IncomingAction}
use ghostpp_rs.Core.GameProtocol.Receive.{is_empty}
use ghostpp_rs.Core.GameProtocol.Send.{send_w3gs_incoming_action, send_w3gs_incoming_action2}
use ghostpp_rs.Core.Replay.{ReplayRecorder, add_time_slot, add_time_slot2}
use ghostpp_rs.Game.{LobbyPlayer, GameActor}
use ghostpp_rs.Game.Hub.{send_to_pid, send_all}

-- Whether the action `a` starts a new chunk.
unfoldable pub is_full : List IncomingAction → ℕ → IncomingAction → Bool
is_full last current_len a = ltb 1452 (current_len + (length a.action + 3)) && not (is_empty last)

-- The loop that cuts the queue, with the last chunk and its length.
unfoldable pub slice : List IncomingAction → List IncomingAction → ℕ → List (List IncomingAction)
slice [] last current_len = last ∷ []
slice (a ∷ queue) last current_len =
    let n = length a.action + 3 in
    let full = is_full last current_len a in
    let chunks =
      slice queue (if full then a ∷ [] else last ++ a ∷ []) (if full then n else current_len + n) in
    if full then last ∷ chunks else chunks

unfoldable pub chunks_of : List IncomingAction → List (List IncomingAction)
chunks_of queue = slice queue [] 0

abbrev pub replay_actions : List IncomingAction → List (ℕ × List ℕ)
replay_actions chunk = map (λ a. (a.pid, a.action)) chunk

unfoldable pub record_replay : (ReplayRecorder → ReplayRecorder) → GameActor → GameActor
record_replay f g = record g { replay = Option.map f g.replay }

unfoldable pub direct_pids : List LobbyPlayer → List ℕ
direct_pids [] = []
direct_pids (p ∷ players) =
    let rest = direct_pids players in if p.gproxy then rest else p.pid ∷ rest

unfoldable pub add_empty_slots : ℕ → ReplayRecorder → ReplayRecorder
add_empty_slots zero rep = rep
add_empty_slots (suc n) rep = add_empty_slots n (add_time_slot 0 [] rep)

-- crc32fast's checksum is the argument `crc32`.
module _ (crc32 : List ℕ → ℕ) where
  unfoldable pub send_empty_actions : ℕ → ℕ → GameActor → GameActor
  send_empty_actions zero pid g = g
  send_empty_actions (suc n) pid g =
      send_empty_actions n pid (send_to_pid pid (send_w3gs_incoming_action crc32 [] 0) g)

  unfoldable pub send_empty_to : ℕ → List ℕ → GameActor → GameActor
  send_empty_to n [] g = g
  send_empty_to n (pid ∷ pids) g = send_empty_to n pids (send_empty_actions n pid g)

  -- The empty actions that the host owes the players who are not behind GProxy++.
  unfoldable pub pay_empty_actions : GameActor → GameActor
  pay_empty_actions g =
      if any (λ p. p.gproxy) g.players
      then record_replay (add_empty_slots g.gproxy_empty_actions)
          (send_empty_to g.gproxy_empty_actions (direct_pids g.players) g)
      else g

  -- The last chunk goes out as INCOMING_ACTION, those before it as INCOMING_ACTION2.
  unfoldable pub send_chunks : List (List IncomingAction) → GameActor → GameActor
  send_chunks [] g = g
  send_chunks (chunk ∷ []) g =
      send_all (send_w3gs_incoming_action crc32 chunk (as_u16 g.latency_ms))
        (record_replay (add_time_slot (as_u16 g.latency_ms) (replay_actions chunk)) g)
  send_chunks (chunk ∷ next ∷ chunks) g = send_chunks (next ∷ chunks) (
      send_all (send_w3gs_incoming_action2 crc32 chunk)
        (record_replay (add_time_slot2 (replay_actions chunk)) g))

  unfoldable pub send_all_actions : GameActor → GameActor
  send_all_actions g =
      let g' = pay_empty_actions g in
      send_chunks (chunks_of g.actions)
        (record g' { sync_counter = (g'.sync_counter + 1) % 2 ^ 32; actions = [] })

-- The instants and the latency are numbers of nanoseconds.
unfoldable pub schedule_next_beat : ℕ → ℕ → ℕ → ℕ
schedule_next_beat scheduled now latency =
    let next = scheduled + latency in if ltb next now then now + latency else next
