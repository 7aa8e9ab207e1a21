-- ===== src/Game/Members.antt =====
-- src/game/actor.rs: the pids of a game over joins and leaves. The roster is what decides who is who: the
-- players' pids, and the virtual host's.
pub mod Leaves
pub mod Welcomes
pub mod Joins
mod Runs
use ghostpp_rs.Prelude.{
  ℕ, ◌≤◌, ◌≡◌, ◌≢◌, refl, sym, ap, ◌∙◌, ◌⊎◌, inl, inr, arith, Bool, true, false, ◌||◌, not, List,
  [], ◌∷◌, map, Option, none, some, ◌==◌, if◌then◌else◌, All, Bool-cases, Option-cases, if-either,
  if-true, if-false,
}
use ghostpp_rs.Core.GameProtocol.Send.{send_w3gs_playerleave_others}
use ghostpp_rs.Game.{LobbyPlayer, GameActor, GameEvent, player_left, Env, get_player}
use ghostpp_rs.Game.Hub.{pids_of, send_all, send_all_slot_info}
use ghostpp_rs.Game.Hub.Settled.{settle, settle_player, send_all-settle, send_all_slot_info-settle}
use ghostpp_rs.Game.Slots.{new_pid}
use ghostpp_rs.Game.Slots.Pids.{new_pid_cases}
use ghostpp_rs.Game.Chat.{send_all_chat}
use ghostpp_rs.Game.Chat.Settled.{send_all_chat-settle}
use ghostpp_rs.Game.VirtualHost.{create_virtual_host, with_virtual_host}
use ghostpp_rs.Game.Loading.{
  all_loaded, clear_checksums, announce_load_times, now_loaded, check_loading_complete,
}
use ghostpp_rs.Core.GameProtocol.Receive.{is_empty}
use ghostpp_rs.Game.Leave.{
  remove_from, taken_out, note_leave, update_lobby, abort_countdown, complete_loading, notify,
  tell_leave, remove_found, remove_player_with_reason,
}
use ghostpp_rs.Game.Leave.Kept.{note_leave-settle, announce_load_times-settle}

abbrev pub IsDistinct : List ℕ → Type 0
IsDistinct [] = Unit
IsDistinct (pid ∷ pids) = All (λ other. other ≢ pid) pids × IsDistinct pids

-- The players have different pids from 1 to 12, and none has the virtual host's.
pub record IsSound (pids : List ℕ) (host : ℕ) : Type 0 where
  pub distinct : IsDistinct pids
  pub in_range : All (λ pid. (1 ≤ pid) × (pid ≤ 12)) pids
  pub not_host : All (λ pid. pid ≢ host) pids

abbrev pub IsSoundGame : GameActor → Type 0
IsSoundGame g = IsSound (pids_of g.players) g.virtual_host_pid

-- Two games with one roster.
pub record IsSame (g h : GameActor) : Type 0 where
  pub pids : pids_of g.players ≡ pids_of h.players
  pub host : g.virtual_host_pid ≡ h.virtual_host_pid

pub IsSame-IsSound : (g h : GameActor) → IsSame g h → IsSoundGame h → IsSoundGame g
IsSame-IsSound g h e s = transported (pids_of g.players) g.virtual_host_pid e.pids e.host
  where
    transported :
        (pids : List ℕ) (host : ℕ)
        → pids ≡ pids_of h.players
        → host ≡ h.virtual_host_pid
        → IsSound pids host
    transported pids host a b = rw (a, b) s

pub IsSame-trans : (f g h : GameActor) → IsSame f g → IsSame g h → IsSame f h
IsSame-trans f g h a b = record { pids = a.pids ∙ b.pids; host = a.host ∙ b.host }

pids_of-settle :
    (players : List LobbyPlayer) → pids_of (map settle_player players) ≡ pids_of players
unfolding settle_player
pids_of-settle [] = refl
pids_of-settle (p ∷ players) = ap (λ (t : List ℕ). p.pid ∷ t) (pids_of-settle players)

pub settle-IsSame : (g h : GameActor) → settle g ≡ settle h → IsSame g h
unfolding settle
settle-IsSame g h e = record {
  pids =
      sym (pids_of-settle g.players)
      ∙ (ap (λ (x : GameActor). pids_of x.players) e ∙ pids_of-settle h.players);
  host = ap (λ (x : GameActor). x.virtual_host_pid) e;
}

pub pids_of-clear :
    (players : List LobbyPlayer) → pids_of (map clear_checksums players) ≡ pids_of players
pids_of-clear [] = refl
pids_of-clear (p ∷ players) = ap (λ (t : List ℕ). p.pid ∷ t) (pids_of-clear players)

pub pids-All :
    (host : ℕ) (players : List LobbyPlayer)
    → All (λ (p : LobbyPlayer). p.pid ≢ host) players
    → All (λ pid. pid ≢ host) (pids_of players)
pids-All host [] h = tt
pids-All host (p ∷ players) h = (h.0, pids-All host players h.1)

pub either-IsSound :
    (b : Bool) (x y : GameActor) → IsSoundGame x → IsSoundGame y → IsSoundGame (if b then x else y)
either-IsSound true x y hx hy = hx
either-IsSound false x y hx hy = hy

pub either-IsSame :
    (g : GameActor) (b : Bool) (x y : GameActor)
    → IsSame x g
    → IsSame y g
    → IsSame (if b then x else y) g
either-IsSame g true x y hx hy = hx
either-IsSame g false x y hx hy = hy

pub notify-IsSame : (event : GameEvent) (g : GameActor) → IsSame (notify event g) g
unfolding notify
notify-IsSame event g = record { pids = refl; host = refl }

pub IsSame-refl : (g : GameActor) → IsSame g g
IsSame-refl g = record { pids = refl; host = refl }
