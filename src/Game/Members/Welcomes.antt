-- ===== src/Game/Members/Welcomes.antt =====
-- src/game/actor.rs: the steps of a join that leave the roster as it is.
use ghostpp_rs.Prelude.{
  ℕ, ◌≤◌, ◌≢◌, refl, arith, not, List, [], ◌∷◌, Option, none, some, leb, ◌==◌, any, length, All,
}
use ghostpp_rs.Game.{LobbyPlayer, GameActor, Env}
use ghostpp_rs.Game.Hub.{pids_of}
use ghostpp_rs.Game.Hub.Settled.{send_all-settle}
use ghostpp_rs.Game.Chat.{send_all_chat, send_private_chat}
use ghostpp_rs.Game.Chat.Settled.{send_all_chat-settle, send_private_chat-settle}
use ghostpp_rs.Game.VirtualHost.{no_virtual_host, delete_virtual_host}
use ghostpp_rs.Game.Downloads.{is_downloading}
use ghostpp_rs.Game.Start.{start_countdown, is_ready, maybe_autostart}
use ghostpp_rs.Game.Reconnect.{send_direct}
use ghostpp_rs.Game.Join.{reject, show_players, welcome, tell_mute, make_room}
use ghostpp_rs.Game.Members.{
  IsSoundGame, IsSame, IsSame-IsSound, IsSame-trans, IsSame-refl, settle-IsSame, either-IsSound,
  either-IsSame,
}

send_direct-IsSame :
    (handle : ℕ) (bytes : List ℕ) (g : GameActor) → IsSame (send_direct handle bytes g) g
unfolding send_direct
send_direct-IsSame handle bytes g = record { pids = refl; host = refl }

pub reject-IsSound :
    (reason conn_id handle : ℕ) (g : GameActor)
    → IsSoundGame g
    → IsSoundGame (reject reason conn_id handle g)
unfolding reject send_direct
reject-IsSound reason conn_id handle g s = s

above_range :
    (pids : List ℕ) → All (λ pid. (1 ≤ pid) × (pid ≤ 12)) pids → All (λ pid. pid ≢ 255) pids
above_range [] h = tt
above_range (pid ∷ pids) h = (λ e. absurd (omega (arith, h.0, e)), above_range pids h.1)

pub make_room-IsSound : (g : GameActor) → IsSoundGame g → IsSoundGame (make_room g)
unfolding make_room delete_virtual_host
make_room-IsSound g s =
    either-IsSound (leb 11 (length g.players)) _ _
      (either-IsSound (g.virtual_host_pid == 255) _ _ s (
        IsSame-IsSound _ (no_virtual_host g)
          (settle-IsSame _ (no_virtual_host g) (send_all-settle _ (no_virtual_host g)))
          (record {
            distinct = s.distinct;
            in_range = s.in_range;
            not_host = above_range (pids_of g.players) s.in_range;
          })))
      s

show_players-IsSame :
    (handle : ℕ) (players : List LobbyPlayer) (g : GameActor)
    → IsSame (show_players handle players g) g
unfolding show_players
show_players-IsSame handle [] g = IsSame-refl g
show_players-IsSame handle (p ∷ players) g =
    IsSame-trans _ (send_direct handle _ g) g
      (show_players-IsSame handle players (send_direct handle _ g)) (send_direct-IsSame handle _ g)

pub welcome-IsSame : (handle pid : ℕ) (g : GameActor) → IsSame (welcome handle pid g) g
unfolding welcome
welcome-IsSame handle pid g =
    IsSame-trans _ (show_players handle g.players _) g (send_direct-IsSame handle _ _) (
      IsSame-trans _ _ g (show_players-IsSame handle g.players _) (
        either-IsSame g (not (g.virtual_host_pid == 255)) _ _
          (IsSame-trans _ (send_direct handle _ g) g (send_direct-IsSame handle _ _)
            (send_direct-IsSame handle _ g))
          (send_direct-IsSame handle _ g)))

pub tell_mute-IsSame :
    (env : Env) (pid : ℕ) (o : Option ℕ) (g : GameActor) → IsSame (tell_mute env pid o g) g
unfolding tell_mute
tell_mute-IsSame env pid none g = IsSame-refl g
tell_mute-IsSame env pid (some expires) g =
    settle-IsSame (send_private_chat pid _ g) g (send_private_chat-settle pid _ g)

start_countdown-IsSame : (env : Env) (g : GameActor) → IsSame (start_countdown env g) g
unfolding start_countdown
start_countdown-IsSame env g = either-IsSame g _ _ _ (IsSame-refl g) (
    either-IsSame g (any is_downloading g.players) _ _
      (settle-IsSame (send_all_chat _ g) g (send_all_chat-settle _ g))
      (record { pids = refl; host = refl }))

pub maybe_autostart-IsSame : (env : Env) (g : GameActor) → IsSame (maybe_autostart env g) g
unfolding maybe_autostart
maybe_autostart-IsSame env g = either-IsSame g _ _ _ (IsSame-refl g) (
    either-IsSame g (any (λ p. not (is_ready g p)) g.players) _ _ (IsSame-refl g) (
      IsSame-trans _ (send_all_chat _ g) g (start_countdown-IsSame env (send_all_chat _ g))
        (settle-IsSame (send_all_chat _ g) g (send_all_chat-settle _ g))))
