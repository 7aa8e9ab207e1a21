-- ===== src/Game/Members/Joins.antt =====
-- src/game/actor.rs: who is in the game after joins and leaves (handle_join, remove_player_with_reason).
use ghostpp_rs.Prelude.{
  ℕ, ◌≤◌, ◌≡◌, ◌≢◌, refl, sym, ap, ◌∙◌, inl, inr, Bool, List, [], ◌∷◌, ◌++◌, Option, none, some,
  All, All-append,
}
use ghostpp_rs.Core.GameProtocol.{IncomingJoinPlayer, rejectjoin_full, rejectjoin_started}
use ghostpp_rs.Core.GameProtocol.Receive.{receive_w3gs_reqjoin}
use ghostpp_rs.Core.GameProtocol.Send.{send_w3gs_playerinfo}
use ghostpp_rs.Game.{LobbyPlayer, GameActor, Env, player_joined}
use ghostpp_rs.Game.Hub.{pids_of, send_to_others, send_all_slot_info}
use ghostpp_rs.Game.Hub.Settled.{send_to_pids-settle, send_all_slot_info-settle}
use ghostpp_rs.Game.Slots.{empty_slot, new_pid}
use ghostpp_rs.Game.Slots.Pids.{new_pid_cases}
use ghostpp_rs.Game.Leave.{notify, remove_player_with_reason}
use ghostpp_rs.Game.Reconnect.{lookup}
use ghostpp_rs.Game.Join.{
  addr_bytes, Joining, pre_sent, new_player, occupy, welcome, tell_mute, insert_player, seat,
  seat_or_reject, make_room, take_slot, join_as, join_on, handle_join,
}
use ghostpp_rs.Game.Members.{
  IsDistinct, IsSound, IsSoundGame, IsSame, IsSame-IsSound, IsSame-trans, settle-IsSame,
  either-IsSound, notify-IsSame, pids-All,
}
use ghostpp_rs.Game.Members.Leaves.{remove_player-IsSound}
use ghostpp_rs.Game.Members.Welcomes.{
  reject-IsSound, make_room-IsSound, welcome-IsSame, tell_mute-IsSame, maybe_autostart-IsSame,
}

IsDistinct-append :
    (pids : List ℕ) (pid : ℕ)
    → IsDistinct pids
    → All (λ other. other ≢ pid) pids
    → IsDistinct (pids ++ pid ∷ [])
IsDistinct-append [] pid h free = (tt, tt)
IsDistinct-append (x ∷ pids) pid h free = (
  All-append (λ other. other ≢ x) pids (pid ∷ []) h.0 (λ e. free.0 (sym e), tt),
  IsDistinct-append pids pid h.1 free.1,
)

pids_of-append :
    (players : List LobbyPlayer) (p : LobbyPlayer)
    → pids_of (players ++ p ∷ []) ≡ pids_of players ++ p.pid ∷ []
pids_of-append [] p = refl
pids_of-append (q ∷ players) p = ap (λ (t : List ℕ). q.pid ∷ t) (pids_of-append players p)

-- A pid from 1 to 12 that nobody has joins the others.
joined-IsSound :
    (players : List LobbyPlayer) (host : ℕ) (p : LobbyPlayer)
    → (1 ≤ p.pid) × (p.pid ≤ 12)
    → p.pid ≢ host
    → All (λ other. other ≢ p.pid) (pids_of players)
    → IsSound (pids_of players) host
    → IsSound (pids_of (players ++ p ∷ [])) host
joined-IsSound players host p range other free s = rw (pids_of-append players p) (record {
  distinct = IsDistinct-append (pids_of players) p.pid s.distinct free;
  in_range =
      All-append (λ pid. (1 ≤ pid) × (pid ≤ 12)) (pids_of players) (p.pid ∷ []) s.in_range
        (range, tt);
  not_host = All-append (λ pid. pid ≢ host) (pids_of players) (p.pid ∷ []) s.not_host (other, tt);
})

-- The joiner has been welcomed and is among the players.
inserted : Joining → ℕ → ℕ → GameActor → GameActor
inserted j sid pid g =
    insert_player j pid (pre_sent g) (addr_bytes (g.peers j.handle) g.hide_ip).0
      (welcome j.handle pid (occupy sid pid g))

inserted-IsSound :
    (j : Joining) (sid pid : ℕ) (g : GameActor)
    → (1 ≤ pid) × (pid ≤ 12)
    → pid ≢ g.virtual_host_pid
    → All (λ other. other ≢ pid) (pids_of g.players)
    → IsSoundGame g
    → IsSoundGame (inserted j sid pid g)
unfolding inserted insert_player new_player
inserted-IsSound j sid pid g range other free s =
    joined-IsSound welcomed.players welcomed.virtual_host_pid
      (new_player j pid (pre_sent g) (addr_bytes (g.peers j.handle) g.hide_ip).0
        (welcomed.peers j.handle))
      range (λ e. other (e ∙ same.host)) (along (pids_of welcomed.players) same.pids)
      (IsSame-IsSound welcomed g same s)
  where
    welcomed : GameActor
    welcomed = welcome j.handle pid (occupy sid pid g)

    same : IsSame welcomed g
    same =
        IsSame-trans welcomed (occupy sid pid g) g (welcome-IsSame j.handle pid (occupy sid pid g))
          (unfold occupy in record { pids = refl; host = refl })

    along : (pids : List ℕ) → pids ≡ pids_of g.players → All (λ other. other ≢ pid) pids
    along pids e = rw e free

seat-IsSame :
    (env : Env) (j : Joining) (sid pid : ℕ) (g : GameActor)
    → IsSame (seat env j sid pid g) (inserted j sid pid g)
unfolding seat inserted send_to_others
seat-IsSame env j sid pid g = IsSame-trans _ noted joined (maybe_autostart-IsSame env noted) (
    IsSame-trans noted muted joined (notify-IsSame (player_joined j.name) muted) (
      IsSame-trans muted shown joined (tell_mute-IsSame env pid j.muted shown) (
        settle-IsSame shown joined
          (send_all_slot_info-settle told ∙ send_to_pids-settle _ info joined))))
  where
    external_ip : List ℕ
    external_ip = (addr_bytes (g.peers j.handle) g.hide_ip).0

    info : List ℕ
    info = send_w3gs_playerinfo pid j.name external_ip j.internal_ip

    joined : GameActor
    joined = inserted j sid pid g

    told : GameActor
    told = send_to_others pid info joined

    shown : GameActor
    shown = send_all_slot_info told

    muted : GameActor
    muted = tell_mute env pid j.muted shown

    noted : GameActor
    noted = notify (player_joined j.name) muted

seat_or_reject-IsSound :
    (env : Env) (j : Joining) (sid : ℕ) (g : GameActor)
    → IsSoundGame g
    → IsSoundGame (seat_or_reject (new_pid g) env j sid g)
unfolding seat_or_reject
seat_or_reject-IsSound env j sid g s = elim (new_pid_cases g) [
  | inl taken ↦ along none taken.0 (reject-IsSound rejectjoin_full j.conn_id j.handle g s)
  | inr (pid, found, range, other, free) ↦ along (some pid) found (
      IsSame-IsSound (seat env j sid pid g) (inserted j sid pid g) (seat-IsSame env j sid pid g)
        (inserted-IsSound j sid pid g range other (pids-All pid g.players free) s))
]
  where
    along :
        (o : Option ℕ)
        → new_pid g ≡ o
        → IsSoundGame (seat_or_reject o env j sid g)
        → IsSoundGame (seat_or_reject (new_pid g) env j sid g)
    along o e k = rw e k

take_slot-IsSound :
    (o : Option ℕ) (env : Env) (j : Joining) (g : GameActor)
    → IsSoundGame g
    → IsSoundGame (take_slot o env j g)
unfolding take_slot
take_slot-IsSound none env j g s = reject-IsSound rejectjoin_full j.conn_id j.handle g s
take_slot-IsSound (some sid) env j g s =
    seat_or_reject-IsSound env j sid (make_room g) (make_room-IsSound g s)

-- A connection asks to join with a packet, at a drawn reconnect key, or a player leaves.
pub data Visit : Type 0 where
  joins : ℕ → ℕ → List ℕ → Visit
  leaves : ℕ → ℕ → Option (List ℕ) → Visit

module _ (ban_check : List ℕ → List ℕ → List ℕ → Bool) (mute_check : List ℕ → List ℕ → ℕ → Option ℕ)
    (to_lowercase : List ℕ → List ℕ) where
  join_on-IsSound :
      (o : Option ℕ) (env : Env) (key conn_id : ℕ) (join : Option IncomingJoinPlayer)
      (g : GameActor)
      → IsSoundGame g
      → IsSoundGame (join_on ban_check mute_check to_lowercase o env key conn_id join g)
  unfolding join_on join_as
  join_on-IsSound none env key conn_id join g s = s
  join_on-IsSound (some handle) env key conn_id none g s = s
  join_on-IsSound (some handle) env key conn_id (some join) g s =
      either-IsSound g.started _ _ (reject-IsSound rejectjoin_started conn_id handle g s) (
        either-IsSound _ _ _ (reject-IsSound rejectjoin_full conn_id handle g s)
          (take_slot-IsSound (empty_slot g) env _ _ s))

  unfoldable pub visit : Env → Visit → GameActor → GameActor
  visit env (joins key conn_id bytes) g =
      handle_join ban_check mute_check to_lowercase env key conn_id bytes g
  visit env (leaves pid left_code reason) g = remove_player_with_reason env pid left_code reason g

  unfoldable pub visits : List (Env × Visit) → GameActor → GameActor
  visits [] g = g
  visits ((env, v) ∷ vs) g = visits vs (visit env v g)

  visit-IsSound :
      (env : Env) (v : Visit) (g : GameActor) → IsSoundGame g → IsSoundGame (visit env v g)
  unfolding visit handle_join
  visit-IsSound env (joins key conn_id bytes) g s =
      join_on-IsSound (lookup conn_id g.conns) env key conn_id (receive_w3gs_reqjoin bytes) g s
  visit-IsSound env (leaves pid left_code reason) g s =
      remove_player-IsSound env pid left_code reason g s

  -- From a game whose players have different pids from 1 to 12, none of them the virtual host's, that stays
  -- so over any sequence of join requests and leaves, whatever the packets and the database's answers are.
  pub visits-IsSound :
      (vs : List (Env × Visit)) (g : GameActor)
      → IsSound (pids_of g.players) g.virtual_host_pid
      → IsSound (pids_of (visits vs g).players) (visits vs g).virtual_host_pid
  unfolding visits
  visits-IsSound [] g s = s
  visits-IsSound ((env, v) ∷ vs) g s = visits-IsSound vs (visit env v g) (visit-IsSound env v g s)
