-- ===== src/Game/Members/Leaves.antt =====
-- src/game/actor.rs: a leave keeps the pids of a game apart (remove_player_with_reason), and so does a new
-- virtual host.
use ghostpp_rs.Prelude.{
  ℕ, ◌≤◌, ◌≡◌, ◌≢◌, refl, ◌∙◌, inl, inr, Bool, true, false, ◌||◌, not, List, [], ◌∷◌, map, Option,
  none, some, ◌==◌, if◌then◌else◌, All,
}
use ghostpp_rs.Core.GameProtocol.Send.{send_w3gs_playerleave_others}
use ghostpp_rs.Game.{LobbyPlayer, GameActor, player_left, Env, get_player}
use ghostpp_rs.Game.Hub.{pids_of, send_all, send_all_slot_info}
use ghostpp_rs.Game.Hub.Settled.{send_all-settle, send_all_slot_info-settle}
use ghostpp_rs.Game.Slots.{new_pid}
use ghostpp_rs.Game.Slots.Pids.{new_pid_cases}
use ghostpp_rs.Game.Chat.Settled.{send_all_chat-settle}
use ghostpp_rs.Game.VirtualHost.{create_virtual_host, with_virtual_host}
use ghostpp_rs.Game.Loading.{all_loaded, clear_checksums, now_loaded, check_loading_complete}
use ghostpp_rs.Core.GameProtocol.Receive.{is_empty}
use ghostpp_rs.Game.Leave.{
  remove_from, taken_out, note_leave, update_lobby, abort_countdown, complete_loading, notify,
  tell_leave, remove_found, remove_player_with_reason,
}
use ghostpp_rs.Game.Leave.Kept.{note_leave-settle, announce_load_times-settle}
use ghostpp_rs.Game.Members.{
  IsDistinct, IsSoundGame, IsSame, IsSame-IsSound, IsSame-trans, settle-IsSame, pids_of-clear,
  pids-All, either-IsSound, either-IsSame, notify-IsSame, IsSame-refl,
}

-- A new virtual host takes a pid that nobody has.
hosted-IsSound :
    (pid : ℕ) (g : GameActor)
    → All (λ (p : LobbyPlayer). p.pid ≢ pid) g.players
    → IsSoundGame g
    → IsSoundGame (with_virtual_host (some pid) g)
unfolding with_virtual_host
hosted-IsSound pid g free s =
    IsSame-IsSound _ (record g { virtual_host_pid = pid })
      (settle-IsSame _ (record g { virtual_host_pid = pid })
        (send_all-settle _ (record g { virtual_host_pid = pid })))
      (record {
        distinct = s.distinct;
        in_range = s.in_range;
        not_host = pids-All pid g.players free;
      })

new_host-IsSound : (g : GameActor) → IsSoundGame g → IsSoundGame (with_virtual_host (new_pid g) g)
new_host-IsSound g s = elim (new_pid_cases g) [
  | inl taken ↦ along none taken.0 (unfold with_virtual_host in s)
  | inr (pid, found, range, other, free) ↦ along (some pid) found (hosted-IsSound pid g free s)
]
  where
    along :
        (o : Option ℕ)
        → new_pid g ≡ o
        → IsSoundGame (with_virtual_host o g)
        → IsSoundGame (with_virtual_host (new_pid g) g)
    along o e k = rw e k

update_lobby-IsSound : (g : GameActor) → IsSoundGame g → IsSoundGame (update_lobby g)
unfolding update_lobby create_virtual_host
update_lobby-IsSound g s =
    let shown = send_all_slot_info g in
    let still = IsSame-IsSound shown g (settle-IsSame shown g (send_all_slot_info-settle g)) s in
    either-IsSound g.started _ _ s (
      either-IsSound (not (shown.virtual_host_pid == 255) || shown.started) _ _ still
        (new_host-IsSound shown still))

abort_countdown-IsSame :
    (env : Env) (o : Option ℕ) (g : GameActor) → IsSame (abort_countdown env o g) g
unfolding abort_countdown
abort_countdown-IsSame env none g = IsSame-refl g
abort_countdown-IsSame env (some n) g =
    IsSame-trans _ (record g { countdown = none }) g
      (settle-IsSame _ (record g { countdown = none })
        (send_all_chat-settle _ (record g { countdown = none })))
      (record { pids = refl; host = refl })

complete_loading-IsSame : (env : Env) (g : GameActor) → IsSame (complete_loading env g) g
unfolding complete_loading check_loading_complete
complete_loading-IsSame env g =
    either-IsSame g g.game_loading _ _
      (either-IsSame g ((not g.game_loading || is_empty g.players) || not (all_loaded g.players)) _
        _ (IsSame-refl g)
        (IsSame-trans _ (now_loaded env g) g
          (settle-IsSame _ (now_loaded env g)
            (announce_load_times-settle env (map clear_checksums g.players) (now_loaded env g)))
          (unfold now_loaded in record { pids = pids_of-clear g.players; host = refl })))
      (IsSame-refl g)

tell_leave-IsSound :
    (env : Env) (p : LobbyPlayer) (left_code : ℕ) (g : GameActor)
    → IsSoundGame g
    → IsSoundGame (tell_leave env p left_code g)
unfolding tell_leave
tell_leave-IsSound env p left_code g s =
    let g1 = note_leave p.pid left_code g in
    let left = send_all (send_w3gs_playerleave_others p.pid left_code) g1 in
    let g2 = update_lobby left in
    let g3 = abort_countdown env g2.countdown g2 in
    let told = complete_loading env g3 in
    let gone =
      IsSame-IsSound left g
        (settle-IsSame left g (send_all-settle _ g1 ∙ note_leave-settle p.pid left_code g)) s in
    IsSame-IsSound (notify (player_left p.name) told) g2
      (IsSame-trans (notify (player_left p.name) told) told g2
        (notify-IsSame (player_left p.name) told)
        (IsSame-trans told g3 g2 (complete_loading-IsSame env g3)
          (abort_countdown-IsSame env g2.countdown g2)))
      (update_lobby-IsSound left gone)

All-remove_from {κ} :
    (P : ℕ → Type κ) (pid : ℕ) (players : List LobbyPlayer)
    → All P (pids_of players)
    → All P (pids_of (remove_from pid players))
unfolding remove_from
All-remove_from P pid [] h = h
All-remove_from P pid (p ∷ players) h =
    let rest = All-remove_from P pid players h.1 in
    kept (p.pid == pid) p (remove_from pid players) h.0 rest
  where
    kept :
        (b : Bool) (p : LobbyPlayer) (rest : List LobbyPlayer)
        → P p.pid
        → All P (pids_of rest)
        → All P (pids_of (if b then rest else p ∷ rest))
    kept true p rest k ks = ks
    kept false p rest k ks = (k, ks)

IsDistinct-remove_from :
    (pid : ℕ) (players : List LobbyPlayer)
    → IsDistinct (pids_of players)
    → IsDistinct (pids_of (remove_from pid players))
unfolding remove_from
IsDistinct-remove_from pid [] h = h
IsDistinct-remove_from pid (p ∷ players) h =
    let rest = IsDistinct-remove_from pid players h.1 in
    kept (p.pid == pid) p (remove_from pid players)
      (All-remove_from (λ other. other ≢ p.pid) pid players h.0) rest
  where
    kept :
        (b : Bool) (p : LobbyPlayer) (rest : List LobbyPlayer)
        → All (λ other. other ≢ p.pid) (pids_of rest)
        → IsDistinct (pids_of rest)
        → IsDistinct (pids_of (if b then rest else p ∷ rest))
    kept true p rest k ks = ks
    kept false p rest k ks = (k, ks)

remove_found-IsSound :
    (o : Option LobbyPlayer) (env : Env) (left_code : ℕ) (reason : Option (List ℕ)) (g : GameActor)
    → IsSoundGame g
    → IsSoundGame (remove_found o env left_code reason g)
unfolding remove_found
remove_found-IsSound none env left_code reason g s = s
remove_found-IsSound (some p) env left_code reason g s =
    tell_leave-IsSound env p left_code (taken_out env p left_code reason g) (
      unfold taken_out in
      record {
        distinct = IsDistinct-remove_from p.pid g.players s.distinct;
        in_range = All-remove_from (λ pid. (1 ≤ pid) × (pid ≤ 12)) p.pid g.players s.in_range;
        not_host = All-remove_from (λ pid. pid ≢ g.virtual_host_pid) p.pid g.players s.not_host;
      })

pub remove_player-IsSound :
    (env : Env) (pid left_code : ℕ) (reason : Option (List ℕ)) (g : GameActor)
    → IsSoundGame g
    → IsSoundGame (remove_player_with_reason env pid left_code reason g)
unfolding remove_player_with_reason
remove_player-IsSound env pid left_code reason g s =
    remove_found-IsSound (get_player pid g.players) env left_code reason g s
