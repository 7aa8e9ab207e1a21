-- ===== src/Game/Desync/Load.antt =====
-- src/game/actor.rs: what is sent, and the announcement of a leave, add no checksum.
use ghostpp_rs.Prelude.{
  ℕ, ◌+◌, ◌≤◌, ◌≡◌, refl, sym, ap, ◌∙◌, Bool, true, false, ◌||◌, not, List, [], ◌∷◌, map, Option,
  none, some, arith, if◌then◌else◌, ◌==◌, length, if-either,
}
use ghostpp_rs.Core.GameProtocol.Receive.{is_empty}
use ghostpp_rs.Core.GameProtocol.Send.{send_w3gs_playerleave_others}
use ghostpp_rs.Game.{LobbyPlayer, GameActor, Env}
use ghostpp_rs.Game.Hub.{send_all, send_all_slot_info}
use ghostpp_rs.Game.Hub.Settled.{settle, settle_player, send_all-settle, send_all_slot_info-settle}
use ghostpp_rs.Game.Slots.{new_pid}
use ghostpp_rs.Game.Chat.{send_all_chat}
use ghostpp_rs.Game.Chat.Settled.{send_all_chat-settle}
use ghostpp_rs.Game.VirtualHost.{create_virtual_host, with_virtual_host}
use ghostpp_rs.Game.Loading.{
  all_loaded, clear_checksums, announce_load_times, now_loaded, check_loading_complete,
}
use ghostpp_rs.Game.Leave.{
  note_leave, update_lobby, abort_countdown, complete_loading, notify, tell_leave,
}
use ghostpp_rs.Game.Leave.Kept.{note_leave-settle, announce_load_times-settle}
use ghostpp_rs.Game.Desync.{pending}

-- The checksums pending in a game.
abbrev pub load : GameActor → ℕ
load g = pending g.players

pending-settle :
    (players : List LobbyPlayer) → pending (map settle_player players) ≡ pending players
unfolding pending settle_player
pending-settle [] = refl
pending-settle (p ∷ players) = ap (λ n. length p.checksums + n) (pending-settle players)

settle-load : (a b : GameActor) → settle a ≡ settle b → load a ≡ load b
unfolding settle
settle-load a b e =
    sym (pending-settle a.players)
    ∙ (ap (λ (x : GameActor). pending x.players) e ∙ pending-settle b.players)

send_all-load : (bytes : List ℕ) (g : GameActor) → load (send_all bytes g) ≡ load g
send_all-load bytes g = settle-load (send_all bytes g) g (send_all-settle bytes g)

pub chat-load : (message : List ℕ) (g : GameActor) → load (send_all_chat message g) ≡ load g
chat-load message g = settle-load (send_all_chat message g) g (send_all_chat-settle message g)

with_virtual_host-load : (o : Option ℕ) (g : GameActor) → load (with_virtual_host o g) ≡ load g
unfolding with_virtual_host
with_virtual_host-load none g = refl
with_virtual_host-load (some pid) g = send_all-load _ (record g { virtual_host_pid = pid })

update_lobby-load : (g : GameActor) → load (update_lobby g) ≡ load g
unfolding update_lobby create_virtual_host
update_lobby-load g =
    let shown = send_all_slot_info g in
    if-either load g.started refl (
      if-either load (not (shown.virtual_host_pid == 255) || shown.started) refl
        (with_virtual_host-load (new_pid shown) shown)
      ∙ settle-load shown g (send_all_slot_info-settle g))

abort_countdown-load :
    (env : Env) (o : Option ℕ) (g : GameActor) → load (abort_countdown env o g) ≡ load g
unfolding abort_countdown
abort_countdown-load env none g = refl
abort_countdown-load env (some n) g = chat-load _ (record g { countdown = none })

pending-clear :
    (players : List LobbyPlayer) → pending (map clear_checksums players) ≤ pending players
unfolding pending
pending-clear [] = omega arith
pending-clear (p ∷ players) = omega (arith, pending-clear players)

pub if-bound :
    (n : ℕ) (b : Bool) (x y : GameActor) → load x ≤ n → load y ≤ n → load (if b then x else y) ≤ n
if-bound n true x y hx hy = hx
if-bound n false x y hx hy = hy

complete_loading-load : (env : Env) (g : GameActor) → load (complete_loading env g) ≤ load g
unfolding complete_loading check_loading_complete now_loaded
complete_loading-load env g =
    if-bound (load g) g.game_loading _ _
      (if-bound (load g) ((not g.game_loading || is_empty g.players) || not (all_loaded g.players))
        g told (omega arith) announced)
      (omega arith)
  where
    told : GameActor
    told = announce_load_times env (map clear_checksums g.players) (now_loaded env g)

    announced : load told ≤ load g
    announced =
        unfold now_loaded in
        omega (
          arith,
          settle-load told (now_loaded env g)
              (announce_load_times-settle env (map clear_checksums g.players) (now_loaded env g)),
          pending-clear g.players,
        )

pub tell_leave-load :
    (env : Env) (p : LobbyPlayer) (left_code : ℕ) (g : GameActor)
    → load (tell_leave env p left_code g) ≤ load g
unfolding tell_leave notify
tell_leave-load env p left_code g =
    let g1 = note_leave p.pid left_code g in
    let left = send_all (send_w3gs_playerleave_others p.pid left_code) g1 in
    let g2 = update_lobby left in
    omega (
      arith,
      complete_loading-load env (abort_countdown env g2.countdown g2),
      abort_countdown-load env g2.countdown g2,
      update_lobby-load left,
      send_all-load (send_w3gs_playerleave_others p.pid left_code) g1,
      settle-load g1 g (note_leave-settle p.pid left_code g),
    )
