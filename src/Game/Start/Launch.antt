-- ===== src/Game/Start/Launch.antt =====
-- src/game/actor.rs: what the start of a game leaves in the slots (event_game_started).
use ghostpp_rs.Prelude.{◌≤◌, ◌≡◌, refl, ap, ◌∙◌, true, false, length, if-either, if-false}
use ghostpp_rs.Core.GameProtocol.Send.{send_w3gs_countdown_start, send_w3gs_countdown_end}
use ghostpp_rs.Game.{GameActor, Env}
use ghostpp_rs.Game.Hub.{send_all, send_all_slot_info}
use ghostpp_rs.Game.Hub.Settled.{send_all-settle, send_all_slot_info-settle}
use ghostpp_rs.Game.VirtualHost.{delete_virtual_host}
use ghostpp_rs.Game.Leave.{notify}
use ghostpp_rs.Game.Leave.Kept.{core, core_of_settle, core-slots, delete_virtual_host-core}
use ghostpp_rs.Game.Start.{all_allowed, count_occupied, with_hcl, prepared, event_game_started}
use ghostpp_rs.Game.Start.Hcl.{read_hcl, restore, IsChosen, read_hcl-with_hcl}

prepared-slots : (g : GameActor) → (prepared g).slots ≡ with_hcl g.hcl_string g.slots
unfolding prepared
prepared-slots g = if-either (λ (x : GameActor). x.slots) g.save_replays refl refl

event_game_started-slots :
    (env : Env) (g : GameActor)
    → g.started ≡ false
    → (event_game_started env g).slots ≡ with_hcl g.hcl_string g.slots
unfolding event_game_started notify
event_game_started-slots env g lobby =
    ap (λ (x : GameActor). x.slots) (if-false g.started g _ lobby)
    ∙ (core-slots ended counted same
        ∙ (core-slots counted (prepared g) counted-core ∙ prepared-slots g))
  where
    counted : GameActor
    counted = send_all send_w3gs_countdown_start (send_all_slot_info (prepared g))

    ended : GameActor
    ended = send_all send_w3gs_countdown_end (delete_virtual_host counted)

    same : core ended ≡ core counted
    same =
        core_of_settle ended (delete_virtual_host counted)
          (send_all-settle send_w3gs_countdown_end (delete_virtual_host counted))
        ∙ delete_virtual_host-core counted

    counted-core : core counted ≡ core (prepared g)
    counted-core = core_of_settle counted (prepared g) (
        send_all-settle send_w3gs_countdown_start (send_all_slot_info (prepared g))
        ∙ send_all_slot_info-settle (prepared g))

-- When a game starts, its mode string can be read back from the handicaps of the slots, and so can the
-- handicaps that stood there, if the string has only allowed characters and at most one for each occupied
-- slot, and each occupied slot has a handicap from 50 to 100 in steps of ten.
pub event_game_started-read :
    (env : Env) (g : GameActor)
    → g.started ≡ false
    → all_allowed g.hcl_string ≡ true
    → length g.hcl_string ≤ count_occupied g.slots
    → IsChosen g.slots
    → (read_hcl (event_game_started env g).slots ≡ g.hcl_string)
      × (restore (event_game_started env g).slots ≡ g.slots)
event_game_started-read env g lobby allowed fits chosen =
    rw (event_game_started-slots env g lobby)
      (read_hcl-with_hcl g.hcl_string g.slots allowed fits chosen)
