-- ===== src/Game/Lag/Beat.antt =====
-- src/game/actor.rs: game_tick as a whole, on the lag screen and off it.
use ghostpp_rs.Prelude.{
  ℕ, suc, zero, ◌-◌, ◌≡◌, refl, ap, ◌∙◌, Bool, ◌&&◌, not, List, [], ◌∷◌, none, some, leb, any,
  as_u16, if-either,
}
use ghostpp_rs.Core.GameProtocol.{IncomingAction, playerleave_disconnect}
use ghostpp_rs.Core.GameProtocol.Send.{send_w3gs_stop_lag_pid, send_w3gs_start_lag_pids}
use ghostpp_rs.Core.Replay.{add_time_slot, add_time_slot2}
use ghostpp_rs.Game.{LobbyPlayer, GameActor, Env, select}
use ghostpp_rs.Game.Hub.{send_to_pid, send_all, pids_of}
use ghostpp_rs.Game.Hub.Settled.{settle, send_to_pid-settle, send_all-settle, record_replay-settle}
use ghostpp_rs.Game.Batches.{
  record_replay, add_empty_slots, send_empty_actions, send_empty_to, direct_pids, pay_empty_actions,
  send_chunks, replay_actions,
}
use ghostpp_rs.Game.Chat.{send_all_chat}
use ghostpp_rs.Game.Chat.Settled.{send_all_chat-settle}
use ghostpp_rs.Game.Leave.{remove_player, remove_all}
use ghostpp_rs.Game.Leave.Many.{pace, settle-pace, remove_player-pace, remove_all-pace}
use ghostpp_rs.Game.Lag.{
  is_lagging, laggers_of, using_gproxy, close_lag_screen, stop_laggers, is_expired, expire,
  expire_all, maintain_gproxy, open_lag_screen, drop_expired, is_recovered, clear_recovered,
  recover_players, empty_action, send_stop_lags, reset_for, reset_for_all, reset_lag_screen,
  close_or_reset, keep_lag_screen, manage_lag,
}

-- The beats sent so far.
abbrev pub counter : GameActor → ℕ
counter g = g.sync_counter

pub pace-counter : (a b : GameActor) → pace a ≡ pace b → counter a ≡ counter b
unfolding pace
pace-counter a b e = ap (λ (x : Bool × ℕ × ℕ × ℕ). x.1) e

pub pace-lagging : (a b : GameActor) → pace a ≡ pace b → a.lagging ≡ b.lagging
unfolding pace
pace-lagging a b e = ap (λ (x : Bool × ℕ × ℕ × ℕ). x.0) e

settle-counter : (a b : GameActor) → settle a ≡ settle b → counter a ≡ counter b
settle-counter a b e = pace-counter a b (settle-pace a b e)

expire_all-pace :
    (env : Env) (players : List LobbyPlayer) (g : GameActor)
    → pace (expire_all env players g) ≡ pace g
unfolding expire_all expire remove_player
expire_all-pace env [] g = refl
expire_all-pace env (p ∷ players) g =
    expire_all-pace env players (expire env p g)
    ∙ (remove_player-pace env p.pid playerleave_disconnect none (send_all_chat _ g)
        ∙ settle-pace (send_all_chat _ g) g (send_all_chat-settle _ g))

pub maintain_gproxy-pace : (env : Env) (g : GameActor) → pace (maintain_gproxy env g) ≡ pace g
unfolding maintain_gproxy
maintain_gproxy-pace env g =
    if-either pace g.reconnect_enabled
      (expire_all-pace env (select (is_expired env g.gproxy_empty_actions) g.players) g) refl

open_lag_screen-counter :
    (env : Env) (sync_limit : ℕ) (g : GameActor)
    → counter (open_lag_screen env sync_limit g) ≡ counter g
unfolding open_lag_screen
open_lag_screen-counter env sync_limit g =
    if-either counter _ refl (settle-counter (send_all _ _) _ (send_all-settle _ _))

close_lag_screen-counter : (g : GameActor) → counter (close_lag_screen g) ≡ counter g
unfolding close_lag_screen
close_lag_screen-counter g = if-either counter (any is_lagging g.players) refl refl

stop_laggers-counter :
    (env : Env) (message : List ℕ) (g : GameActor)
    → counter (stop_laggers env message g) ≡ counter g
unfolding stop_laggers
stop_laggers-counter env message g =
    let gone = remove_all env playerleave_disconnect (some message) (pids_of (laggers_of g)) g in
    if-either counter _ refl (
      settle-counter (send_all_chat message (close_lag_screen gone)) (close_lag_screen gone)
        (send_all_chat-settle message (close_lag_screen gone))
      ∙ (close_lag_screen-counter gone
          ∙ pace-counter gone g (
              remove_all-pace env playerleave_disconnect (some message) (pids_of (laggers_of g))
                g)))

drop_expired-counter : (env : Env) (g : GameActor) → counter (drop_expired env g) ≡ counter g
unfolding drop_expired
drop_expired-counter env g = if-either counter _ (stop_laggers-counter env _ g) refl

clear_recovered-counter :
    (now : ℕ) (recovered : List LobbyPlayer) (g : GameActor)
    → counter (clear_recovered now recovered g) ≡ counter g
unfolding clear_recovered
clear_recovered-counter now [] g = refl
clear_recovered-counter now (p ∷ recovered) g =
    clear_recovered-counter now recovered (send_all _ _)
    ∙ settle-counter (send_all _ _) _ (send_all-settle _ _)

module _ (crc32 : List ℕ → ℕ) where
  pub send_empty_actions-settle :
      (n pid : ℕ) (g : GameActor) → settle (send_empty_actions crc32 n pid g) ≡ settle g
  unfolding send_empty_actions
  send_empty_actions-settle zero pid g = refl
  send_empty_actions-settle (suc n) pid g =
      send_empty_actions-settle n pid (send_to_pid pid (empty_action crc32) g)
      ∙ send_to_pid-settle pid (empty_action crc32) g

  pub send_empty_to-settle :
      (n : ℕ) (pids : List ℕ) (g : GameActor) → settle (send_empty_to crc32 n pids g) ≡ settle g
  unfolding send_empty_to
  send_empty_to-settle n [] g = refl
  send_empty_to-settle n (pid ∷ pids) g =
      send_empty_to-settle n pids (send_empty_actions crc32 n pid g)
      ∙ send_empty_actions-settle n pid g

  pub pay_empty_actions-settle : (g : GameActor) → settle (pay_empty_actions crc32 g) ≡ settle g
  unfolding pay_empty_actions
  pay_empty_actions-settle g =
      if-either settle (using_gproxy g)
        (record_replay-settle (add_empty_slots g.gproxy_empty_actions) _
          ∙ send_empty_to-settle g.gproxy_empty_actions (direct_pids g.players) g)
        refl

  pub send_chunks-settle :
      (chunks : List (List IncomingAction)) (g : GameActor)
      → settle (send_chunks crc32 chunks g) ≡ settle g
  unfolding send_chunks
  send_chunks-settle [] g = refl
  send_chunks-settle (chunk ∷ []) g =
      send_all-settle _ (record_replay _ g)
      ∙ record_replay-settle (add_time_slot (as_u16 g.latency_ms) (replay_actions chunk)) g
  send_chunks-settle (chunk ∷ next ∷ chunks) g =
      send_chunks-settle (next ∷ chunks) (send_all _ (record_replay _ g))
      ∙ (send_all-settle _ (record_replay _ g)
          ∙ record_replay-settle (add_time_slot2 (replay_actions chunk)) g)

  send_stop_lags-settle :
      (rpid : ℕ) (laggers : List (ℕ × ℕ)) (g : GameActor)
      → settle (send_stop_lags crc32 rpid laggers g) ≡ settle g
  unfolding send_stop_lags
  send_stop_lags-settle rpid [] g = refl
  send_stop_lags-settle rpid ((lpid, ms) ∷ laggers) g =
      send_stop_lags-settle rpid laggers (send_to_pid rpid (send_w3gs_stop_lag_pid lpid ms) g)
      ∙ send_to_pid-settle rpid (send_w3gs_stop_lag_pid lpid ms) g

  reset_for-settle :
      (using : Bool) (laggers : List (ℕ × ℕ)) (r : LobbyPlayer) (g : GameActor)
      → settle (reset_for crc32 using laggers r g) ≡ settle g
  unfolding reset_for
  reset_for-settle using laggers r g =
      let stopped = send_stop_lags crc32 r.pid laggers g in
      send_to_pid-settle r.pid (send_w3gs_start_lag_pids laggers) (send_to_pid r.pid _ _)
      ∙ (send_to_pid-settle r.pid (empty_action crc32) _
          ∙ (if-either settle (using && not r.gproxy)
                (send_empty_actions-settle stopped.gproxy_empty_actions r.pid stopped) refl
              ∙ send_stop_lags-settle r.pid laggers g))

  reset_for_all-settle :
      (using : Bool) (laggers : List (ℕ × ℕ)) (recipients : List LobbyPlayer) (g : GameActor)
      → settle (reset_for_all crc32 using laggers recipients g) ≡ settle g
  unfolding reset_for_all
  reset_for_all-settle using laggers [] g = refl
  reset_for_all-settle using laggers (r ∷ recipients) g =
      reset_for_all-settle using laggers recipients (reset_for crc32 using laggers r g)
      ∙ reset_for-settle using laggers r g

  reset_lag_screen-counter :
      (now : ℕ) (g : GameActor) → counter (reset_lag_screen crc32 now g) ≡ counter g
  unfolding reset_lag_screen
  reset_lag_screen-counter now g =
      settle-counter _ (record g { last_lag_screen_reset = now })
        (record_replay-settle _ _ ∙ reset_for_all-settle _ _ g.players _)

  close_or_reset-counter :
      (now : ℕ) (g : GameActor) → counter (close_or_reset crc32 now g) ≡ counter g
  unfolding close_or_reset
  close_or_reset-counter now g = if-either counter (not (any is_lagging g.players)) refl (
      if-either counter (leb 60000 (now - g.last_lag_screen_reset)) (reset_lag_screen-counter now g)
        refl)

  pub manage_lag-counter :
      (env : Env) (sync_limit : ℕ) (g : GameActor)
      → counter (manage_lag crc32 env sync_limit g) ≡ counter g
  unfolding manage_lag keep_lag_screen recover_players
  manage_lag-counter env sync_limit g =
      let left = drop_expired env g in
      if-either counter _ (open_lag_screen-counter env sync_limit g) (
        close_or_reset-counter env.ticks (recover_players env.ticks sync_limit left)
        ∙ (clear_recovered-counter env.ticks
              (select (is_recovered left.sync_counter sync_limit) left.players) left
            ∙ drop_expired-counter env g))
