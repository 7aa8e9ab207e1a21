-- ===== src/Game/Leave/GameOver.antt =====
-- src/game/actor.rs: the timer that closes a game with one player left (check_game_over, stop_players).
use ghostpp_rs.Prelude.{
  ℕ, ◌-◌, ◌≤◌, ◌≡◌, ◌≢◌, refl, sym, ap, ◌∙◌, Bool, true, false, ◌&&◌, not, List, [], ◌∷◌, some,
  arith, ◌==◌, if◌then◌else◌, leb, any, length,
}
use ghostpp_rs.Prelude.Text.{codes}
use ghostpp_rs.Lang.{t}
use ghostpp_rs.Core.GameProtocol.{playerleave_lost}
use ghostpp_rs.Core.GameProtocol.Receive.{is_empty}
use ghostpp_rs.Game.{LobbyPlayer, GameActor, Env, select}
use ghostpp_rs.Game.Hub.{pids_of}
use ghostpp_rs.Game.Chat.{in_game, send_all_chat}
use ghostpp_rs.Game.Leave.{
  remove_all, stop_players, game_over_wait_secs, start_game_over_timer, finish_game_over,
  check_game_over,
}
use ghostpp_rs.Game.Leave.Many.{remove_all-any}

select_all : (players : List LobbyPlayer) → select (λ p. true) players ≡ players
unfolding select
select_all [] = refl
select_all (p ∷ players) = ap (λ (ps : List LobbyPlayer). p ∷ ps) (select_all players)

nobody : (players : List LobbyPlayer) → any (λ p. true) players ≡ false → players ≡ []
nobody [] h = refl
nobody (p ∷ players) h = ground arith

empty_list : (players : List LobbyPlayer) → is_empty players ≡ true → players ≡ []
empty_list [] h = refl
empty_list (p ∷ players) h = ground arith

stop_players-empty :
    (env : Env) (reason : List ℕ) (g : GameActor) → (stop_players env reason g).players ≡ []
unfolding stop_players
stop_players-empty env reason g =
    nobody (remove_all env playerleave_lost (some reason) (pids_of g.players) g).players (
      ap (λ (ps : List LobbyPlayer). any (λ p. true) (stopped (pids_of ps)).players)
        (sym (select_all g.players))
      ∙ remove_all-any (λ p. true) (λ p. refl) env playerleave_lost (some reason) g)
  where
    stopped : List ℕ → GameActor
    stopped pids = remove_all env playerleave_lost (some reason) pids g

timer_runs :
    (now_secs : ℕ) (g : GameActor) → g.game_over_time ≢ 0 → start_game_over_timer now_secs g ≡ g
unfolding start_game_over_timer
timer_runs now_secs g running = simp (off g.game_over_time (length g.players == 1) running) refl
  where
    off : (time : ℕ) (one : Bool) → time ≢ 0 → (one && time == 0) ≡ false
    off time one h = ground arith

timer_finished :
    (env : Env) (g : GameActor)
    → g.game_over_time ≢ 0
    → game_over_wait_secs ≤ env.now_secs - g.game_over_time
    → (not (g.game_over_time == 0) && leb game_over_wait_secs (env.now_secs - g.game_over_time))
      ≡ true
timer_finished env g running waited = ground arith

finish_game_over-empty :
    (env : Env) (g : GameActor)
    → g.game_over_time ≢ 0
    → game_over_wait_secs ≤ env.now_secs - g.game_over_time
    → (finish_game_over env g).players ≡ []
unfolding finish_game_over
finish_game_over-empty env g running waited =
    simp (timer_finished env g running waited) (closed (is_empty g.players) refl)
  where
    closed :
        (empty : Bool)
        → is_empty g.players ≡ empty
        → (if not empty
            then stop_players env
                (codes "was disconnected (gameover timer finished)")
                (send_all_chat (t env.catalog "gameover_timer_finished" []) g)
            else g).players
          ≡ []
    closed true e = empty_list g.players e
    closed false e = stop_players-empty env _ _

-- A running game whose timer of the last player has run for its sixty seconds is empty after the next
-- check, whoever is left in it.
pub check_game_over-closes :
    (env : Env) (g : GameActor)
    → in_game g ≡ true
    → g.game_over_time ≢ 0
    → game_over_wait_secs ≤ env.now_secs - g.game_over_time
    → (check_game_over env g).players ≡ []
unfolding check_game_over
check_game_over-closes env g running timer waited =
    simp (running, timer_runs env.now_secs g timer) (finish_game_over-empty env g timer waited)
