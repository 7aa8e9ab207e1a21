-- ===== src/Game/Lag/Tick.antt =====
-- src/game/actor.rs: game_tick: a beat either waits on the lag screen or counts one batch; and the lag
-- screen is closed once its wait is over.
use ghostpp_rs.Prelude.{
  ℕ, ◌+◌, ◌-◌, ◌*◌, ◌%◌, ◌^◌, ◌≤◌, ◌≡◌, ◌⊎◌, refl, ap, ◌∙◌, Bool, true, false, not, List, [], ◌∷◌,
  inl, inr, arith, any, Bool-cases, if-true, if-false,
}
use ghostpp_rs.Game.{LobbyPlayer, GameActor, Env, select}
use ghostpp_rs.Game.Hub.Settled.{settle}
use ghostpp_rs.Game.Batches.{pay_empty_actions, chunks_of, send_all_actions}
use ghostpp_rs.Game.Leave.Many.{pace, settle-pace}
use ghostpp_rs.Game.Lag.{
  effective_sync_limit, lag_screen_expired, is_lagging, using_gproxy, maintain_gproxy, drop_expired,
  is_recovered, clear_recovered, recover_players, close_or_reset, keep_lag_screen, manage_lag,
  game_tick,
}
use ghostpp_rs.Game.Lag.Screen.{stop_laggers-none}
use ghostpp_rs.Game.Lag.Beat.{
  pace-counter, pace-lagging, maintain_gproxy-pace, pay_empty_actions-settle, send_chunks-settle,
  manage_lag-counter,
}

module _ (crc32 : List ℕ → ℕ) where
  -- The state in which the chunks of a beat are sent.
  beaten : GameActor → GameActor
  beaten g = record (pay_empty_actions crc32 g) {
    sync_counter = ((pay_empty_actions crc32 g).sync_counter + 1) % 2 ^ 32;
    actions = [];
  }

  send_all_actions-settle : (g : GameActor) → settle (send_all_actions crc32 g) ≡ settle (beaten g)
  unfolding send_all_actions beaten
  send_all_actions-settle g = send_chunks-settle crc32 (chunks_of g.actions) _

  beaten-pace :
      (g : GameActor)
      → ((beaten g).lagging ≡ g.lagging) × ((beaten g).sync_counter ≡ (g.sync_counter + 1) % 2 ^ 32)
  unfolding beaten
  beaten-pace g =
      let paid = settle-pace (pay_empty_actions crc32 g) g (pay_empty_actions-settle crc32 g) in
      (
        pace-lagging (pay_empty_actions crc32 g) g paid,
        ap (λ n. (n + 1) % 2 ^ 32) (pace-counter (pay_empty_actions crc32 g) g paid),
      )

  -- One batch is counted, and the queue is empty.
  unfoldable pub IsBeat : GameActor → GameActor → Type 0
  IsBeat g h =
      (h.lagging ≡ false) × (h.sync_counter ≡ (g.sync_counter + 1) % 2 ^ 32) × (h.actions ≡ [])

  send_all_actions_beats : (g : GameActor) → g.lagging ≡ false → IsBeat g (send_all_actions crc32 g)
  unfolding IsBeat settle beaten
  send_all_actions_beats g off =
      let same = send_all_actions-settle g in
      let kept = settle-pace (send_all_actions crc32 g) (beaten g) same in
      let paced = beaten-pace g in
      (
        pace-lagging (send_all_actions crc32 g) (beaten g) kept ∙ (paced.0 ∙ off),
        pace-counter (send_all_actions crc32 g) (beaten g) kept ∙ paced.1,
        ap (λ (x : GameActor). x.actions) same,
      )

  -- What a beat comes to before it sends.
  managed : Env → GameActor → GameActor
  managed env g = manage_lag crc32 env (effective_sync_limit g) (maintain_gproxy env g)

  managed-counter : (env : Env) (g : GameActor) → (managed env g).sync_counter ≡ g.sync_counter
  unfolding managed
  managed-counter env g =
      manage_lag-counter crc32 env (effective_sync_limit g) (maintain_gproxy env g)
      ∙ pace-counter (maintain_gproxy env g) g (maintain_gproxy-pace env g)

  game_tick-waits :
      (env : Env) (g : GameActor)
      → (managed env g).lagging ≡ true
      → game_tick crc32 env g ≡ managed env g
  unfolding game_tick managed
  game_tick-waits env g up =
      if-true (managed env g).lagging (managed env g) (send_all_actions crc32 (managed env g)) up

  game_tick-sends :
      (env : Env) (g : GameActor)
      → (managed env g).lagging ≡ false
      → IsBeat g (game_tick crc32 env g)
  unfolding game_tick IsBeat managed
  game_tick-sends env g off =
      let beat = send_all_actions_beats (managed env g) off in
      rw
        (if-false (managed env g).lagging (managed env g) (send_all_actions crc32 (managed env g))
          off)
        (beat.0, beat.1 ∙ ap (λ n. (n + 1) % 2 ^ 32) (managed-counter env g), beat.2)

  -- A beat of a running game either ends with the lag screen up, and then no batch has been counted, or
  -- it ends without a lag screen, has counted exactly one batch and emptied the queue of actions.
  pub game_tick_beats :
      (env : Env) (g : GameActor)
      → (((game_tick crc32 env g).lagging ≡ true)
          × ((game_tick crc32 env g).sync_counter ≡ g.sync_counter))
        ⊎ (((game_tick crc32 env g).lagging ≡ false)
            × ((game_tick crc32 env g).sync_counter ≡ (g.sync_counter + 1) % 2 ^ 32)
            × ((game_tick crc32 env g).actions ≡ []))
  unfolding IsBeat
  game_tick_beats env g = elim (Bool-cases (managed env g).lagging) [
    | inl up ↦ inl (rw (game_tick-waits env g up) (up, managed-counter env g))
    | inr off ↦ inr (game_tick-sends env g off)
  ]

  nobody_recovers :
      (sync_counter sync_limit : ℕ) (players : List LobbyPlayer)
      → any is_lagging players ≡ false
      → select (is_recovered sync_counter sync_limit) players ≡ []
  unfolding select is_recovered
  nobody_recovers sync_counter sync_limit [] h = refl
  nobody_recovers sync_counter sync_limit (p ∷ players) h =
      ground (arith, nobody_recovers sync_counter sync_limit players)

  recover_players-nobody :
      (now sync_limit : ℕ) (g : GameActor)
      → any is_lagging g.players ≡ false
      → recover_players now sync_limit g ≡ g
  unfolding recover_players clear_recovered
  recover_players-nobody now sync_limit g h =
      ap (λ (ps : List LobbyPlayer). clear_recovered now ps g)
        (nobody_recovers g.sync_counter sync_limit g.players h)

  close_or_reset-nobody :
      (now : ℕ) (g : GameActor)
      → any is_lagging g.players ≡ false
      → (close_or_reset crc32 now g).lagging ≡ false
  unfolding close_or_reset
  close_or_reset-nobody now g h =
      ap (λ (x : GameActor). x.lagging) (if-true (not (any is_lagging g.players)) _ _ (ap not h))

  drop_expired-none :
      (env : Env) (g : GameActor)
      → (g.gproxy_empty_actions + 1) * 60 ≤ env.now_secs - g.started_lagging_time
      → any is_lagging (drop_expired env g).players ≡ false
  unfolding drop_expired
  drop_expired-none env g waited =
      rw
        (if-true
          (lag_screen_expired g.started_lagging_time env.now_secs (using_gproxy g)
            g.gproxy_empty_actions)
          _ g (expired (using_gproxy g)))
        (stop_laggers-none env _ g)
    where
      expired :
          (using : Bool)
          → lag_screen_expired g.started_lagging_time env.now_secs using g.gproxy_empty_actions
            ≡ true
      expired true = unfold lag_screen_expired in ground arith
      expired false = unfold lag_screen_expired in ground arith

  keep_lag_screen-closes :
      (env : Env) (sync_limit : ℕ) (g : GameActor)
      → (g.gproxy_empty_actions + 1) * 60 ≤ env.now_secs - g.started_lagging_time
      → (keep_lag_screen crc32 env sync_limit g).lagging ≡ false
  unfolding keep_lag_screen
  keep_lag_screen-closes env sync_limit g waited =
      let none_lag = drop_expired-none env g waited in
      ap (λ (x : GameActor). (close_or_reset crc32 env.ticks x).lagging)
        (recover_players-nobody env.ticks sync_limit (drop_expired env g) none_lag)
      ∙ close_or_reset-nobody env.ticks (drop_expired env g) none_lag

  pace-wait :
      (a b : GameActor)
      → pace a ≡ pace b
      → (a.started_lagging_time ≡ b.started_lagging_time)
        × (a.gproxy_empty_actions ≡ b.gproxy_empty_actions)
  unfolding pace
  pace-wait a b e = (ap (λ (x : Bool × ℕ × ℕ × ℕ). x.2) e, ap (λ (x : Bool × ℕ × ℕ × ℕ). x.3) e)

  managed_off :
      (env : Env) (sync_limit : ℕ) (g : GameActor)
      → g.lagging ≡ true
      → (g.gproxy_empty_actions + 1) * 60 ≤ env.now_secs - g.started_lagging_time
      → (manage_lag crc32 env sync_limit g).lagging ≡ false
  unfolding manage_lag
  managed_off env sync_limit g up waited =
      ap (λ (x : GameActor). x.lagging) (if-false (not g.lagging) _ _ (ap not up))
      ∙ keep_lag_screen-closes env sync_limit g waited

  -- A lag screen that has been up for its wait, with the time for reconnects in it, does not outlive the
  -- next beat: the screen is closed, and the beat counts one batch and empties the queue of actions.
  pub game_tick_resumes :
      (env : Env) (g : GameActor)
      → g.lagging ≡ true
      → (g.gproxy_empty_actions + 1) * 60 ≤ env.now_secs - g.started_lagging_time
      → ((game_tick crc32 env g).lagging ≡ false)
        × ((game_tick crc32 env g).sync_counter ≡ (g.sync_counter + 1) % 2 ^ 32)
        × ((game_tick crc32 env g).actions ≡ [])
  unfolding IsBeat
  game_tick_resumes env g up waited = game_tick-sends env g off
    where
      kept : GameActor
      kept = maintain_gproxy env g

      same : pace kept ≡ pace g
      same = maintain_gproxy-pace env g

      due : (kept.gproxy_empty_actions + 1) * 60 ≤ env.now_secs - kept.started_lagging_time
      due = rw ((pace-wait kept g same).0, (pace-wait kept g same).1) waited

      off : (managed env g).lagging ≡ false
      off =
          unfold managed in
          managed_off env (effective_sync_limit g) kept (pace-lagging kept g same ∙ up) due
