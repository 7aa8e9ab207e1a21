-- ===== src/Game/Lag/Screen.antt =====
-- src/game/actor.rs: the lag screen over a beat. While it is up no batch is sent; it is closed when its
-- wait is over or enough players have voted.
use ghostpp_rs.Prelude.{
  ℕ, ◌*◌, ◌≤◌, ◌≡◌, ◌⊎◌, refl, sym, ap, ◌∙◌, true, false, ◌||◌, not, List, [], ◌∷◌, ◌++◌, map,
  Option, some, inl, inr, arith, leb, leb→le, ◌<◌, any, Bool-cases, if-either, if-false,
}
use ghostpp_rs.Core.GameProtocol.{playerleave_disconnect}
use ghostpp_rs.Core.GameProtocol.Receive.{is_empty}
use ghostpp_rs.Game.{
  LobbyPlayer, GameActor, GameEvent, drop_request, Env, get_player, update_player, select,
}
use ghostpp_rs.Game.Hub.{pids_of}
use ghostpp_rs.Game.Hub.Settled.{settle, settle_player}
use ghostpp_rs.Game.Chat.{send_all_chat}
use ghostpp_rs.Game.Chat.Settled.{send_all_chat-settle}
use ghostpp_rs.Game.Leave.{notify, remove_all}
use ghostpp_rs.Game.Leave.Kept.{core_player}
use ghostpp_rs.Game.Leave.Many.{remove_all-any}
use ghostpp_rs.Game.Lag.{
  is_lagging, laggers_of, close_lag_screen, stop_laggers, votes, voters, cast_vote, settle_vote,
  vote_of, handle_drop_request,
}

any-settle_player :
    (players : List LobbyPlayer)
    → any is_lagging (map settle_player players) ≡ any is_lagging players
unfolding settle_player
any-settle_player [] = refl
any-settle_player (p ∷ players) = ap (λ b. p.lagging || b) (any-settle_player players)

-- Whether anyone lags, before and after packets go out.
pub settle-laggers :
    (a b : GameActor) → settle a ≡ settle b → any is_lagging a.players ≡ any is_lagging b.players
unfolding settle
settle-laggers a b e =
    sym (any-settle_player a.players)
    ∙ (ap (λ (x : GameActor). any is_lagging x.players) e ∙ any-settle_player b.players)

close_lag_screen-laggers :
    (g : GameActor)
    → any is_lagging g.players ≡ false
    → any is_lagging (close_lag_screen g).players ≡ false
unfolding close_lag_screen
close_lag_screen-laggers g none_lag =
    if-either (λ (x : GameActor). any is_lagging x.players) (any is_lagging g.players) none_lag
      none_lag

no_laggers :
    (players : List LobbyPlayer)
    → is_empty (select is_lagging players) ≡ true
    → any is_lagging players ≡ false
unfolding select
no_laggers [] h = refl
no_laggers (p ∷ players) h = ground (arith, no_laggers players)

dropped : Env → List ℕ → GameActor → GameActor
dropped env message g =
    remove_all env playerleave_disconnect (some message) (pids_of (laggers_of g)) g

dropped-laggers :
    (env : Env) (message : List ℕ) (g : GameActor)
    → any is_lagging (dropped env message g).players ≡ false
unfolding dropped
dropped-laggers env message g =
    remove_all-any is_lagging (λ p. unfold core_player in refl) env playerleave_disconnect
      (some message) g

-- Once the laggers are stopped nobody lags.
pub stop_laggers-none :
    (env : Env) (message : List ℕ) (g : GameActor)
    → any is_lagging (stop_laggers env message g).players ≡ false
unfolding stop_laggers dropped
stop_laggers-none env message g = elim (Bool-cases (is_empty (laggers_of g))) [
  | inl nobody ↦ simp nobody (no_laggers g.players nobody)
  | inr somebody ↦ simp somebody (
      settle-laggers (send_all_chat message (close_lag_screen (dropped env message g)))
        (close_lag_screen (dropped env message g))
        (send_all_chat-settle message (close_lag_screen (dropped env message g)))
      ∙ close_lag_screen-laggers (dropped env message g) (dropped-laggers env message g))
]

-- The game once the player's press has been counted.
abbrev pub voted : ℕ → GameActor → GameActor
voted pid g = record g { players = update_player pid cast_vote g.players }

notify-settle :
    (event : GameEvent) (g h : GameActor)
    → settle g ≡ settle h
    → settle (notify event g) ≡ settle (notify event h)
unfolding settle notify
notify-settle event g h e = ap (λ (x : GameActor). record x { events = x.events ++ event ∷ [] }) e

settle_vote_cases :
    (env : Env) (p : LobbyPlayer) (g : GameActor)
    → ((voters g ≤ votes g * 2) × (any is_lagging (settle_vote env p g).players ≡ false))
      ⊎ ((votes g * 2 < voters g)
          × (settle (settle_vote env p g)
              ≡ settle (notify (drop_request p.name p.spoofed p.spoofed_realm) g)))
unfolding settle_vote
settle_vote_cases env p g = elim (Bool-cases (leb (voters g) (votes g * 2))) [
  | inl half ↦ inl (leb→le (voters g) (votes g * 2) half, simp half (stop_laggers-none env _ _))
  | inr few ↦ inr (
    not_leb (voters g) (votes g * 2) few,
    simp few (notify-settle _ _ g (send_all_chat-settle _ g)),
  )
]
  where
    not_leb : (m n : ℕ) → leb m n ≡ false → n < m
    not_leb m n h = ground arith

first_press :
    (env : Env) (pid : ℕ) (g : GameActor) (p : LobbyPlayer)
    → g.lagging ≡ true
    → get_player pid g.players ≡ some p
    → p.drop_vote ≡ false
    → handle_drop_request env pid g ≡ settle_vote env p (voted pid g)
unfolding handle_drop_request vote_of
first_press env pid g p lag_on found fresh =
    if-false (not g.lagging) _ _ (ap not lag_on)
    ∙ (ap (λ (o : Option LobbyPlayer). vote_of o env pid g) found ∙ if-false p.drop_vote _ _ fresh)

-- A player's first press on an open lag screen counts as a vote. If the votes then make up half of the
-- players who do not lag, nobody who lags is left in the game; if not, the game only notes the vote and
-- asks BotCore about the player, apart from the packets that go out.
pub handle_drop_request_cases :
    (env : Env) (pid : ℕ) (g : GameActor) (p : LobbyPlayer)
    → g.lagging ≡ true
    → get_player pid g.players ≡ some p
    → p.drop_vote ≡ false
    → ((voters (voted pid g) ≤ votes (voted pid g) * 2)
        × (any is_lagging (handle_drop_request env pid g).players ≡ false))
      ⊎ ((votes (voted pid g) * 2 < voters (voted pid g))
          × (settle (handle_drop_request env pid g)
              ≡ settle (notify (drop_request p.name p.spoofed p.spoofed_realm) (voted pid g))))
handle_drop_request_cases env pid g p lag_on found fresh =
    rw (first_press env pid g p lag_on found fresh) (settle_vote_cases env p (voted pid g))
