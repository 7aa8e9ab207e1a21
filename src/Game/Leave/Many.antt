-- ===== src/Game/Leave/Many.antt =====
-- src/game/actor.rs: removing several players one after the other (remove_all).
use ghostpp_rs.Prelude.{
  ℕ, ◌≡◌, refl, sym, ap, ◌∙◌, Bool, false, ◌&&◌, not, List, [], ◌∷◌, map, Option, none, inl, inr,
  arith, ◌==◌, any, Option-cases,
}
use ghostpp_rs.Game.{LobbyPlayer, GameActor, Env, get_player, select}
use ghostpp_rs.Game.Hub.{pids_of}
use ghostpp_rs.Game.Hub.Settled.{settle}
use ghostpp_rs.Game.Leave.{remove_from, taken_out, remove_player_with_reason, remove_all}
use ghostpp_rs.Game.Leave.Kept.{
  core_player, core, core-players, remove_player-core, remove_player-absent,
}
use ghostpp_rs.Game.Leave.Removed.{get_player-pid}

-- What no leave and no packet touches: whether the lag screen is up, the beats sent, when the screen
-- opened, and the configured number of empty actions.
unfoldable pub pace : GameActor → Bool × ℕ × ℕ × ℕ
pace g = (g.lagging, g.sync_counter, g.started_lagging_time, g.gproxy_empty_actions)

pub settle-pace : (a b : GameActor) → settle a ≡ settle b → pace a ≡ pace b
unfolding pace settle
settle-pace a b e =
    ap
      (λ (x : GameActor).
        (x.lagging, x.sync_counter, x.started_lagging_time, x.gproxy_empty_actions))
      e

core-pace : (a b : GameActor) → core a ≡ core b → pace a ≡ pace b
unfolding pace core
core-pace a b e =
    ap
      (λ (x : GameActor).
        (x.lagging, x.sync_counter, x.started_lagging_time, x.gproxy_empty_actions))
      e

pub remove_player-pace :
    (env : Env) (pid left_code : ℕ) (reason : Option (List ℕ)) (g : GameActor)
    → pace (remove_player_with_reason env pid left_code reason g) ≡ pace g
remove_player-pace env pid left_code reason g = elim (Option-cases (get_player pid g.players)) [
  | inl absent ↦ ap pace (remove_player-absent env pid left_code reason g absent)
  | inr (p, found) ↦
      core-pace (remove_player_with_reason env pid left_code reason g)
        (taken_out env p left_code reason g) (remove_player-core env pid left_code reason g p found)
      ∙ (unfold pace in unfold taken_out in refl)
]

pub remove_all-pace :
    (env : Env) (left_code : ℕ) (reason : Option (List ℕ)) (pids : List ℕ) (g : GameActor)
    → pace (remove_all env left_code reason pids g) ≡ pace g
unfolding remove_all
remove_all-pace env left_code reason [] g = refl
remove_all-pace env left_code reason (pid ∷ pids) g =
    remove_all-pace env left_code reason pids (remove_player_with_reason env pid left_code reason g)
    ∙ remove_player-pace env pid left_code reason g

-- The players without those of the pids.
unfoldable pub remove_each : List ℕ → List LobbyPlayer → List LobbyPlayer
remove_each [] players = players
remove_each (pid ∷ pids) players = remove_each pids (remove_from pid players)

remove_from-map_core :
    (pid : ℕ) (players : List LobbyPlayer)
    → map core_player (remove_from pid players) ≡ remove_from pid (map core_player players)
unfolding remove_from core_player
remove_from-map_core pid [] = refl
remove_from-map_core pid (p ∷ players) = ground (arith, remove_from-map_core pid players)

remove_each-map_core :
    (pids : List ℕ) (players : List LobbyPlayer)
    → map core_player (remove_each pids players) ≡ remove_each pids (map core_player players)
unfolding remove_each
remove_each-map_core [] players = refl
remove_each-map_core (pid ∷ pids) players =
    remove_each-map_core pids (remove_from pid players)
    ∙ ap (remove_each pids) (remove_from-map_core pid players)

remove_from-absent :
    (pid : ℕ) (players : List LobbyPlayer)
    → get_player pid players ≡ none
    → remove_from pid players ≡ players
unfolding remove_from get_player
remove_from-absent pid [] e = refl
remove_from-absent pid (p ∷ players) e = ground (arith, remove_from-absent pid players)

pub remove_player-players :
    (env : Env) (pid left_code : ℕ) (reason : Option (List ℕ)) (g : GameActor)
    → map core_player (remove_player_with_reason env pid left_code reason g).players
      ≡ map core_player (remove_from pid g.players)
remove_player-players env pid left_code reason g = elim (Option-cases (get_player pid g.players)) [
  | inl absent ↦
      ap (λ (x : GameActor). map core_player x.players)
        (remove_player-absent env pid left_code reason g absent)
      ∙ ap (map core_player) (sym (remove_from-absent pid g.players absent))
  | inr (p, found) ↦
      core-players (remove_player_with_reason env pid left_code reason g)
        (taken_out env p left_code reason g) (remove_player-core env pid left_code reason g p found)
      ∙ (unfold taken_out in
          ap (λ i. map core_player (remove_from i g.players))
            (get_player-pid pid g.players p found))
]

pub remove_all-players :
    (env : Env) (left_code : ℕ) (reason : Option (List ℕ)) (pids : List ℕ) (g : GameActor)
    → map core_player (remove_all env left_code reason pids g).players
      ≡ map core_player (remove_each pids g.players)
unfolding remove_all remove_each
remove_all-players env left_code reason [] g = refl
remove_all-players env left_code reason (pid ∷ pids) g =
    let g' = remove_player_with_reason env pid left_code reason g in
    remove_all-players env left_code reason pids g'
    ∙ (remove_each-map_core pids g'.players
        ∙ (ap (remove_each pids) (remove_player-players env pid left_code reason g)
            ∙ sym (remove_each-map_core pids (remove_from pid g.players))))

-- Whether a player passes the test and is not on the list.
abbrev stays : (LobbyPlayer → Bool) → List ℕ → LobbyPlayer → Bool
stays f pids p = f p && not (any (λ pid. pid == p.pid) pids)

any-remove_from :
    (f : LobbyPlayer → Bool) (pid : ℕ) (pids : List ℕ) (players : List LobbyPlayer)
    → any (stays f (pid ∷ pids)) players ≡ false
    → any (stays f pids) (remove_from pid players) ≡ false
unfolding remove_from
any-remove_from f pid pids [] h = refl
any-remove_from f pid pids (p ∷ players) h = ground (arith, any-remove_from f pid pids players)

any-nobody :
    (f : LobbyPlayer → Bool) (players : List LobbyPlayer)
    → any (stays f []) players ≡ false
    → any f players ≡ false
any-nobody f [] h = refl
any-nobody f (p ∷ players) h = ground (arith, any-nobody f players)

any-remove_each :
    (f : LobbyPlayer → Bool) (pids : List ℕ) (players : List LobbyPlayer)
    → any (stays f pids) players ≡ false
    → any f (remove_each pids players) ≡ false
unfolding remove_each
any-remove_each f [] players h = any-nobody f players h
any-remove_each f (pid ∷ pids) players h =
    any-remove_each f pids (remove_from pid players) (any-remove_from f pid pids players h)

any-more :
    (f : LobbyPlayer → Bool) (pid : ℕ) (pids : List ℕ) (players : List LobbyPlayer)
    → any (stays f pids) players ≡ false
    → any (stays f (pid ∷ pids)) players ≡ false
any-more f pid pids [] h = refl
any-more f pid pids (p ∷ players) h = ground (arith, any-more f pid pids players)

any-select :
    (f : LobbyPlayer → Bool) (players : List LobbyPlayer)
    → any (stays f (pids_of (select f players))) players ≡ false
unfolding select
any-select f [] = refl
any-select f (p ∷ players) =
    let rest = any-select f players in
    ground (arith, any-more f p.pid (pids_of (select f players)) players rest)

-- A test that sees nothing of what `core_player` forgets.
any-core :
    (f : LobbyPlayer → Bool) (players : List LobbyPlayer)
    → ((p : LobbyPlayer) → f (core_player p) ≡ f p)
    → any f (map core_player players) ≡ any f players
any-core f [] blind = refl
any-core f (p ∷ players) blind = rw (blind p, any-core f players blind) refl

-- Once the players who pass a test are removed, nobody is left who passes it.
pub remove_all-any :
    (f : LobbyPlayer → Bool)
    → ((p : LobbyPlayer) → f (core_player p) ≡ f p)
    → (env : Env) (left_code : ℕ) (reason : Option (List ℕ)) (g : GameActor)
    → any f (remove_all env left_code reason (pids_of (select f g.players)) g).players ≡ false
remove_all-any f blind env left_code reason g =
    let pids = pids_of (select f g.players) in
    sym (any-core f (remove_all env left_code reason pids g).players blind)
    ∙ (ap (any f) (remove_all-players env left_code reason pids g)
        ∙ (any-core f (remove_each pids g.players) blind
            ∙ any-remove_each f pids g.players (any-select f g.players)))
