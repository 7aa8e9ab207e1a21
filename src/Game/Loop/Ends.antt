-- ===== src/Game/Loop/Ends.antt =====
-- src/game/actor.rs: how the loop of GameActor::run goes on and ends.
use ghostpp_rs.Prelude.{
  ◌≡◌, Bool, true, false, ◌&&◌, not, List, [], ◌∷◌, ◌++◌, none, ◌||◌, ◌⊎◌, ◌==◌, Run, ret, panic,
  ◌>>=◌,
}
use ghostpp_rs.Game.{GameActor, GameEvent, Env, GameRecord, GamePlayerRecord, game_ended, deleted}
use ghostpp_rs.Game.Loop.{
  World, LoopEvent, command, released, frame, Outcome, running, over, is_nobody, step,
}
use ghostpp_rs.Core.GameProtocol.{w3gs_chat_to_host}
use ghostpp_rs.Core.GameProtocol.Receive.{receive_w3gs_chat_to_host}
use ghostpp_rs.Game.Commands.{GameCommand, admin_command, close_game, arm_names, find_arm, goes_on}

-- The commands that are answered with false: the end of the game.
unfoldable pub ends_game : GameCommand → Bool
ends_game close_game = true
ends_game (admin_command requester name payload) = not (goes_on (find_arm name arm_names))
ends_game c = false

-- The events that break the loop, whatever the state is.
unfoldable pub is_break : LoopEvent → Bool
is_break (command c) = ends_game c
is_break released = true
is_break e = false

abbrev pub is_panic {ℓ} : {A : Type ℓ} → Run A → Bool
is_panic (ret a) = false
is_panic panic = true

-- The chat packets that the parser panics on.
unfoldable pub is_poison : LoopEvent → Bool
is_poison (frame conn_id id bytes key) =
    id == w3gs_chat_to_host && is_panic (receive_w3gs_chat_to_host bytes)
is_poison e = false

-- The record is that of the game.
unfoldable pub IsToldOf : GameRecord → GameActor → Type 0
IsToldOf told g =
    (told.game_name ≡ g.game_name) × (told.owner_name ≡ g.owner_name) × (told.map ≡ g.map_info.path)

-- A started game whose players have all left: its record and the players' have been handed over ahead of
-- the deletion, and nothing of them and of the replay is left.
pub IsRecorded : GameActor → Type 0
IsRecorded g =
    ((g.started && is_nobody g.players) ≡ true)
    × (g.player_records ≡ [])
    × (g.replay ≡ none)
    × ((es : List GameEvent) × (told : GameRecord) × (players : List GamePlayerRecord) × IsToldOf
          told g
        × (g.events ≡ es ++ game_ended told players ∷ (deleted ∷ [])))

pub IsDeleted : GameActor → Type 0
IsDeleted g = (es : List GameEvent) × (g.events ≡ es ++ deleted ∷ [])

-- What may have become of a game, where `broken` and `poisoned` tell whether an event was a break and
-- whether one was a packet that the parser panics on.
unfoldable pub IsConcluded : Bool → Bool → Run Outcome → Type 0
IsConcluded broken poisoned (ret (running g)) = (g.started && is_nobody g.players) ≡ false
IsConcluded broken poisoned (ret (over g)) = IsRecorded g ⊎ ((broken ≡ true) × IsDeleted g)
IsConcluded broken poisoned panic = poisoned ≡ true

next : World → Env → LoopEvent → Run Outcome → Run Outcome
next w env e outcome =
    outcome >>= (λ o. elim o [ running g ↦ step w env e g | over g ↦ ret (over g) ])

-- Whether one of the events is of the kind, or `before` is.
unfoldable pub ever : (LoopEvent → Bool) → Bool → List (Env × LoopEvent) → Bool
ever kind before [] = before
ever kind before ((env, e) ∷ events) = ever kind (before || kind e) events
