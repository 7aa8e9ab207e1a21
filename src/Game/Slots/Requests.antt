-- ===== src/Game/Slots/Requests.antt =====
-- src/game/actor.rs: any sequence of the changes that players ask for in the lobby.
use ghostpp_rs.Prelude.{ℕ, List, [], ◌∷◌}
use ghostpp_rs.Game.{GameActor}
use ghostpp_rs.Game.Slots.Changes.{
  swap_slots, change_team, change_colour, change_race, change_handicap,
}
use ghostpp_rs.Game.Slots.Steps.{
  Coloured, swap_slots-IsColoured, change_team-IsColoured, change_colour-IsColoured,
  change_race-IsColoured, change_handicap-IsColoured,
}

-- !swap of two slots by an admin, and the four changes that a player asks for.
pub data LobbyRequest : Type 0 where
  swap : ℕ → ℕ → LobbyRequest
  team : ℕ → ℕ → LobbyRequest
  colour : ℕ → ℕ → LobbyRequest
  race : ℕ → ℕ → LobbyRequest
  handicap : ℕ → ℕ → LobbyRequest

unfoldable pub answer : LobbyRequest → GameActor → GameActor
answer (swap sid1 sid2) g = swap_slots sid1 sid2 g
answer (team pid to) g = change_team pid to g
answer (colour pid to) g = change_colour pid to g
answer (race pid to) g = change_race pid to g
answer (handicap pid to) g = change_handicap pid to g

unfoldable pub answer_all : List LobbyRequest → GameActor → GameActor
answer_all [] g = g
answer_all (r ∷ requests) g = answer_all requests (answer r g)

answer-IsColoured : (r : LobbyRequest) (g : GameActor) → Coloured g → Coloured (answer r g)
unfolding answer
answer-IsColoured (swap sid1 sid2) g d = swap_slots-IsColoured sid1 sid2 g d
answer-IsColoured (team pid to) g d = change_team-IsColoured pid to g d
answer-IsColoured (colour pid to) g d = change_colour-IsColoured pid to g d
answer-IsColoured (race pid to) g d = change_race-IsColoured pid to g d
answer-IsColoured (handicap pid to) g d = change_handicap-IsColoured pid to g d

-- In a lobby where no two slots have one colour (but 12, the colour of observers), that stays so after
-- any sequence of swaps and of requests for a team, a colour, a race or a handicap.
pub answer_all-Coloured :
    (requests : List LobbyRequest) (g : GameActor) → Coloured g → Coloured (answer_all requests g)
unfolding answer_all
answer_all-Coloured [] g d = d
answer_all-Coloured (r ∷ requests) g d =
    answer_all-Coloured requests (answer r g) (answer-IsColoured r g d)
