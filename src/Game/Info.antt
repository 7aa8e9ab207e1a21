-- ===== src/Game/Info.antt =====
-- src/game/actor.rs: the arms of handle_admin_command that tell of the players: check, from and ping,
-- with the players that a ping threshold removes.
use ghostpp_rs.Prelude.{
  ℕ, ◌+◌, ◌-◌, ◌/◌, ◌%◌, ◌^◌, Bool, List, [], ◌∷◌, ◌++◌, map, Option, none, some, ltb, ◌==◌,
  if◌then◌else◌, length,
}
use ghostpp_rs.Prelude.Text.{codes, decimal}
use ghostpp_rs.Prelude.Words.{parse}
use ghostpp_rs.Lang.{t}
use ghostpp_rs.Core.GameProtocol.{playerleave_lobby}
use ghostpp_rs.Core.GameProtocol.Receive.{is_empty}
use ghostpp_rs.Game.{LobbyPlayer, GameActor, Env}
use ghostpp_rs.Game.Chat.{send_all_chat}
use ghostpp_rs.Game.Leave.{remove_player}
use ghostpp_rs.Game.Join.{has_name}
use ghostpp_rs.Game.Mutes.{reply_to}

-- `players.values().find` of a name, whatever the case of its ASCII letters.
unfoldable pub find_named : List ℕ → List LobbyPlayer → Option LobbyPlayer
find_named name [] = none
find_named name (p ∷ players) =
    let rest = find_named name players in if has_name name p then some p else rest

unfoldable pub sum : List ℕ → ℕ
sum [] = 0
sum (n ∷ ns) = n + sum ns

-- The average of a u32's sum.
unfoldable pub player_ping_ms : Bool → LobbyPlayer → Option ℕ
player_ping_ms lc_pings p =
    let avg = sum p.pings % 2 ^ 32 / length p.pings in
    if length p.pings == 0 then none else some (if lc_pings then avg / 2 else avg)

-- `[String]::join` with ", ".
unfoldable pub joined : List (List ℕ) → List ℕ
joined [] = []
joined (word ∷ []) = word
joined (word ∷ (next ∷ words)) = word ++ (codes ", " ++ joined (next ∷ words))

unfoldable pub ping_text : Option ℕ → List ℕ
ping_text none = codes "-"
ping_text (some ms) = decimal ms ++ codes "ms"

abbrev pub dash_for_empty : List ℕ → List ℕ
dash_for_empty text = if is_empty text then codes "-" else text

unfoldable pub check_text : Env → List ℕ → Option LobbyPlayer → Bool → List ℕ
check_text env target none lc_pings =
    t env.catalog "player_not_found_named" ((codes "name", target) ∷ [])
check_text env target (some p) lc_pings = t env.catalog "player_check_info" (
    (codes "name", p.name)
    ∷ (codes "ping", ping_text (player_ping_ms lc_pings p))
    ∷ (codes "spoofed", if p.spoofed then codes "yes" else codes "no")
    ∷ (codes "realm", dash_for_empty p.spoofed_realm)
    ∷ [])

unfoldable pub check_command : Env → Option ℕ → List ℕ → GameActor → GameActor
check_command env req target g =
    reply_to req (check_text env target (find_named target g.players) g.lc_pings) g

unfoldable pub from_command : Env → Option ℕ → GameActor → GameActor
from_command env req g =
    let list = joined (map (λ p. p.name ++ (codes ": " ++ (g.peers p.handle).text)) g.players) in
    reply_to req (t env.catalog "players_from" ((codes "list", list) ∷ [])) g

-- The players over the threshold, with their pings, before the first of them is removed.
unfoldable pub over_ping : Bool → ℕ → List LobbyPlayer → List (LobbyPlayer × ℕ)
over_ping lc_pings threshold [] = []
over_ping lc_pings threshold (p ∷ players) =
    let rest = over_ping lc_pings threshold players in
    elim (player_ping_ms lc_pings p) [
      | none ↦ rest
      | some ms ↦ if ltb threshold ms then (p, ms) ∷ rest else rest
    ]

unfoldable pub kick_over : Env → List (LobbyPlayer × ℕ) → GameActor → GameActor
kick_over env [] g = g
kick_over env ((p, ms) ∷ over) g =
    let vars = (codes "name", p.name) ∷ (codes "ping", decimal ms) ∷ [] in
    kick_over env over (
      remove_player env p.pid playerleave_lobby
        (send_all_chat (t env.catalog "ping_kicked" vars) g))

unfoldable pub ping_command : Env → Option ℕ → List ℕ → GameActor → GameActor
ping_command env req arg g = elim (parse (2 ^ 32 - 1) arg) [
  | some threshold ↦ kick_over env (over_ping g.lc_pings threshold g.players) g
  | none ↦
      let pings =
        map (λ p. p.name ++ (codes ": " ++ ping_text (player_ping_ms g.lc_pings p))) g.players in
      reply_to req (t env.catalog "ping_list" ((codes "list", joined pings) ∷ [])) g
]
