-- ===== src/Game/Start.antt =====
-- src/game/actor.rs: from the lobby to the loading screen (maybe_autostart, start_countdown,
-- tick_countdown, event_game_started) with the mode string that the slots' handicaps carry to the map.
-- The number of players that !autostart sets takes the place of the configured one.
pub mod Handicaps
pub mod Hcl
pub mod Launch
mod Runs
use Prim.Native.Nat.{bit_or}
use Prim.Native.String.{String}
use ghostpp_rs.Prelude.{
  ℕ, zero, suc, ◌+◌, ◌-◌, ◌*◌, ◌/◌, ◌%◌, ◌^◌, Bool, true, false, ◌&&◌, ◌||◌, not, List, [], ◌∷◌,
  ◌++◌, map, Option, none, some, ltb, ◌==◌, if◌then◌else◌, any, length, get_or,
}
use ghostpp_rs.Prelude.Text.{codes, decimal}
use ghostpp_rs.Lang.{t}
use ghostpp_rs.Util.{util_encode_stat_string}
use ghostpp_rs.Core.GameSlot.{GameSlot, slotstatus_occupied}
use ghostpp_rs.Core.GameProtocol.Receive.{is_empty}
use ghostpp_rs.Core.GameProtocol.Send.{send_w3gs_countdown_start, send_w3gs_countdown_end}
use ghostpp_rs.Core.Replay.{ReplayRecorder}
use ghostpp_rs.Core.Replay
use ghostpp_rs.Game.{LobbyPlayer, GameActor, MapInfo, game_started, Env, get_player}
use ghostpp_rs.Game.Hub.{send_all, send_all_slot_info}
use ghostpp_rs.Game.Downloads.{is_downloading, least_pid}
use ghostpp_rs.Game.Slots.{slot_at, slot_index_of_pid}
use ghostpp_rs.Game.Chat.{send_all_chat}
use ghostpp_rs.Game.VirtualHost.{delete_virtual_host}
use ghostpp_rs.Game.Leave.{notify}

abbrev pub hcl_allowed_chars : List ℕ
hcl_allowed_chars = codes "abcdefghijklmnopqrstuvwxyz0123456789 -=,."

-- The position of a character, and the length of the list without it.
unfoldable pub index_of : ℕ → List ℕ → ℕ
index_of c [] = 0
index_of c (d ∷ ds) = let rest = index_of c ds in if d == c then 0 else suc rest

abbrev pub is_allowed : ℕ → Bool
is_allowed c = any (λ d. d == c) hcl_allowed_chars

unfoldable pub all_allowed : List ℕ → Bool
all_allowed [] = true
all_allowed (c ∷ cs) = is_allowed c && all_allowed cs

-- The handicaps that a player can choose.
abbrev pub valid_handicaps : List ℕ
valid_handicaps = 0 ∷ 50 ∷ 60 ∷ 70 ∷ 80 ∷ 90 ∷ 100 ∷ []

abbrev pub is_valid_handicap : ℕ → Bool
is_valid_handicap j = any (λ v. v == j) valid_handicaps

-- The loop that fills `n` entries from the number `j` on.
unfoldable pub encoding_from : ℕ → ℕ → List ℕ
encoding_from zero j = []
encoding_from (suc n) j =
    let e = if is_valid_handicap j then suc j else j in e % 256 ∷ encoding_from n (suc e)

unfoldable pub encoding_map : List ℕ
encoding_map = encoding_from 256 0

-- The index is below 256 for a handicap of at most 100 and one of the 41 characters.
unfoldable pub encode_handicap : ℕ → ℕ → ℕ
encode_handicap c handicap =
    get_or encoding_map ((handicap - 50) / 10 + index_of c hcl_allowed_chars * 6) 0

abbrev pub is_occupied : GameSlot → Bool
is_occupied s = s.slot_status == slotstatus_occupied

-- The loop over the characters; each takes the next occupied slot.
unfoldable pub encode_hcl : List ℕ → List GameSlot → List GameSlot
encode_hcl [] slots = slots
encode_hcl (c ∷ cs) [] = []
encode_hcl (c ∷ cs) (s ∷ slots) =
    let taken = encode_hcl cs slots in
    let passed = encode_hcl (c ∷ cs) slots in
    if is_occupied s
    then record s { handicap = encode_handicap c s.handicap } ∷ taken
    else s ∷ passed

unfoldable pub count_occupied : List GameSlot → ℕ
count_occupied [] = 0
count_occupied (s ∷ slots) =
    let rest = count_occupied slots in if is_occupied s then suc rest else rest

-- The mode string that is too long or has a foreign character is not encoded.
unfoldable pub with_hcl : List ℕ → List GameSlot → List GameSlot
with_hcl hcl slots =
    if ltb (count_occupied slots) (length hcl) || not (all_allowed hcl)
    then slots
    else encode_hcl hcl slots

abbrev pub mapgametype_unknown0 : ℕ
mapgametype_unknown0 = 1

abbrev pub mapgametype_privategame : ℕ
mapgametype_privategame = 2048

unfoldable pub stat_string_of : MapInfo → List ℕ
stat_string_of m = util_encode_stat_string (
    m.game_flags
    ++ (0 ∷ m.width
        ++ (m.height ++ (m.crc ++ (m.path ++ (0 ∷ codes "GHost++" ++ (0 ∷ 0 ∷ m.sha1)))))))

-- The player with the smallest pid, and the virtual host's name without players.
unfoldable pub replay_host : Option LobbyPlayer → GameActor → ℕ × List ℕ
replay_host none g = (1, g.virtual_host_name)
replay_host (some p) g = (p.pid, p.name)

unfoldable pub new_replay : GameActor → ReplayRecorder
new_replay g =
    let host = replay_host (get_player (least_pid g.players) g.players) g in
    let game_type = bit_or g.map_info.game_type mapgametype_unknown0 in
    Replay.new host.0 host.1 (map (λ p. (p.pid, p.name)) g.players) g.slots g.random_seed
      g.map_layout_style (g.map_num_players % 256)
      (if g.game_private then bit_or game_type mapgametype_privategame else game_type) g.game_name
      (stat_string_of g.map_info)

-- The state before the first packet of the start.
unfoldable pub prepared : GameActor → GameActor
prepared g =
    let g' = record g { started = true; slots = with_hcl g.hcl_string g.slots } in
    if g.save_replays then record g' { replay = some (new_replay g') } else g'

unfoldable pub event_game_started : Env → GameActor → GameActor
event_game_started env g =
    if g.started
    then g
    else let counted = send_all send_w3gs_countdown_start (send_all_slot_info (prepared g)) in
      let ended = send_all send_w3gs_countdown_end (delete_virtual_host counted) in
      notify game_started (record ended { game_loading = true; start_loading_ticks = env.ticks })

unfoldable pub start_countdown : Env → GameActor → GameActor
start_countdown env g =
    if g.started || not (elim g.countdown [ none ↦ true | some n ↦ false ])
    then g
    else if any is_downloading g.players
    then send_all_chat (t env.catalog "countdown_downloading" []) g
    else record g { countdown = some 5 }

-- A second of the countdown, if one runs.
unfoldable pub count : Option ℕ → Env → GameActor → GameActor
count none env g = g
count (some zero) env g = event_game_started env (record g { countdown = none })
count (some (suc c)) env g = record (send_all_chat (decimal (suc c) ++ codes ". . .") g) {
  countdown = some c;
}

unfoldable pub tick_countdown : Env → GameActor → GameActor
tick_countdown env g = count g.countdown env g

-- Whether the slot of the player with the pid shows a complete map.
unfoldable pub is_ready : GameActor → LobbyPlayer → Bool
is_ready g p = elim (slot_index_of_pid p.pid g) [
  | none ↦ false
  | some sid ↦ (slot_at g.slots sid).download_status == 100
]

unfoldable pub maybe_autostart : Env → GameActor → GameActor
maybe_autostart env g =
    let n : ℕ = elim g.autostart_override [ none ↦ g.autostart_players | some m ↦ m ] in
    if (n == 0 || g.started)
      || (not (elim g.countdown [ none ↦ true | some c ↦ false ]) || ltb (length g.players) n)
    then g
    else if any (λ p. not (is_ready g p)) g.players
    then g
    else start_countdown env
        (send_all_chat (t env.catalog "autostart_full" ((codes "count", decimal n) ∷ [])) g)
