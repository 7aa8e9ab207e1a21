-- ===== src/Game/Desync.antt =====
-- src/game/actor.rs: check_desync, which compares the players' checksums turn by turn and drops the
-- minority. The checksums of a round are put into groups; a HashMap gives them in any order, which is the
-- argument `iteration`. note_desync_change only limits the log and keeps its counter.
pub mod Load
pub mod Ends
mod Runs
use Prim.Native.String.{String}
use ghostpp_rs.Prelude.{
  ◌%◌, ◌^◌, ℕ, zero, suc, ◌+◌, ◌-◌, Bool, true, false, ◌&&◌, ◌||◌, not, List, [], ◌∷◌, ◌++◌, map,
  Option, none, some, ltb, leb, ◌==◌, if◌then◌else◌, length, drop,
}
use ghostpp_rs.Prelude.Text.{codes, decimal}
use ghostpp_rs.Lang.{t}
use ghostpp_rs.Core.GameProtocol.{playerleave_lost}
use ghostpp_rs.Core.GameProtocol.Receive.{is_empty}
use ghostpp_rs.Game.{LobbyPlayer, GameActor, Env}
use ghostpp_rs.Game.Hub.{pids_of}
use ghostpp_rs.Game.Chat.{send_all_chat}
use ghostpp_rs.Game.Leave.{remove_all}

abbrev pub desync_history : ℕ
desync_history = 48

-- What one player reports for a turn: the checksum, the pid and the name.
pub record Report : Type 0 where
  pub checksum : ℕ
  pub pid : ℕ
  pub name : List ℕ

-- The players who report one game state.
pub record Group : Type 0 where
  pub checksum : ℕ
  pub members : List Report

-- Whether every player has a checksum pending.
unfoldable pub all_pending : List LobbyPlayer → Bool
all_pending [] = true
all_pending (p ∷ players) = not (is_empty p.checksums) && all_pending players

unfoldable pub report_of : List ℕ → LobbyPlayer → List Report
report_of [] p = []
report_of (c ∷ checksums) p = record { checksum = c; pid = p.pid; name = p.name } ∷ []

unfoldable pub reports_of : List LobbyPlayer → List Report
reports_of [] = []
reports_of (p ∷ players) = report_of p.checksums p ++ reports_of players

unfoldable pub pop_checksum : LobbyPlayer → LobbyPlayer
pop_checksum p = record p { checksums = drop 1 p.checksums }

unfoldable pub all_report : ℕ → List Report → Bool
all_report c [] = true
all_report c (r ∷ reports) = r.checksum == c && all_report c reports

-- `bins.entry(checksum).or_default().push(...)`.
unfoldable pub bin : Report → List Group → List Group
bin r [] = record { checksum = r.checksum; members = r ∷ [] } ∷ []
bin r (group ∷ groups) =
    let rest = bin r groups in
    if group.checksum == r.checksum
    then record group { members = group.members ++ r ∷ [] } ∷ groups
    else group ∷ rest

unfoldable pub bins : List Report → List Group → List Group
bins [] groups = groups
bins (r ∷ reports) groups = bins reports (bin r groups)

-- The stable sort by size, the largest group first.
unfoldable pub insert_group : Group → List Group → List Group
insert_group x [] = x ∷ []
insert_group x (y ∷ groups) =
    let rest = insert_group x groups in
    if leb (length y.members) (length x.members) then x ∷ y ∷ groups else y ∷ rest

unfoldable pub sort_groups : List Group → List Group
sort_groups [] = []
sort_groups (x ∷ groups) = insert_group x (sort_groups groups)

unfoldable pub members_of : List Group → List Report
members_of [] = []
members_of (group ∷ groups) = group.members ++ members_of groups

-- `join(", ")`.
unfoldable pub join_names : List (List ℕ) → List ℕ
join_names [] = []
join_names (name ∷ []) = name
join_names (name ∷ next ∷ names) = name ++ (codes ", " ++ join_names (next ∷ names))

abbrev pub names_of : List Report → List (List ℕ)
names_of reports = map (λ r. r.name) reports

-- The order of strings by their bytes.
unfoldable pub name_le : List ℕ → List ℕ → Bool
name_le [] ys = true
name_le (x ∷ xs) [] = false
name_le (x ∷ xs) (y ∷ ys) = ltb x y || (x == y && name_le xs ys)

unfoldable pub insert_name : List ℕ → List (List ℕ) → List (List ℕ)
insert_name x [] = x ∷ []
insert_name x (y ∷ names) =
    let rest = insert_name x names in if name_le x y then x ∷ y ∷ names else y ∷ rest

unfoldable pub sort_names : List (List ℕ) → List (List ℕ)
sort_names [] = []
sort_names (x ∷ names) = insert_name x (sort_names names)

-- The last `desync_history` checksums.
unfoldable pub push_recent : ℕ → List ℕ → List ℕ
push_recent c recent = let longer = recent ++ c ∷ [] in drop (length longer - desync_history) longer

unfoldable pub note_desync_change : GameActor → GameActor
note_desync_change g = record g { desync_reports = (g.desync_reports + 1) % 2 ^ 32 }

unfoldable pub agree : ℕ → GameActor → GameActor
agree c g =
    let g' = record g { recent_checksums = push_recent c g.recent_checksums } in
    if is_empty g.desynced then g' else note_desync_change (record g' { desynced = [] })

unfoldable pub tell_groups : Env → ℕ → List Group → GameActor → GameActor
tell_groups env number [] g = g
tell_groups env number (group ∷ groups) g = tell_groups env (suc number) groups (
    send_all_chat
      (t env.catalog "desync_state_group" (
        (codes "number", decimal number)
        ∷ (codes "names", join_names (names_of group.members))
        ∷ []))
      g)

unfoldable pub is_tied : List Group → Bool
is_tied (x ∷ y ∷ groups) = length x.members == length y.members
is_tied (x ∷ []) = false
is_tied [] = false

unfoldable pub drop_minority : Env → List Group → GameActor → GameActor
drop_minority env groups g =
    if is_tied groups
    then remove_all env playerleave_lost none (pids_of g.players)
        (send_all_chat (t env.catalog "desync_tie" []) g)
    else remove_all env playerleave_lost none (map (λ r. r.pid) (members_of (drop 1 groups))) (
        send_all_chat
          (t env.catalog "desync_dropped"
            ((codes "names", join_names (names_of (members_of (drop 1 groups)))) ∷ []))
          g)

unfoldable pub disagree : Env → List Group → GameActor → GameActor
disagree env groups g =
    let noted = note_desync_change (record g {
      desynced = sort_names (names_of (members_of (drop 1 groups)));
      desync_started_turn = g.checksum_turn;
    }) in
    drop_minority env groups (
      tell_groups env 1 groups (
        send_all_chat (t env.catalog "desync_detected" []) (record noted { desync_warned = true })))

-- The players' checksums have been popped, and a turn more has been compared.
unfoldable pub next_turn : GameActor → GameActor
next_turn g = record g {
  players = map pop_checksum g.players;
  checksum_turn = (g.checksum_turn + 1) % 2 ^ 32;
}

-- How many checksums are pending.
unfoldable pub pending : List LobbyPlayer → ℕ
pending [] = 0
pending (p ∷ players) = length p.checksums + pending players

module _ (iteration : List Group → List Group) where
  unfoldable pub compare_round : Env → List Report → GameActor → GameActor
  compare_round env [] g = g
  compare_round env (first ∷ reports) g =
      if all_report first.checksum (first ∷ reports)
      then agree first.checksum g
      else disagree env (sort_groups (iteration (bins (first ∷ reports) []))) g

  unfoldable pub compare_rounds : ℕ → Env → GameActor → GameActor
  compare_rounds zero env g = g
  compare_rounds (suc fuel) env g =
      let rest = compare_rounds fuel env (compare_round env (reports_of g.players) (next_turn g)) in
      if not (is_empty g.players) && all_pending g.players then rest else g

  -- Every round takes a checksum from every player.
  unfoldable pub check_desync : Env → GameActor → GameActor
  check_desync env g = compare_rounds (pending g.players) env g
