-- ===== src/Game/Slots.antt =====
-- src/game/actor.rs: the slots of the lobby and the changes that players ask for.
pub mod Changes
pub mod Colours
pub mod Steps
pub mod Pids
pub mod Requests
use Prim.Native.Nat.{bit_and, bit_or}
use ghostpp_rs.Prelude.{
  ℕ, zero, suc, ◌+◌, ◌-◌, ◌%◌, Bool, true, false, ◌&&◌, ◌||◌, not, List, [], ◌∷◌, ◌++◌, Option,
  none, some, ltb, leb, ◌==◌, if◌then◌else◌, length, any, set, get_or,
}
use ghostpp_rs.Core.GameSlot.{
  GameSlot, default_slot, slotstatus_open, slotstatus_occupied, max_slots, slotrace_human,
  slotrace_orc, slotrace_nightelf, slotrace_undead, slotrace_random, slotrace_selectable,
}
use ghostpp_rs.Game.{LobbyPlayer, GameActor}
use ghostpp_rs.Game.Hub.{send_all_slot_info}

abbrev pub mapopt_fixedplayersettings : ℕ
mapopt_fixedplayersettings = 32

abbrev pub mapflag_randomraces : ℕ
mapflag_randomraces = 16

abbrev pub mapobs_allowed : ℕ
mapobs_allowed = 3

abbrev pub mapobs_referees : ℕ
mapobs_referees = 4

abbrev pub mapopt_customforces : ℕ
mapopt_customforces = 64

-- `iter().position(...)`.
unfoldable pub position : (GameSlot → Bool) → List GameSlot → Option ℕ
position p [] = none
position p (s ∷ slots) =
    let rest = position p slots in
    if p s then some 0 else elim rest [ none ↦ none | some i ↦ some (suc i) ]

abbrev pub slot_at : List GameSlot → ℕ → GameSlot
slot_at slots i = get_or slots i default_slot

unfoldable pub slot_index_of_pid : ℕ → GameActor → Option ℕ
slot_index_of_pid pid g = position (λ s. s.pid == pid) g.slots

unfoldable pub empty_slot : GameActor → Option ℕ
empty_slot g = position (λ s. (s.slot_status == slotstatus_open) && (s.computer == 0)) g.slots

-- The first of the numbers that passes the test.
unfoldable pub find : (ℕ → Bool) → List ℕ → Option ℕ
find p [] = none
find p (n ∷ ns) = if p n then some n else find p ns

abbrev pub pids : List ℕ
pids = 1 ∷ 2 ∷ 3 ∷ 4 ∷ 5 ∷ 6 ∷ 7 ∷ 8 ∷ 9 ∷ 10 ∷ 11 ∷ 12 ∷ []

unfoldable pub new_pid : GameActor → Option ℕ
new_pid g =
    find (λ pid. not (pid == g.virtual_host_pid) && not (any (λ p. p.pid == pid) g.players)) pids

abbrev pub colours : List ℕ
colours = 0 ∷ 1 ∷ 2 ∷ 3 ∷ 4 ∷ 5 ∷ 6 ∷ 7 ∷ 8 ∷ 9 ∷ 10 ∷ 11 ∷ []

abbrev pub is_unused : List GameSlot → ℕ → Bool
is_unused slots test = not (any (λ s. s.colour == test) slots)

abbrev pub or_max_slots : Option ℕ → ℕ
or_max_slots none = max_slots
or_max_slots (some test) = test

unfoldable pub get_new_colour : List GameSlot → ℕ
get_new_colour slots = or_max_slots (find (is_unused slots) colours)

-- `n` slots from `start + k` on, around the end of the list.
unfoldable pub search_team : List GameSlot → ℕ → ℕ → ℕ → ℕ → Option ℕ
search_team slots team start k zero = none
search_team slots team start k (suc n) =
    let i = (start + k) % length slots in
    let rest = search_team slots team start (suc k) n in
    if (slot_at slots i).slot_status == slotstatus_open && (slot_at slots i).team == team
    then some i
    else rest

unfoldable pub get_empty_slot_on_team : ℕ → ℕ → GameActor → Option ℕ
get_empty_slot_on_team team pid g = elim (slot_index_of_pid pid g) [
  | none ↦ search_team g.slots team 0 0 (length g.slots)
  | some s ↦
      search_team g.slots team (if (slot_at g.slots s).team == team then s else 0) 0
        (length g.slots)
]

abbrev pub has_flag : ℕ → ℕ → Bool
has_flag bits flag = not (bit_and bits flag == 0)
