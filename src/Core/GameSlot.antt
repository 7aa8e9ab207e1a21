-- ===== src/Core/GameSlot.antt =====
-- src/core/gameslot.rs: one slot of the lobby, and its nine bytes on the wire.
pub mod Wire
use ghostpp_rs.Prelude.{ℕ, Bool, List, [], ◌∷◌, leb, if◌then◌else◌, length, get_or, IsByte}

abbrev pub slotstatus_open : ℕ
slotstatus_open = 0

abbrev pub slotstatus_closed : ℕ
slotstatus_closed = 1

abbrev pub slotstatus_occupied : ℕ
slotstatus_occupied = 2

abbrev pub slotrace_human : ℕ
slotrace_human = 1

abbrev pub slotrace_orc : ℕ
slotrace_orc = 2

abbrev pub slotrace_nightelf : ℕ
slotrace_nightelf = 4

abbrev pub slotrace_undead : ℕ
slotrace_undead = 8

abbrev pub slotrace_random : ℕ
slotrace_random = 32

abbrev pub slotrace_selectable : ℕ
slotrace_selectable = 64

abbrev pub slotcomp_normal : ℕ
slotcomp_normal = 1

abbrev pub max_slots : ℕ
max_slots = 12

pub record GameSlot : Type 0 where
  pub pid : ℕ
  pub download_status : ℕ
  pub slot_status : ℕ
  pub computer : ℕ
  pub team : ℕ
  pub colour : ℕ
  pub race : ℕ
  pub computer_type : ℕ
  pub handicap : ℕ

abbrev pub default_slot : GameSlot
default_slot = record {
  pid = 0;
  download_status = 0;
  slot_status = slotstatus_open;
  computer = 0;
  team = 0;
  colour = 1;
  race = slotrace_random;
  computer_type = slotcomp_normal;
  handicap = 0;
}

unfoldable pub new_from_array : List ℕ → GameSlot
new_from_array value =
    if leb 7 (length value)
    then record {
      pid = get_or value 0 0;
      download_status = get_or value 1 0;
      slot_status = get_or value 2 0;
      computer = get_or value 3 0;
      team = get_or value 4 0;
      colour = get_or value 5 0;
      race = get_or value 6 0;
      computer_type = if leb 8 (length value) then get_or value 7 0 else slotcomp_normal;
      handicap = if leb 9 (length value) then get_or value 8 0 else 0;
    }
    else default_slot

unfoldable pub get_byte_array : GameSlot → List ℕ
get_byte_array s =
    s.pid ∷ s.download_status ∷ s.slot_status ∷ s.computer ∷ s.team ∷ s.colour ∷ s.race
    ∷ s.computer_type ∷ s.handicap ∷ []

-- Each field is a `u8`.
pub record IsSlot (s : GameSlot) : Type 0 where
  pub pid_byte : IsByte s.pid
  pub download_status_byte : IsByte s.download_status
  pub slot_status_byte : IsByte s.slot_status
  pub computer_byte : IsByte s.computer
  pub team_byte : IsByte s.team
  pub colour_byte : IsByte s.colour
  pub race_byte : IsByte s.race
  pub computer_type_byte : IsByte s.computer_type
  pub handicap_byte : IsByte s.handicap
