-- ===== src/Core/Replay/Blocks.antt =====
-- src/core/replay.rs: the recorded blocks, read back as a replay viewer reads them.
use ghostpp_rs.Prelude.{
  ℕ, zero, suc, ◌+◌, ◌-◌, List, [], ◌∷◌, length, take, drop, All, IsU16, IsU32, u16_from_le,
  u32_from_le, get_or, Option, none, some, ◌==◌, if◌then◌else◌, false,
}
use ghostpp_rs.Core.GameProtocol.Send.Actions.{read_actions}
use ghostpp_rs.Core.Replay.{
  ReplayRecorder, slot_actions, add_time_slot, add_time_slot2, add_chat, add_leave,
}

-- The calls of the recorder while the game runs, with their arguments.
pub data ReplayEvent : Type 0 where
  time_slot : ℕ → List (ℕ × List ℕ) → ReplayEvent
  time_slot2 : List (ℕ × List ℕ) → ReplayEvent
  chat : ℕ → ℕ → ℕ → List ℕ → ReplayEvent
  leave : ℕ → ℕ → ReplayEvent

unfoldable pub record_event : ReplayEvent → ReplayRecorder → ReplayRecorder
record_event (time_slot time_increment actions) r = add_time_slot time_increment actions r
record_event (time_slot2 actions) r = add_time_slot2 actions r
record_event (chat pid flag chat_mode message) r = add_chat pid flag chat_mode message r
record_event (leave pid result) r = add_leave pid result false r

unfoldable pub record_all : List ReplayEvent → ReplayRecorder → ReplayRecorder
record_all [] r = r
record_all (e ∷ events) r = record_all events (record_event e r)

-- One block: its id, its length where it has one, and its fields.
unfoldable pub read_block : List ℕ → Option (ReplayEvent × List ℕ)
read_block bytes =
    let id = get_or bytes 0 0 in
    let n = u16_from_le (get_or bytes 1 0) (get_or bytes 2 0) in
    let m = u16_from_le (get_or bytes 2 0) (get_or bytes 3 0) in
    let actions = read_actions n (take (n - 2) (drop 5 bytes)) in
    if id == 0x1F
    then some
        (time_slot (u16_from_le (get_or bytes 3 0) (get_or bytes 4 0)) actions, drop (3 + n) bytes)
    else if id == 0x1E
    then some (time_slot2 actions, drop (3 + n) bytes)
    else if id == 0x20
    then some (
      chat (get_or bytes 1 0) (get_or bytes 4 0)
          (u32_from_le (get_or bytes 5 0) (get_or bytes 6 0) (get_or bytes 7 0) (get_or bytes 8 0))
          (take (m - 6) (drop 9 bytes)),
      drop (4 + m) bytes,
    )
    else if id == 0x17
    then some (
      leave (get_or bytes 5 0)
          (u32_from_le (get_or bytes 6 0) (get_or bytes 7 0) (get_or bytes 8 0) (get_or bytes 9 0)),
      drop 14 bytes,
    )
    else none

unfoldable pub read_blocks : ℕ → List ℕ → List ReplayEvent
read_blocks zero bytes = []
read_blocks (suc n) bytes = elim (read_block bytes) [
  | none ↦ []
  | some (e, rest) ↦ e ∷ read_blocks n rest
]

abbrev pub Fits : ℕ × List ℕ → Type 0
Fits a = IsU16 (length a.1)

-- The arguments that the fields of a block can hold.
abbrev pub IsEvent : ReplayEvent → Type 0
IsEvent (time_slot time_increment actions) =
    IsU16 time_increment × All Fits actions × IsU16 (length (slot_actions actions) + 2)
IsEvent (time_slot2 actions) = All Fits actions × IsU16 (length (slot_actions actions) + 2)
IsEvent (chat pid flag chat_mode message) = IsU32 chat_mode × IsU16 (length message + 6)
IsEvent (leave pid result) = IsU32 result

abbrev pub duration : List ReplayEvent → ℕ
duration [] = 0
duration (time_slot time_increment actions ∷ events) = time_increment + duration events
duration (time_slot2 actions ∷ events) = duration events
duration (chat pid flag chat_mode message ∷ events) = duration events
duration (leave pid result ∷ events) = duration events
