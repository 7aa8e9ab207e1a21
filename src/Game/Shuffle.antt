-- ===== src/Game/Shuffle.antt =====
-- src/game/actor.rs: shuffle_players, which spreads the players over the slots that they occupy. The
-- random numbers are an argument: `random i` is drawn in the round for the index `i`.
pub mod Shuffled
use ghostpp_rs.Prelude.{
  ℕ, zero, suc, ◌+◌, ◌-◌, ◌%◌, Bool, ◌&&◌, List, [], ◌∷◌, ◌==◌, if◌then◌else◌, length, get_or, set,
}
use ghostpp_rs.Core.GameSlot.{GameSlot, slotstatus_occupied}
use ghostpp_rs.Game.{GameActor}
use ghostpp_rs.Game.Hub.{send_all_slot_info}

-- What moves with a player: the pid and the download status.
abbrev pub Seat : Type 0
Seat = ℕ × ℕ

abbrev pub nobody : Seat
nobody = (0, 0)

abbrev pub is_seated : GameSlot → Bool
is_seated s = s.slot_status == slotstatus_occupied && s.computer == 0

unfoldable pub seats : List GameSlot → List Seat
seats [] = []
seats (s ∷ slots) =
    let rest = seats slots in if is_seated s then (s.pid, s.download_status) ∷ rest else rest

-- `movable.swap(i, j)`.
unfoldable pub swap_at : ℕ → ℕ → List Seat → List Seat
swap_at i j xs = set (set xs i (get_or xs j nobody)) j (get_or xs i nobody)

-- The rounds for the indices from `i` down to 1.
unfoldable pub fisher_yates : (ℕ → ℕ) → ℕ → List Seat → List Seat
fisher_yates random zero xs = xs
fisher_yates random (suc i) xs =
    fisher_yates random i (swap_at (suc i) (random (suc i) % (suc i + 1)) xs)

-- The seats go back into the occupied slots, in order.
unfoldable pub refill : List GameSlot → List Seat → List GameSlot
refill [] xs = []
refill (s ∷ slots) [] = s ∷ refill slots []
refill (s ∷ slots) (x ∷ xs) =
    if is_seated s
    then record s { pid = x.0; download_status = x.1 } ∷ refill slots xs
    else s ∷ refill slots (x ∷ xs)

unfoldable pub shuffled : (ℕ → ℕ) → List GameSlot → List GameSlot
shuffled random slots = refill slots (fisher_yates random (length (seats slots) - 1) (seats slots))

unfoldable pub shuffle_players : (ℕ → ℕ) → GameActor → GameActor
shuffle_players random g =
    if g.started then g else send_all_slot_info (record g { slots = shuffled random g.slots })
