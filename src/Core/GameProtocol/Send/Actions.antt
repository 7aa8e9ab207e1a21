-- ===== src/Core/GameProtocol/Send/Actions.antt =====
-- The action packets of src/core/gameprotocol.rs, read back as the client reads them, and the size of
-- a batch.
use ghostpp_rs.Prelude.{
  take-append_self, drop-append_self, ℕ, zero, suc, ◌+◌, ◌/◌, ◌%◌, ◌≤◌, ◌≡◌, refl, List, [], ◌∷◌,
  map, arith, length, length-append, take, drop, All, IsU16, u16_from_le, as_u16,
}
use ghostpp_rs.Core.GameProtocol.{IncomingAction, get_length}
use ghostpp_rs.Core.GameProtocol.Send.{incoming_action_subpacket}

-- Pid, 16-bit length and that many bytes, until nothing is left; each round takes three bytes at least.
unfoldable pub read_actions : ℕ → List ℕ → List (ℕ × List ℕ)
read_actions zero bytes = []
read_actions (suc fuel) [] = []
read_actions (suc fuel) (pid ∷ low ∷ high ∷ bytes) =
    (pid, take (u16_from_le low high) bytes) ∷ read_actions fuel (drop (u16_from_le low high) bytes)
read_actions (suc fuel) (pid ∷ bytes) = []

abbrev pub wire_action : IncomingAction → ℕ × List ℕ
wire_action a = (a.pid, a.action)

abbrev pub Fits : IncomingAction → Type 0
Fits a = IsU16 (length a.action)

-- The length that stands before an action.
abbrev wire_length : IncomingAction → ℕ
wire_length a = u16_from_le (as_u16 (length a.action) % 256) (as_u16 (length a.action) / 256 % 256)

-- The client reads from a batch exactly the actions that were queued, in the queue's order, with as
-- many rounds as there are actions.
pub read-incoming_action_subpacket :
    (actions : List IncomingAction) (fuel : ℕ)
    → All Fits actions
    → length actions ≤ fuel
    → read_actions fuel (incoming_action_subpacket actions) ≡ map wire_action actions
unfolding read_actions incoming_action_subpacket
read-incoming_action_subpacket [] zero h f = refl
read-incoming_action_subpacket [] (suc fuel) h f = refl
read-incoming_action_subpacket (a ∷ actions) zero h f = absurd (omega arith)
read-incoming_action_subpacket (a ∷ actions) (suc fuel) h f = ground (
  arith,
  take-append_self (wire_length a) a.action (incoming_action_subpacket actions),
  drop-append_self (wire_length a) a.action (incoming_action_subpacket actions),
  read-incoming_action_subpacket actions fuel h.1,
)

-- The bytes that a batch takes are the sum of the lengths by which the batches are cut.
abbrev pub total_length : List IncomingAction → ℕ
total_length [] = 0
total_length (a ∷ actions) = get_length a + total_length actions

pub length-incoming_action_subpacket :
    (actions : List IncomingAction)
    → length (incoming_action_subpacket actions) ≡ total_length actions
unfolding incoming_action_subpacket get_length
length-incoming_action_subpacket [] = refl
length-incoming_action_subpacket (a ∷ actions) = omega (
  arith,
  length-append a.action (incoming_action_subpacket actions),
  length-incoming_action_subpacket actions,
)
