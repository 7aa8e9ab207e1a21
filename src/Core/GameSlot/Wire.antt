-- ===== src/Core/GameSlot/Wire.antt =====
-- Slots of src/core/gameslot.rs as bytes.
use ghostpp_rs.Prelude.{ℕ, ◌≤◌, ◌≡◌, List, ◌∷◌, ◌++◌, arith, length, take}
use ghostpp_rs.Core.GameSlot.{GameSlot, new_from_array, get_byte_array}

-- A slot is read back from its bytes, whatever follows them; and from a longer array (a map file's
-- slot entry has nine bytes or fewer) exactly the first nine bytes are kept.
slot_bytes :
    (s : GameSlot) (rest bytes : List ℕ)
    → 9 ≤ length bytes
    → (new_from_array (get_byte_array s ++ rest) ≡ s)
      × (get_byte_array (new_from_array bytes) ≡ take 9 bytes)
unfolding new_from_array get_byte_array
slot_bytes s rest (a ∷ b ∷ c ∷ d ∷ e ∷ f ∷ g ∷ i ∷ j ∷ bytes) h = ground arith
slot_bytes s rest bytes h = ground arith

pub new_from_array-append :
    (s : GameSlot) (rest : List ℕ) → new_from_array (get_byte_array s ++ rest) ≡ s
unfolding new_from_array get_byte_array
new_from_array-append s rest = ground arith
