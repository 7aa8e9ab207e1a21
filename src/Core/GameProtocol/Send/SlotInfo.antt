-- ===== src/Core/GameProtocol/Send/SlotInfo.antt =====
-- The slot table of src/core/gameprotocol.rs (encode_slot_info), read back as the client reads it.
use ghostpp_rs.Prelude.{
  ℕ, zero, suc, ◌*◌, ◌<◌, ◌≡◌, refl, ap, ◌∙◌, List, [], ◌∷◌, ◌++◌, arith, length, drop, get_or,
  IsU32, u32_from_le, u32_le,
}
use ghostpp_rs.Core.GameSlot.{GameSlot, new_from_array, get_byte_array}
use ghostpp_rs.Core.GameSlot.Wire.{new_from_array-append}
use ghostpp_rs.Core.GameProtocol.Send.{slots_bytes, encode_slot_info}

-- `n` slots of nine bytes each.
unfoldable pub read_slots : ℕ → List ℕ → List GameSlot
read_slots zero bytes = []
read_slots (suc n) bytes = new_from_array bytes ∷ read_slots n (drop 9 bytes)

pub record SlotInfo : Type 0 where
  pub slots : List GameSlot
  pub random_seed : ℕ
  pub layout_style : ℕ
  pub player_slots : ℕ

-- The count, the slots, the seed, the layout style and the number of player slots.
unfoldable pub read_slot_info : List ℕ → SlotInfo
unfolding read_slots
read_slot_info bytes =
    let n = get_or bytes 0 0 in
    let tail = drop (9 * n) (drop 1 bytes) in
    record {
      slots = read_slots n (drop 1 bytes);
      random_seed =
          u32_from_le (get_or tail 0 0) (get_or tail 1 0) (get_or tail 2 0) (get_or tail 3 0);
      layout_style = get_or tail 4 0;
      player_slots = get_or tail 5 0;
    }

pub length-slots_bytes : (slots : List GameSlot) → length (slots_bytes slots) ≡ 9 * length slots
unfolding slots_bytes get_byte_array
length-slots_bytes [] = omega arith
length-slots_bytes (s ∷ slots) = omega (arith, length-slots_bytes slots)

read_slots-append :
    (slots : List GameSlot) (rest : List ℕ)
    → read_slots (length slots) (slots_bytes slots ++ rest) ≡ slots
unfolding read_slots slots_bytes get_byte_array
read_slots-append [] rest = refl
read_slots-append (s ∷ slots) rest =
    ground
      (arith, new_from_array-append s (slots_bytes slots ++ rest), read_slots-append slots rest)

nine_more : (n : ℕ) → 9 * suc n ≡ suc (suc (suc (suc (suc (suc (suc (suc (suc (9 * n)))))))))
nine_more n = omega arith

behind_slots :
    (slots : List GameSlot) (rest : List ℕ)
    → drop (9 * length slots) (slots_bytes slots ++ rest) ≡ rest
unfolding slots_bytes get_byte_array
behind_slots [] rest = refl
behind_slots (s ∷ slots) rest =
    ap (λ (n : ℕ). drop n (slots_bytes (s ∷ slots) ++ rest)) (nine_more (length slots))
    ∙ behind_slots slots rest

-- The client reads the slot table, the seed and the layout that the host encoded, for up to 255 slots.
pub read-encode_slot_info :
    (slots : List GameSlot) (random_seed layout_style player_slots : ℕ)
    → length slots < 256
    → IsU32 random_seed
    → read_slot_info (encode_slot_info slots random_seed layout_style player_slots) ≡ record {
      slots = slots;
      random_seed = random_seed;
      layout_style = layout_style;
      player_slots = player_slots;
    }
unfolding read_slot_info encode_slot_info
read-encode_slot_info slots random_seed layout_style player_slots n s =
    ground (arith, read_slots-append slots tail, behind_slots slots tail)
  where
    tail : List ℕ
    tail = u32_le random_seed ++ (layout_style ∷ player_slots ∷ [])
