-- ===== src/Util/Length.antt =====
-- The length field of a packet: what assign_length writes, validate_length accepts.
use ghostpp_rs.Prelude.{ℕ, ◌+◌, ◌/◌, ◌%◌, ◌≤◌, ◌≡◌, true, List, ◌∷◌, arith, length}
use ghostpp_rs.Prelude.Bits.{bit_or_bytes}
use ghostpp_rs.Util.{assign_length, validate_length}

-- The packet that assign_length makes of a four-byte header and a body.
pub assign_length_packet :
    (magic id a b : ℕ) (body : List ℕ)
    → length body + 4 ≤ 65535
    → (assign_length (magic ∷ id ∷ a ∷ b ∷ body)).0
      ≡ magic ∷ id ∷ (length body + 4) % 256 ∷ (length body + 4) / 256 % 256 ∷ body
unfolding assign_length
assign_length_packet magic id a b body h = ground arith

-- The length field that assign_length writes is the one that validate_length asks for.
pub validate_length_sealed :
    (magic id : ℕ) (body : List ℕ)
    → length body + 4 ≤ 65535
    → validate_length (magic ∷ id ∷ (length body + 4) % 256 ∷ (length body + 4) / 256 % 256 ∷ body)
      ≡ true
unfolding validate_length
validate_length_sealed magic id body h =
    ground (arith, bit_or_bytes ((length body + 4) / 256 % 256) ((length body + 4) % 256))
