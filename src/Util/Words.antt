-- ===== src/Util/Words.antt =====
-- Byte arrays of 16-bit and 32-bit words in src/util.rs: writing and reading back.
use ghostpp_rs.Prelude.{
  ℕ, ◌/◌, ◌^◌, ◌≡◌, Bool, true, false, List, [], ◌∷◌, ◌++◌, arith, length, IsU16, IsU32, u32_le,
  length-append,
}
use ghostpp_rs.Prelude.Bits.{bit_and_byte}
use ghostpp_rs.Util.{
  util_create_byte_array, util_create_byte_array_u16, util_byte_array_to_u16,
  util_byte_array_to_u32,
}

-- Every 32-bit number is read back from its byte array, in either byte order.
to_u32-create :
    (i : ℕ) (reversed : Bool)
    → IsU32 i
    → util_byte_array_to_u32 (util_create_byte_array i reversed) reversed 0 ≡ i
unfolding util_byte_array_to_u32 util_create_byte_array
to_u32-create i true h = omega (
  arith,
  bit_and_byte i,
  bit_and_byte (i / 2 ^ 8),
  bit_and_byte (i / 2 ^ 16),
  bit_and_byte (i / 2 ^ 24),
)
to_u32-create i false h = omega (
  arith,
  bit_and_byte i,
  bit_and_byte (i / 2 ^ 8),
  bit_and_byte (i / 2 ^ 16),
  bit_and_byte (i / 2 ^ 24),
)

to_u16-create :
    (i : ℕ) (reversed : Bool)
    → IsU16 i
    → util_byte_array_to_u16 (util_create_byte_array_u16 i reversed) reversed 0 ≡ i
unfolding util_byte_array_to_u16 util_create_byte_array_u16
to_u16-create i true h = omega (arith, bit_and_byte i, bit_and_byte (i / 2 ^ 8))
to_u16-create i false h = omega (arith, bit_and_byte i, bit_and_byte (i / 2 ^ 8))

-- The field of four bytes that `to_le_bytes` wrote behind `front`.
pub to_u32-append :
    (front back : List ℕ) (i : ℕ)
    → IsU32 i
    → util_byte_array_to_u32 (front ++ (u32_le i ++ back)) false (length front) ≡ i
unfolding util_byte_array_to_u32
to_u32-append [] back i h = ground arith
to_u32-append (x ∷ front) back i h =
    ground (arith, to_u32-append front back i, length-append front (u32_le i ++ back))
