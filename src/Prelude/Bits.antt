-- ===== src/Prelude/Bits.antt =====
-- Bitwise facts: `bit_or` of a high part with a low byte is a sum, and `bit_and` with 255 a remainder.
use Prim.Native.Nat.{
  ℕ, zero, suc, ◌+◌, ◌*◌, ◌/◌, ◌%◌, ◌≤◌, ◌<◌, max, min, bit_or, bit_and, digits, bit_or-bitwise,
  bit_and-bitwise,
}
use mathlib.Core.Path.{◌≡◌, refl}
use mathlib.Core.Bool.{Bool, true, ◌&&◌}
use native.Mathlib.Omega.{arith}

-- A test of every number below `n`, by evaluation.
unfoldable pub all_below : ℕ → (ℕ → Bool) → Bool
all_below zero p = true
all_below (suc n) p = p n && all_below n p

pub all_below_sound : (n : ℕ) (p : ℕ → Bool) (x : ℕ) → all_below n p ≡ true → x < n → p x ≡ true
unfolding all_below
all_below_sound (suc n) p x h lt = ground (arith, all_below_sound n p x)
all_below_sound zero p x h lt = absurd (omega arith)

-- Fuel beyond the first number is not used.
module _ (last : ℕ → ℕ) (join : ℕ → ℕ → ℕ) where
  ended : (given y : ℕ) → digits last join given 0 y ≡ last y
  ended zero y = refl
  ended (suc given) y = refl

  spare :
      (x y given more : ℕ)
      → x ≤ given
      → given ≤ more
      → digits last join given x y ≡ digits last join more x y
  spare zero y given more h k = omega (arith, ended given y, ended more y)
  spare (suc x) y (suc given) (suc more) h k =
      omega (arith, spare (suc x / 2) (y / 2) given more (omega arith) (omega arith))
  spare (suc x) y zero more h k = absurd (omega arith)
  spare (suc x) y (suc given) zero h k = absurd (omega arith)

  halve :
      (x y : ℕ)
      → 0 < x
      → digits last join x x y ≡ 2 * digits last join (x / 2) (x / 2) (y / 2) + join (x % 2) (y % 2)
  halve (suc x) y h =
      omega (arith, spare (suc x / 2) (y / 2) (suc x / 2) x (omega arith) (omega arith))
  halve zero y h = absurd (omega arith)

low_bit_or : (x y : ℕ) → bit_or x y ≡ 2 * bit_or (x / 2) (y / 2) + max (x % 2) (y % 2)
low_bit_or (suc x) y = omega (
  arith,
  halve (λ b. b) max (suc x) y (omega arith),
  bit_or-bitwise (suc x) y,
  bit_or-bitwise (suc x / 2) (y / 2),
)
low_bit_or zero y = omega (arith, bit_or-bitwise 0 y, bit_or-bitwise 0 (y / 2))

low_bit_and : (x y : ℕ) → bit_and x y ≡ 2 * bit_and (x / 2) (y / 2) + min (x % 2) (y % 2)
low_bit_and (suc x) y = omega (
  arith,
  halve (λ b. 0) min (suc x) y (omega arith),
  bit_and-bitwise (suc x) y,
  bit_and-bitwise (suc x / 2) (y / 2),
)
low_bit_and zero y = omega (arith, bit_and-bitwise 0 y, bit_and-bitwise 0 (y / 2))

-- With nothing on the right, by halving.
empty_right : (bound x : ℕ) → x ≤ bound → (bit_or x 0 ≡ x) × (bit_and x 0 ≡ 0)
empty_right bound zero h = (refl, refl)
empty_right (suc bound) (suc x) h =
    let smaller = empty_right bound (suc x / 2) (omega arith) in
    (omega (arith, low_bit_or (suc x) 0), omega (arith, low_bit_and (suc x) 0))
empty_right zero (suc x) h = absurd (omega arith)

-- One binary digit below an even number.
bit_or_even : (q r : ℕ) → bit_or (2 * q) r ≡ 2 * bit_or q (r / 2) + r % 2
bit_or_even q r = ground (arith, low_bit_or (2 * q) r)

bit_or_low_four : (q r : ℕ) → r < 16 → bit_or (16 * q) r ≡ 16 * q + r
bit_or_low_four q r h = ground (
  arith,
  bit_or_even (8 * q) r,
  bit_or_even (4 * q) (r / 2),
  bit_or_even (2 * q) (r / 2 / 2),
  bit_or_even q (r / 2 / 2 / 2),
  (empty_right q q (omega arith)).0,
)

-- `(high << 8) | low` for a byte `low`.
pub bit_or_bytes : (high low : ℕ) → low < 256 → bit_or (256 * high) low ≡ 256 * high + low
bit_or_bytes high low h = ground (
  arith,
  bit_or_even (128 * high) low,
  bit_or_even (64 * high) (low / 2),
  bit_or_even (32 * high) (low / 2 / 2),
  bit_or_even (16 * high) (low / 2 / 2 / 2),
  bit_or_low_four high (low / 2 / 2 / 2 / 2),
)

bit_and_fifteen : (a : ℕ) → bit_and a 15 ≡ a % 16
bit_and_fifteen a = omega (
  arith,
  low_bit_and a 15,
  low_bit_and (a / 2) 7,
  low_bit_and (a / 2 / 2) 3,
  low_bit_and (a / 2 / 2 / 2) 1,
  (empty_right (a / 2 / 2 / 2 / 2) (a / 2 / 2 / 2 / 2) (omega arith)).1,
)

-- `a & 0xFF`.
pub bit_and_byte : (a : ℕ) → bit_and a 255 ≡ a % 256
bit_and_byte a = omega (
  arith,
  low_bit_and a 255,
  low_bit_and (a / 2) 127,
  low_bit_and (a / 2 / 2) 63,
  low_bit_and (a / 2 / 2 / 2) 31,
  bit_and_fifteen (a / 2 / 2 / 2 / 2),
)
