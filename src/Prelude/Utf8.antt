-- ===== src/Prelude/Utf8.antt =====
-- `String::from_utf8_lossy`: each maximal piece that is no UTF-8 becomes U+FFFD (EF BF BD).
use ghostpp_rs.Prelude.Tests.{ltb, leb, ◌==◌, if◌then◌else◌}
use ghostpp_rs.Prelude.Lists.{All}
use Prim.Native.Nat.{ℕ, ◌-◌, ◌<◌}
use mathlib.Core.Path.{◌≡◌, refl}
use mathlib.Core.Bool.{Bool, ◌&&◌}
use mathlib.Core.List.{List, [], ◌∷◌, ◌++◌}
use native.Mathlib.Omega.{arith}

-- Between characters, or inside one: its bytes so far, the range of the next byte and how many bytes
-- are still to come.
pub data Utf8State : Type 0 where
  between : Utf8State
  inside : List ℕ → ℕ → ℕ → ℕ → Utf8State

abbrev replacement : List ℕ
replacement = 0xEF ∷ 0xBF ∷ 0xBD ∷ []

abbrev in_range : ℕ → ℕ → ℕ → Bool
in_range lo hi b = leb lo b && leb b hi

first_byte : ℕ → List ℕ × Utf8State
first_byte b =
    if ltb b 0x80
    then (b ∷ [], between)
    else if in_range 0xC2 0xDF b
    then ([], inside (b ∷ []) 0x80 0xBF 1)
    else if b == 0xE0
    then ([], inside (b ∷ []) 0xA0 0xBF 2)
    else if b == 0xED
    then ([], inside (b ∷ []) 0x80 0x9F 2)
    else if in_range 0xE1 0xEF b
    then ([], inside (b ∷ []) 0x80 0xBF 2)
    else if b == 0xF0
    then ([], inside (b ∷ []) 0x90 0xBF 3)
    else if in_range 0xF1 0xF3 b
    then ([], inside (b ∷ []) 0x80 0xBF 3)
    else if b == 0xF4
    then ([], inside (b ∷ []) 0x80 0x8F 3)
    else (replacement, between)

next_byte : Utf8State → ℕ → List ℕ × Utf8State
next_byte between b = first_byte b
next_byte (inside seen lo hi left) b =
    if in_range lo hi b
    then (if left == 1
        then (seen ++ b ∷ [], between)
        else ([], inside (seen ++ b ∷ []) 0x80 0xBF (left - 1)))
    else (replacement ++ (first_byte b).0, (first_byte b).1)

lossy_from : Utf8State → List ℕ → List ℕ
lossy_from between [] = []
lossy_from (inside seen lo hi left) [] = replacement
lossy_from s (b ∷ bs) = (next_byte s b).0 ++ lossy_from (next_byte s b).1 bs

unfoldable pub from_utf8_lossy : List ℕ → List ℕ
unfolding lossy_from next_byte first_byte
from_utf8_lossy bs = lossy_from between bs

-- ASCII is kept as it is.
pub from_utf8_lossy_ascii : (bs : List ℕ) → All (λ b. b < 0x80) bs → from_utf8_lossy bs ≡ bs
unfolding from_utf8_lossy
from_utf8_lossy_ascii [] h = refl
from_utf8_lossy_ascii (b ∷ bs) h = ground (arith, from_utf8_lossy_ascii bs h.1)
