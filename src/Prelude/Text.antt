-- ===== src/Prelude/Text.antt =====
-- Text as UTF-8 bytes: literals, decimal numbers (`to_string` of an integer) and `str::replace`.
use Prim.Native.Char.{code}
use Prim.Native.String.{String}
use Prim.Native.Nat.{ℕ, zero, suc, ◌+◌, ◌-◌, ◌/◌, ◌%◌}
use mathlib.Core.Bool.{Bool, true, false, ◌&&◌}
use mathlib.Core.List.{List, [], ◌∷◌, ◌++◌}
use ghostpp_rs.Prelude.Tests.{ltb, ◌==◌, if◌then◌else◌}
use ghostpp_rs.Prelude.Lists.{length}

-- The bytes of an ASCII literal.
abbrev pub codes : String → List ℕ
codes String.[] = []
codes (String.◌∷◌ c s) = code c ∷ codes s

digits_within : ℕ → ℕ → List ℕ
digits_within zero n = []
digits_within (suc fuel) n =
    let higher = digits_within fuel (n / 10) in
    if ltb n 10 then (48 + n) ∷ [] else higher ++ (48 + n % 10) ∷ []

-- A number has no more digits than its value plus one.
unfoldable pub decimal : ℕ → List ℕ
unfolding digits_within
decimal n = digits_within (suc n) n

-- A hexadecimal digit, in lower case.
abbrev pub hex_digit : ℕ → ℕ
hex_digit d = if ltb d 10 then 48 + d else 87 + d

unfoldable pub hex_digits : ℕ → ℕ → List ℕ
hex_digits zero n = []
hex_digits (suc fuel) n =
    let higher = hex_digits fuel (n / 16) in
    if ltb n 16 then hex_digit n ∷ [] else higher ++ hex_digit (n % 16) ∷ []

-- `format!("{:x}", n)`.
unfoldable pub hexadecimal : ℕ → List ℕ
hexadecimal n = hex_digits (suc n) n

unfoldable pub starts_with : List ℕ → List ℕ → Bool
starts_with [] text = true
starts_with (p ∷ pattern_rest) [] = false
starts_with (p ∷ pattern_rest) (c ∷ text) = p == c && starts_with pattern_rest text

-- `skip` bytes of a match are still to be passed over. The pattern is not empty.
replace_from : ℕ → List ℕ → List ℕ → List ℕ → List ℕ
replace_from skip from to [] = []
replace_from (suc skip) from to (c ∷ text) = replace_from skip from to text
replace_from zero from to (c ∷ text) =
    let replaced = to ++ replace_from (length from - 1) from to text in
    let kept = c ∷ replace_from 0 from to text in
    if starts_with from (c ∷ text) then replaced else kept

unfoldable pub replace : List ℕ → List ℕ → List ℕ → List ℕ
unfolding replace_from starts_with
replace from to text = replace_from 0 from to text

unfoldable pub bytes_eq : List ℕ → List ℕ → Bool
bytes_eq [] [] = true
bytes_eq [] (y ∷ ys) = false
bytes_eq (x ∷ xs) [] = false
bytes_eq (x ∷ xs) (y ∷ ys) = x == y && bytes_eq xs ys
