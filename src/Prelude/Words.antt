-- ===== src/Prelude/Words.antt =====
-- Rust's `trim`, `split_whitespace`, `split_once` and integer `parse` on UTF-8 bytes.
use Prim.Native.Nat.{ℕ, zero, suc, ◌+◌, ◌-◌, ◌*◌}
use mathlib.Core.Bool.{Bool, true, false, ◌&&◌, ◌||◌}
use mathlib.Core.List.{List, [], ◌∷◌, ◌++◌}
use mathlib.Core.Option.{Option, none, some}
use ghostpp_rs.Prelude.Tests.{leb, ◌==◌, if◌then◌else◌}
use ghostpp_rs.Prelude.Lists.{get_or, drop}

abbrev between : ℕ → ℕ → ℕ → Bool
between lo hi b = leb lo b && leb b hi

-- The bytes of the white space character at the front, 0 if there is none: the 25 characters with
-- Unicode's White_Space.
unfoldable pub space_length : List ℕ → ℕ
space_length text =
    let a = get_or text 0 0 in
    let b = get_or text 1 0 in
    let c = get_or text 2 0 in
    if between 9 13 a || a == 32
    then 1
    else if a == 0xC2 && (b == 0x85 || b == 0xA0)
    then 2
    else if a == 0xE1 && (b == 0x9A && c == 0x80)
    then 3
    else if a == 0xE2
        && ((b == 0x80 && (between 0x80 0x8A c || (c == 0xA8 || (c == 0xA9 || c == 0xAF))))
            || (b == 0x81 && c == 0x9F))
    then 3
    else if a == 0xE3 && (b == 0x80 && c == 0x80)
    then 3
    else 0

-- `skip` bytes of a white space character are still to be passed over.
trim_from : ℕ → List ℕ → List ℕ
trim_from skip [] = []
trim_from (suc skip) (c ∷ text) = trim_from skip text
trim_from zero (c ∷ text) =
    let n = space_length (c ∷ text) in
    let rest = trim_from (n - 1) text in if n == 0 then c ∷ text else rest

is_blank : List ℕ → Bool
is_blank [] = true
is_blank (c ∷ text) = false

trim_end : List ℕ → List ℕ
unfolding trim_from is_blank
trim_end [] = []
trim_end (c ∷ text) =
    let rest = trim_end text in if is_blank (trim_from 0 (c ∷ text)) then [] else c ∷ rest

unfoldable pub trim : List ℕ → List ℕ
unfolding trim_end trim_from space_length
trim text = trim_end (trim_from 0 text)

flush : List ℕ → List (List ℕ)
flush [] = []
flush (c ∷ word) = (c ∷ word) ∷ []

words_from : ℕ → List ℕ → List ℕ → List (List ℕ)
words_from skip word [] = flush word
words_from (suc skip) word (c ∷ text) = words_from skip word text
words_from zero word (c ∷ text) =
    let n = space_length (c ∷ text) in
    let rest = words_from (n - 1) (if n == 0 then word ++ c ∷ [] else []) text in
    if n == 0 then rest else flush word ++ rest

unfoldable pub split_whitespace : List ℕ → List (List ℕ)
unfolding words_from flush space_length
split_whitespace text = words_from 0 [] text

split_from : List ℕ → List ℕ → Option (List ℕ × List ℕ)
split_from word [] = none
split_from word (c ∷ text) =
    let n = space_length (c ∷ text) in
    let rest = split_from (word ++ c ∷ []) text in
    if n == 0 then rest else some (word, drop n (c ∷ text))

-- `split_once(char::is_whitespace)`.
unfoldable pub split_once : List ℕ → Option (List ℕ × List ℕ)
unfolding split_from space_length
split_once text = split_from [] text

digits_value : ℕ → List ℕ → Option ℕ
digits_value acc [] = some acc
digits_value acc (c ∷ text) =
    let rest = digits_value (10 * acc + (c - 48)) text in if between 48 57 c then rest else none

unsigned : List ℕ → Option ℕ
unsigned [] = none
unsigned (c ∷ text) = digits_value 0 (c ∷ text)

-- `parse` of an unsigned integer of at most `limit`: a sign `+` is allowed.
unfoldable pub parse : ℕ → List ℕ → Option ℕ
unfolding unsigned digits_value
parse limit [] = none
parse limit (c ∷ text) = elim (unsigned (if c == b'+' then text else c ∷ text)) [
  | none ↦ none
  | some n ↦ if leb n limit then some n else none
]
