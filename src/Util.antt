-- ===== src/Util.antt =====
-- src/util.rs: the byte-array helpers that every packet goes through. A byte slice is a list of
-- numbers; a function that mutates its slice returns the new one.
mod Runs
pub mod Length
pub mod Words
pub mod Truncate
pub mod StatString
pub mod CString
use Prim.Native.Nat.{bit_and, bit_or}
use mathlib.Core.List.{reverse}
use ghostpp_rs.Prelude.Text.{codes, decimal, hexadecimal, hex_digit, bytes_eq}
use ghostpp_rs.Prelude.Words.{split_whitespace, parse}
use ghostpp_rs.Prelude.Utf8.{from_utf8_lossy}
use ghostpp_rs.Prelude.{
  ℕ, zero, suc, ◌+◌, ◌-◌, ◌*◌, ◌/◌, ◌%◌, ◌^◌, max, Bool, true, false, ◌&&◌, ◌||◌, List, [], ◌∷◌,
  ◌++◌, ltb, leb, ◌==◌, if◌then◌else◌, length, get_or, set, take, drop, map, not, Option, none,
  some, Run, ret, panic, ◌>>=◌, u16_from_le, u32_from_le,
}

-- `(i >> 8 * k) & 0xFF` is read as division.
unfoldable pub util_create_byte_array_u16 : ℕ → Bool → List ℕ
util_create_byte_array_u16 i reversed =
    let result : List ℕ = bit_and i 0xFF ∷ bit_and (i / 2 ^ 8) 0xFF ∷ [] in
    if reversed then reverse result else result

unfoldable pub util_create_byte_array : ℕ → Bool → List ℕ
util_create_byte_array i reversed =
    let result : List ℕ =
      bit_and i 0xFF
      ∷ bit_and (i / 2 ^ 8) 0xFF
      ∷ bit_and (i / 2 ^ 16) 0xFF
      ∷ bit_and (i / 2 ^ 24) 0xFF
      ∷ [] in
    if reversed then reverse result else result

-- `from_le_bytes` of a slice of the right length; 0 pads nothing here, the callers check the length.
abbrev le_of_slice : List ℕ → ℕ
le_of_slice [] = 0
le_of_slice (b ∷ bs) = b + 256 * le_of_slice bs

unfoldable pub util_byte_array_to_u16 : List ℕ → Bool → ℕ → ℕ
util_byte_array_to_u16 b reversed start =
    if leb (start + 2) (length b)
    then (let array = take 2 (drop start b) in
        le_of_slice (if reversed then reverse array else array))
    else 0

unfoldable pub util_byte_array_to_u32 : List ℕ → Bool → ℕ → ℕ
util_byte_array_to_u32 b reversed start =
    if leb (start + 4) (length b)
    then (let array = take 4 (drop start b) in
        le_of_slice (if reversed then reverse array else array))
    else 0

-- The bytes before the first NUL, or all.
unfoldable pub until_nul : List ℕ → List ℕ
until_nul [] = []
until_nul (b ∷ bs) = if b == 0 then [] else b ∷ until_nul bs

unfoldable pub util_extract_cstring : List ℕ → ℕ → List ℕ
util_extract_cstring b start =
    if leb (length b) start then [] else from_utf8_lossy (until_nul (drop start b))

-- The packet with its length written into bytes 2 and 3, and whether it fits.
unfoldable pub assign_length : List ℕ → List ℕ × Bool
assign_length content =
    if leb 4 (length content) && leb (length content) 65535
    then (set (set content 2 (length content % 256)) 3 (length content / 256 % 256), true)
    else (content, false)

unfoldable pub validate_length : List ℕ → Bool
validate_length content =
    if ltb (length content) 4
    then false
    else bit_or (256 * get_or content 3 0) (get_or content 2 0) == length content

-- `result.insert(i, v)`.
insert_at : ℕ → ℕ → List ℕ → List ℕ
insert_at i v xs = take i xs ++ v ∷ drop i xs

-- The loop of util_encode_stat_string at index `i` of `n` bytes. The shift `1 << (i % 7 + 1)` is
-- `2 ^ (i % 7 + 1)`.
encode_loop : ℕ → ℕ → ℕ → List ℕ → List ℕ → List ℕ
encode_loop i n mask result [] = result
encode_loop i n mask result (byte ∷ rest) =
    let result' = result ++ (if byte % 2 == 0 then byte + 1 else byte) ∷ [] in
    let mask' = if byte % 2 == 0 then mask else bit_or mask (2 ^ (i % 7 + 1)) in
    let flush = i % 7 == 6 || i == n - 1 in
    encode_loop (i + 1) n (if flush then 1 else mask')
      (if flush then insert_at (length result' - 1 - i % 7) mask' result' else result') rest

unfoldable pub util_encode_stat_string : List ℕ → List ℕ
unfolding encode_loop insert_at
util_encode_stat_string bytes = encode_loop 0 (length bytes) 1 [] bytes

-- The minutes, rounded up, in days, hours and, below a day, minutes.
unfoldable pub format_duration_secs : ℕ → List ℕ
format_duration_secs secs =
    let mins = max ((secs + 59) / 60) 1 in
    let days = mins / 1440 in
    let hours = mins / 60 % 24 in
    (if ltb 0 days then decimal days ++ codes "d" else [])
    ++ ((if ltb 0 hours then decimal hours ++ codes "h" else [])
        ++ (if ltb 0 (mins % 60) && days == 0 then decimal (mins % 60) ++ codes "m" else []))

unfoldable pub util_to_hex_string : ℕ → List ℕ
util_to_hex_string n = hexadecimal n

-- `char::to_ascii_lowercase`.
abbrev ascii_lower : ℕ → ℕ
ascii_lower c = if leb b'A' c && leb c b'Z' then c + 32 else c

-- The last byte of a text is its last character if it is ASCII.
unfoldable pub unit_secs : ℕ → Option ℕ
unit_secs c =
    if c == b'm'
    then some 60
    else if c == b'h'
    then some 3600
    else if c == b'd'
    then some 86400
    else none

-- `checked_mul` of a u64, with 0 refused before.
unfoldable pub duration_of : Option ℕ → Option ℕ → Option ℕ
duration_of none n = none
duration_of (some unit) none = none
duration_of (some unit) (some n) =
    if n == 0 then none else if ltb (n * unit) (2 ^ 64) then some (n * unit) else none

unfoldable pub parse_duration_secs : List ℕ → Option ℕ
unfolding unit_secs duration_of
parse_duration_secs token =
    let text = map ascii_lower token in
    if bytes_eq text (codes "perm") || bytes_eq text (codes "permanent")
    then some 0
    else duration_of (unit_secs (get_or text (length text - 1) 0))
        (parse (2 ^ 64 - 1) (take (length text - 1) text))

-- The numbers of the first `count` words, up to the first that is no byte.
extract_bytes : List (List ℕ) → List ℕ
extract_bytes [] = []
extract_bytes (word ∷ words) = elim (parse 255 word) [
  | none ↦ []
  | some n ↦ n ∷ extract_bytes words
]

unfoldable pub util_extract_numbers : List ℕ → ℕ → List ℕ
unfolding extract_bytes
util_extract_numbers s count = extract_bytes (take count (split_whitespace s))

dec_rest : List ℕ → List ℕ
dec_rest [] = []
dec_rest (b ∷ bytes) = b' ' ∷ decimal b ++ dec_rest bytes

unfoldable pub util_byte_array_to_dec_string : List ℕ → List ℕ
unfolding dec_rest
util_byte_array_to_dec_string [] = []
util_byte_array_to_dec_string (b ∷ bytes) = decimal b ++ dec_rest bytes

-- `{:02x}`.
abbrev hex_byte : ℕ → List ℕ
hex_byte b = hex_digit (b / 16) ∷ hex_digit (b % 16) ∷ []

unfoldable pub util_byte_array_to_hex_string : List ℕ → List ℕ
util_byte_array_to_hex_string [] = []
util_byte_array_to_hex_string (b ∷ bytes) = hex_byte b ++ util_byte_array_to_hex_string bytes

-- `str::is_char_boundary`: an end of the text, or no continuation byte.
unfoldable pub is_char_boundary : List ℕ → ℕ → Bool
is_char_boundary s i =
    i == 0
    || (i == length s
        || (ltb i (length s) && not (leb 0x80 (get_or s i 0) && leb (get_or s i 0) 0xBF)))

-- The loop that moves `end` back.
unfoldable pub boundary_below : List ℕ → ℕ → ℕ
boundary_below s zero = 0
boundary_below s (suc end) =
    let lower = boundary_below s end in if is_char_boundary s (suc end) then suc end else lower

unfoldable pub util_truncate_str : List ℕ → ℕ → List ℕ
unfolding boundary_below
util_truncate_str s max_bytes =
    if leb (length s) max_bytes then s else take (boundary_below s max_bytes) s

-- The index of the first space.
unfoldable pub find_space : List ℕ → Option ℕ
find_space [] = none
find_space (c ∷ text) =
    let rest : Option ℕ = elim (find_space text) [ none ↦ none | some i ↦ some (suc i) ] in
    if c == b' ' then some 0 else rest

-- `&message[from..to]`, which panics where an end is no character boundary or the ends are swapped.
unfoldable pub slice_str : List ℕ → ℕ → ℕ → Run (List ℕ)
slice_str s from to =
    if (leb from to && leb to (length s)) && (is_char_boundary s from && is_char_boundary s to)
    then ret (take (to - from) (drop from s))
    else panic

-- Unicode lower case is an argument.
module _ (to_lowercase : List ℕ → List ℕ) where
  unfoldable pub get_command_and_payload : List ℕ → Run (List ℕ × List ℕ)
  get_command_and_payload message = elim (find_space message) [
    | none ↦ slice_str message 1 (length message) >>= (λ command. ret (to_lowercase command, []))
    | some payload_start ↦ slice_str message 1 payload_start >>= (λ command.
        slice_str message (payload_start + 1) (length message)
        >>= (λ payload. ret (to_lowercase command, payload)))
  ]
