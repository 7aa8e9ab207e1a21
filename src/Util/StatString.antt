-- ===== src/Util/StatString.antt =====
-- The stat string encoding of src/util.rs (util_encode_stat_string), which keeps every zero byte out
-- of the game information packet: groups of up to seven bytes made odd, behind a mask byte that says
-- which bytes were odd already.
use Prim.Native.Nat.{bit_or}
use native.Mathlib.Nat.{pow-suc, one-le-pow}
use native.Mathlib.Numerals.{towards_suc}
use mathlib.Core.List.{map-append}
use ghostpp_rs.Prelude.{
  ℕ, zero, suc, ◌+◌, ◌-◌, ◌*◌, ◌/◌, ◌%◌, ◌^◌, ◌≤◌, ◌<◌, ◌≡◌, refl, sym, ap, ◌∙◌, Bool, true, false,
  ◌||◌, List, [], ◌∷◌, ◌++◌, map, arith, length, length-append, length-map, append_assoc,
  append-nil, ◌==◌, if◌then◌else◌, Bool-cases, inl, inr, AreBytes, IsByte, All, All-append,
}
use ghostpp_rs.Prelude.Bits.{all_below, all_below_sound}
use ghostpp_rs.Util.{encode_loop, insert_at, util_encode_stat_string}

-- The format, group by group: `group` holds the bytes of the group that is open.
abbrev made_odd : ℕ → ℕ
made_odd b = if b % 2 == 0 then b + 1 else b

abbrev odd_bits : List ℕ → ℕ
odd_bits [] = 0
odd_bits (b ∷ bs) = b % 2 + 2 * odd_bits bs

abbrev closed : List ℕ → List ℕ
closed group = (1 + 2 * odd_bits group) ∷ map made_odd group

unfoldable pub groups : List ℕ → List ℕ → List ℕ
groups group [] = map made_odd group
groups group (b ∷ []) = closed (group ++ b ∷ [])
groups group (b ∷ c ∷ rest) =
    let full = closed (group ++ b ∷ []) ++ groups [] (c ∷ rest) in
    let more = groups (group ++ b ∷ []) (c ∷ rest) in if length group == 6 then full else more

-- The decoder of the format, as the game client applies it: `left` bytes of the open group are still
-- to come, and `mask` holds their bits.
unfoldable pub decode_stat_from : ℕ → ℕ → List ℕ → List ℕ
decode_stat_from left mask [] = []
decode_stat_from zero mask (m ∷ bs) = decode_stat_from 7 (m / 2) bs
decode_stat_from (suc left) mask (b ∷ bs) =
    (if mask % 2 == 0 then b - 1 else b) ∷ decode_stat_from left (mask / 2) bs

unfoldable pub decode_stat_string : List ℕ → List ℕ
unfolding decode_stat_from
decode_stat_string bytes = decode_stat_from 0 0 bytes

-- The mask of a group that grows by one byte.
odd_bits-append :
    (bs : List ℕ) (b : ℕ) → odd_bits (bs ++ b ∷ []) ≡ odd_bits bs + 2 ^ length bs * (b % 2)
odd_bits-append [] b = omega arith
odd_bits-append (x ∷ bs) b =
    omega (arith, odd_bits-append bs b, ap (λ (t : ℕ). t * (b % 2)) (pow-suc 2 (length bs)))

odd_bits-lt : (bs : List ℕ) → odd_bits bs < 2 ^ length bs
odd_bits-lt [] = omega arith
odd_bits-lt (x ∷ bs) = omega (arith, odd_bits-lt bs, pow-suc 2 (length bs))

set_bit_table :
    all_below 7
      (λ k. all_below (2 ^ k) (λ m. bit_or (1 + 2 * m) (2 ^ (k + 1)) == 1 + 2 * m + 2 ^ (k + 1)))
    ≡ true
unfolding all_below
set_bit_table = refl

set_bit : (k m : ℕ) → k < 7 → m < 2 ^ k → bit_or (1 + 2 * m) (2 ^ (k + 1)) ≡ 1 + 2 * m + 2 ^ (k + 1)
set_bit k m hk hm =
    ground (arith, all_below_sound (2 ^ k) _ m (all_below_sound 7 _ k set_bit_table hk) hm)

doubled : (n : ℕ) → 2 ^ (n + 1) ≡ 2 * 2 ^ n
doubled n = simp towards_suc (omega (arith, pow-suc 2 n))

next_mask :
    (group : List ℕ) (b : ℕ)
    → length group < 7
    → (if b % 2 == 0
        then 1 + 2 * odd_bits group
        else bit_or (1 + 2 * odd_bits group) (2 ^ (length group + 1)))
      ≡ 1 + 2 * odd_bits (group ++ b ∷ [])
next_mask group b h = ground (
  arith,
  odd_bits-append group b,
  set_bit (length group) (odd_bits group) h (odd_bits-lt group),
  doubled (length group),
)

insert_at-append : (xs ys : List ℕ) (v : ℕ) → insert_at (length xs) v (xs ++ ys) ≡ xs ++ v ∷ ys
unfolding insert_at
insert_at-append [] ys v = refl
insert_at-append (x ∷ xs) ys v = ap (λ (t : List ℕ). x ∷ t) (insert_at-append xs ys v)

grow-map :
    (xs group : List ℕ) (b : ℕ)
    → (xs ++ map made_odd group) ++ made_odd b ∷ [] ≡ xs ++ map made_odd (group ++ b ∷ [])
grow-map xs group b =
    append_assoc xs (map made_odd group) (made_odd b ∷ [])
    ∙ ap (λ (t : List ℕ). xs ++ t) (sym (map-append made_odd group (b ∷ [])))

mask_place :
    (out group : List ℕ) (b : ℕ)
    → length (out ++ map made_odd (group ++ b ∷ [])) - 1 - length group ≡ length out
mask_place out group b = omega (
  arith,
  length-append out (map made_odd (group ++ b ∷ [])),
  length-map (group ++ b ∷ []) made_odd,
  length-append group (b ∷ []),
)

-- One round of the loop, with `group` open behind `out`.
encode_round :
    (i n : ℕ) (out group : List ℕ) (b : ℕ) (rest : List ℕ) (flush : Bool)
    → length group ≡ i % 7
    → (i % 7 == 6 || i == n - 1) ≡ flush
    → encode_loop i n (1 + 2 * odd_bits group) (out ++ map made_odd group) (b ∷ rest) ≡ (
        if flush
        then encode_loop (i + 1) n 1 (out ++ closed (group ++ b ∷ [])) rest
        else encode_loop
            (i + 1)
            n
            (1 + 2 * odd_bits (group ++ b ∷ []))
            (out ++ map made_odd (group ++ b ∷ []))
            rest)
unfolding encode_loop
encode_round i n out group b rest true h e = rw (
  e,
  ← h,
  next_mask group b (omega arith),
  grow-map out group b,
  mask_place out group b,
  insert_at-append out (map made_odd (group ++ b ∷ [])) (1 + 2 * odd_bits (group ++ b ∷ [])),
)
encode_round i n out group b rest false h e =
    rw (e, ← h, next_mask group b (omega arith), grow-map out group b)

groups_next :
    (group : List ℕ) (b c : ℕ) (rest : List ℕ) (full : Bool)
    → (length group == 6) ≡ full
    → groups group (b ∷ c ∷ rest) ≡ (
        if full
        then closed (group ++ b ∷ []) ++ groups [] (c ∷ rest)
        else groups (group ++ b ∷ []) (c ∷ rest))
unfolding groups
groups_next group b c rest full e = rw e

-- The loop appends the rest of the format to what it has put out.
encode_loop-groups :
    (i n : ℕ) (out group rest : List ℕ)
    → length group ≡ i % 7
    → n ≡ i + length rest
    → encode_loop i n (1 + 2 * odd_bits group) (out ++ map made_odd group) rest
      ≡ out ++ groups group rest
encode_loop-groups i n out group [] h e = unfold encode_loop groups in refl
encode_loop-groups i n out group (b ∷ []) h e =
    encode_round i n out group b [] true h (ground arith) ∙ unfold encode_loop groups in refl
encode_loop-groups i n out group (b ∷ c ∷ rest) h e = elim (Bool-cases (i % 7 == 6)) [
  | inl full ↦
      encode_round i n out group b (c ∷ rest) true h (ground arith)
      ∙ rw append-nil at (
          encode_loop-groups (i + 1) n (out ++ closed (group ++ b ∷ [])) [] (c ∷ rest)
            (ground arith) (omega arith))
      ∙ append_assoc out (closed (group ++ b ∷ [])) (groups [] (c ∷ rest))
      ∙ ap (λ (t : List ℕ). out ++ t) (sym (groups_next group b c rest true (ground arith)))
  | inr open_yet ↦
      encode_round i n out group b (c ∷ rest) false h (ground arith)
      ∙ encode_loop-groups (i + 1) n out (group ++ b ∷ []) (c ∷ rest)
          (ground (arith, length-append group (b ∷ []))) (omega arith)
      ∙ ap (λ (t : List ℕ). out ++ t) (sym (groups_next group b c rest false (ground arith)))
]

-- The index arithmetic of util_encode_stat_string yields the format, group by group.
pub encode-groups : (bytes : List ℕ) → util_encode_stat_string bytes ≡ groups [] bytes
unfolding util_encode_stat_string
encode-groups bytes = encode_loop-groups 0 (length bytes) [] [] bytes (omega arith) (omega arith)

halved : (b m : ℕ) → ((b % 2 + 2 * m) / 2 ≡ m) × ((b % 2 + 2 * m) % 2 ≡ b % 2)
halved b m = omega arith

decode-group :
    (left : ℕ) (group rest : List ℕ)
    → length group ≤ left
    → decode_stat_from left (odd_bits group) (map made_odd group ++ rest)
      ≡ group ++ decode_stat_from (left - length group) 0 rest
unfolding decode_stat_from
decode-group left [] rest h = ap (λ (k : ℕ). decode_stat_from k 0 rest) (omega arith)
decode-group zero (b ∷ group) rest h = absurd (omega arith)
decode-group (suc left) (b ∷ group) rest h =
    ground (arith, halved b (odd_bits group), decode-group left group rest (omega arith), fewer)
  where
    fewer : suc left - suc (length group) ≡ left - length group
    fewer = omega arith

decode-closed :
    (mask : ℕ) (group rest : List ℕ)
    → length group ≤ 7
    → decode_stat_from 0 mask (closed group ++ rest)
      ≡ group ++ decode_stat_from (7 - length group) 0 rest
unfolding decode_stat_from
decode-closed mask group rest h =
    ap (λ (m : ℕ). decode_stat_from 7 m (map made_odd group ++ rest)) (omega arith)
    ∙ decode-group 7 group rest h

decode_stat_from-nil : (left mask : ℕ) → decode_stat_from left mask [] ≡ []
unfolding decode_stat_from
decode_stat_from-nil zero mask = refl
decode_stat_from-nil (suc left) mask = refl

last_group : (group : List ℕ) (b : ℕ) → groups group (b ∷ []) ≡ closed (group ++ b ∷ []) ++ []
unfolding groups
last_group group b = sym (append-nil (closed (group ++ b ∷ [])))

decode-groups :
    (mask : ℕ) (group : List ℕ) (b : ℕ) (rest : List ℕ)
    → length group < 7
    → decode_stat_from 0 mask (groups group (b ∷ rest)) ≡ group ++ b ∷ rest
decode-groups mask group b [] h = rw (last_group group b) (
    decode-closed mask (group ++ b ∷ []) [] (omega (arith, length-append group (b ∷ [])))
    ∙ rw (decode_stat_from-nil (7 - length (group ++ b ∷ [])) 0) (append-nil (group ++ b ∷ [])))
decode-groups mask group b (c ∷ rest) h =
    let no_more : length group ≡ 6 → 7 - length (group ++ b ∷ []) ≡ 0 =
      λ e. omega (arith, length-append group (b ∷ [])) in
    elim (Bool-cases (length group == 6)) [
      | inl full ↦ rw (groups_next group b c rest true full) (
          decode-closed mask (group ++ b ∷ []) (groups [] (c ∷ rest))
            (omega (arith, length-append group (b ∷ [])))
          ∙ rw (no_more (ground arith), decode-groups 0 [] c rest (omega arith))
              (append_assoc group (b ∷ []) (c ∷ rest)))
      | inr open_yet ↦ rw (groups_next group b c rest false open_yet) (
          decode-groups mask (group ++ b ∷ []) c rest (ground (arith, length-append group (b ∷ [])))
          ∙ append_assoc group (b ∷ []) (c ∷ rest))
    ]

-- The client's decoder gives back the stat string that was encoded, byte for byte.
pub decode-encode : (bytes : List ℕ) → decode_stat_string (util_encode_stat_string bytes) ≡ bytes
unfolding decode_stat_string
decode-encode [] = unfold util_encode_stat_string in refl
decode-encode (b ∷ rest) = rw encode-groups (decode-groups 0 [] b rest (omega arith))

abbrev pub IsOddByte : ℕ → Type 0
IsOddByte b = (b % 2 ≡ 1) × (b < 256)

made_odd-IsOddByte : (bytes : List ℕ) → AreBytes bytes → All IsOddByte (map made_odd bytes)
made_odd-IsOddByte [] h = tt
made_odd-IsOddByte (b ∷ bytes) h = (ground arith, made_odd-IsOddByte bytes h.1)

mask-lt : (k : ℕ) (group : List ℕ) → length group ≤ k → odd_bits group < 2 ^ k
mask-lt k [] h = one-le-pow k 2 (omega arith)
mask-lt zero (b ∷ group) h = absurd (omega arith)
mask-lt (suc k) (b ∷ group) h = omega (arith, mask-lt k group (omega arith), pow-suc 2 k)

closed-IsOddByte :
    (group : List ℕ) → length group ≤ 7 → AreBytes group → All IsOddByte (closed group)
closed-IsOddByte group n h =
    ((omega arith, omega (arith, mask-lt 7 group n)), made_odd-IsOddByte group h)

groups-IsOddByte :
    (group rest : List ℕ)
    → length group < 7
    → AreBytes group
    → AreBytes rest
    → All IsOddByte (groups group rest)
unfolding groups
groups-IsOddByte group [] n h k = made_odd-IsOddByte group h
groups-IsOddByte group (b ∷ []) n h k =
    closed-IsOddByte (group ++ b ∷ []) (omega (arith, length-append group (b ∷ [])))
      (All-append IsByte group (b ∷ []) h k)
groups-IsOddByte group (b ∷ c ∷ rest) n h k =
    let grown = All-append IsByte group (b ∷ []) h (k.0, tt) in
    elim (Bool-cases (length group == 6)) [
      | inl full ↦ rw (groups_next group b c rest true full) (
          All-append IsOddByte (closed (group ++ b ∷ [])) (groups [] (c ∷ rest))
            (closed-IsOddByte (group ++ b ∷ []) (omega (arith, length-append group (b ∷ []))) grown)
            (groups-IsOddByte [] (c ∷ rest) (omega arith) tt k.1))
      | inr open_yet ↦ rw (groups_next group b c rest false open_yet) (
          groups-IsOddByte (group ++ b ∷ []) (c ∷ rest)
            (ground (arith, length-append group (b ∷ []))) grown k.1)
    ]

-- Every byte of an encoded stat string is odd, so none is the NUL that ends it in the packet.
pub encode-IsOddByte :
    (bytes : List ℕ) → AreBytes bytes → All IsOddByte (util_encode_stat_string bytes)
encode-IsOddByte bytes h = rw encode-groups (groups-IsOddByte [] bytes (omega arith) tt h)
