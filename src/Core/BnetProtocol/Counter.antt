-- ===== src/Core/BnetProtocol/Counter.antt =====
-- The host counter in send_sid_startadvex3 of src/core/bnetprotocol.rs: eight hexadecimal digits, the
-- lowest first, read back as a number.
use mathlib.Core.List.{reverse, reverse-append, reverse-cons}
use native.Mathlib.Nat.{pow-suc}
use ghostpp_rs.Prelude.{
  ℕ, zero, suc, ◌+◌, ◌-◌, ◌*◌, ◌/◌, ◌%◌, ◌^◌, ◌≤◌, ◌<◌, ◌≡◌, refl, ◌∙◌, inl, inr, List, [], ◌∷◌,
  ◌++◌, arith, length, length-append, replicate, length-replicate, ltb, if◌then◌else◌, Bool-cases,
  ltb→lt,
}
use ghostpp_rs.Prelude.Text.{hex_digit, hex_digits, hexadecimal}
use ghostpp_rs.Util.{util_to_hex_string}
use ghostpp_rs.Core.BnetProtocol.Send.{host_counter_string}

abbrev digit_value : ℕ → ℕ
digit_value c = if ltb c 58 then c - 48 else c - 87

-- The value of digits that stand lowest first.
unfoldable pub counter_value : List ℕ → ℕ
counter_value [] = 0
counter_value (c ∷ cs) = digit_value c + 16 * counter_value cs

value_digit : (d : ℕ) → d < 16 → digit_value (hex_digit d) ≡ d
value_digit d h = ground arith

hex_digits_small : (fuel n : ℕ) → n < 16 → hex_digits (suc fuel) n ≡ hex_digit n ∷ []
unfolding hex_digits
hex_digits_small fuel n h = ground arith

hex_digits_big :
    (fuel n : ℕ)
    → 16 ≤ n
    → hex_digits (suc fuel) n ≡ hex_digits fuel (n / 16) ++ hex_digit (n % 16) ∷ []
unfolding hex_digits
hex_digits_big fuel n h = ground arith

reverse-snoc : (xs : List ℕ) (x : ℕ) → reverse (xs ++ x ∷ []) ≡ x ∷ reverse xs
reverse-snoc xs x = reverse-append xs (x ∷ [])

counter_value-hex_digits : (fuel n : ℕ) → n < fuel → counter_value (reverse (hex_digits fuel n)) ≡ n
unfolding counter_value
counter_value-hex_digits zero n h = absurd (omega arith)
counter_value-hex_digits (suc fuel) n h = elim (Bool-cases (ltb n 16)) [
  | inl few ↦
      rw (hex_digits_small fuel n (ltb→lt n 16 few))
        (omega (arith, value_digit n (ltb→lt n 16 few)))
  | inr many ↦
      let big : 16 ≤ n = ground arith in
      rw (hex_digits_big fuel n big, reverse-snoc (hex_digits fuel (n / 16)) (hex_digit (n % 16)))
        (omega (
          arith,
          value_digit (n % 16) (omega arith),
          counter_value-hex_digits fuel (n / 16) (omega arith),
        ))
]

length-hex_digits : (k fuel n : ℕ) → n < 16 ^ suc k → length (hex_digits fuel n) ≤ suc k
length-hex_digits k zero n h = unfold hex_digits in omega arith
length-hex_digits zero (suc fuel) n h = rw (hex_digits_small fuel n h) (omega arith)
length-hex_digits (suc k) (suc fuel) n h = elim (Bool-cases (ltb n 16)) [
  | inl few ↦ rw (hex_digits_small fuel n (ltb→lt n 16 few)) (omega arith)
  | inr many ↦
      let big : 16 ≤ n = ground arith in
      let less : n / 16 < 16 ^ suc k = omega (arith, pow-suc 16 (suc k)) in
      rw (hex_digits_big fuel n big) (
        omega (
          arith,
          length-append (hex_digits fuel (n / 16)) (hex_digit (n % 16) ∷ []),
          length-hex_digits k fuel (n / 16) less,
        ))
]

length-reverse : (xs : List ℕ) → length (reverse xs) ≡ length xs
length-reverse [] = refl
length-reverse (x ∷ xs) =
    rw (reverse-cons x xs) (omega (arith, length-append (reverse xs) (x ∷ []), length-reverse xs))

counter_value-append_zero :
    (xs ys : List ℕ) → counter_value ys ≡ 0 → counter_value (xs ++ ys) ≡ counter_value xs
unfolding counter_value
counter_value-append_zero [] ys h = h
counter_value-append_zero (x ∷ xs) ys h = omega (arith, counter_value-append_zero xs ys h)

counter_value-zeros : (k : ℕ) → counter_value (reverse (replicate k 48)) ≡ 0
unfolding counter_value
counter_value-zeros zero = refl
counter_value-zeros (suc k) =
    rw (reverse-cons {A = ℕ} 48 (replicate k 48))
      (counter_value-append_zero (reverse (replicate k 48)) (48 ∷ []) refl ∙ counter_value-zeros k)

-- For every 32-bit counter.
pub host_counter_string_read :
    (n : ℕ)
    → n < 2 ^ 32
    → (length (host_counter_string n) ≡ 8) × (counter_value (host_counter_string n) ≡ n)
unfolding host_counter_string util_to_hex_string hexadecimal
host_counter_string_read n h = (
  length-reverse (replicate (8 - length digits) 48 ++ digits)
      ∙ omega (
        arith,
        length-append (replicate (8 - length digits) 48) digits,
        length-replicate {A = ℕ} (8 - length digits) 48,
        length-hex_digits 7 (suc n) n h,
      ),
  rw (reverse-append (replicate (8 - length (hex_digits (suc n) n)) 48) (hex_digits (suc n) n)) (
      counter_value-append_zero (reverse (hex_digits (suc n) n)) _
        (counter_value-zeros (8 - length (hex_digits (suc n) n)))
      ∙ counter_value-hex_digits (suc n) n (omega arith)),
)
  where
    digits : List ℕ
    digits = hex_digits (suc n) n
