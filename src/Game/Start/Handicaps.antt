-- ===== src/Game/Start/Handicaps.antt =====
-- src/game/actor.rs: the encoding map of event_game_started and its inverse.
use ghostpp_rs.Prelude.{
  ℕ, ◌+◌, ◌-◌, ◌*◌, ◌/◌, ◌%◌, ◌≤◌, ◌<◌, ◌≡◌, refl, ap, ◌∙◌, Bool, true, false, ◌&&◌, not, List, [],
  ◌∷◌, arith, ◌==◌, if◌then◌else◌, any, length, ltb, get_or,
}
use ghostpp_rs.Prelude.Bits.{all_below, all_below_sound}
use ghostpp_rs.Game.Start.{
  hcl_allowed_chars, index_of, is_allowed, is_valid_handicap, encoding_from, encoding_map,
  encode_handicap,
}

-- Where a handicap stands in the encoding map: the handicaps below it that are left out do not count.
unfoldable pub place : ℕ → ℕ
place e =
    e
    - 1
    - ((if ltb 50 e then 1 else 0)
        + ((if ltb 60 e then 1 else 0)
            + ((if ltb 70 e then 1 else 0)
                + ((if ltb 80 e then 1 else 0)
                    + ((if ltb 90 e then 1 else 0) + ((if ltb 100 e then 1 else 0)))))))

good : ℕ → Bool
unfolding place encoding_map encoding_from
good k = let e = get_or encoding_map k 0 in place e == k && not (is_valid_handicap e)

all_good : all_below 246 good ≡ true
unfolding all_below good place encoding_map encoding_from
all_good = refl

both : (a b : ℕ) (v : Bool) → (a == b && not v) ≡ true → (a ≡ b) × (v ≡ false)
both a b v e = ground arith

good_at :
    (k : ℕ)
    → k < 246
    → (place (get_or encoding_map k 0) ≡ k) × (is_valid_handicap (get_or encoding_map k 0) ≡ false)
unfolding good
good_at k h =
    both (place (get_or encoding_map k 0)) k (is_valid_handicap (get_or encoding_map k 0))
      (all_below_sound 246 good k all_good h)

index_of-lt : (c : ℕ) (cs : List ℕ) → any (λ d. d == c) cs ≡ true → index_of c cs < length cs
unfolding index_of
index_of-lt c [] h = ground arith
index_of-lt c (d ∷ ds) h = ground (arith, index_of-lt c ds)

get_or-index_of :
    (c : ℕ) (cs : List ℕ) → any (λ d. d == c) cs ≡ true → get_or cs (index_of c cs) 0 ≡ c
unfolding index_of
get_or-index_of c [] h = ground arith
get_or-index_of c (d ∷ ds) h = ground (arith, get_or-index_of c ds)

-- One of the handicaps from 50 to 100 in steps of ten.
abbrev pub IsHandicap : ℕ → Type 0
IsHandicap h = (50 ≤ h) × (h ≤ 100) × (h % 10 ≡ 0)

-- The character and the handicap that an encoded handicap stands for.
unfoldable pub char_of : ℕ → ℕ
char_of e = get_or hcl_allowed_chars (place e / 6) 0

unfoldable pub handicap_of : ℕ → ℕ
handicap_of e = 50 + place e % 6 * 10

module _ (c h : ℕ) (allowed : is_allowed c ≡ true) (chosen : IsHandicap h) where
  pub entry : ℕ
  entry = (h - 50) / 10 + index_of c hcl_allowed_chars * 6

  entry_lt : entry < 246
  unfolding entry
  entry_lt = omega (arith, index_of-lt c hcl_allowed_chars allowed, chosen)

  pub encoded :
      (place (encode_handicap c h) ≡ entry) × (is_valid_handicap (encode_handicap c h) ≡ false)
  unfolding encode_handicap
  encoded = unfold entry in good_at entry entry_lt

  pub char_of-encode : char_of (encode_handicap c h) ≡ c
  unfolding char_of
  char_of-encode =
      ap (λ k. get_or hcl_allowed_chars (k / 6) 0) encoded.0
      ∙ (ap (λ k. get_or hcl_allowed_chars k 0) sixth ∙ get_or-index_of c hcl_allowed_chars allowed)
    where
      sixth : entry / 6 ≡ index_of c hcl_allowed_chars
      sixth = unfold entry in omega (arith, chosen)

  pub handicap_of-encode : handicap_of (encode_handicap c h) ≡ h
  unfolding handicap_of
  handicap_of-encode = ap (λ k. 50 + k % 6 * 10) encoded.0 ∙ rest
    where
      rest : 50 + entry % 6 * 10 ≡ h
      rest = unfold entry in omega (arith, chosen)
