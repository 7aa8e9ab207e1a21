-- ===== src/Game/Start/Hcl.antt =====
-- src/game/actor.rs: the mode string in the handicaps, read back the way a map does it: an occupied slot
-- whose handicap no player can choose carries a character and the handicap that it stands for.
use ghostpp_rs.Prelude.{
  ℕ, ◌%◌, ◌≤◌, ◌≡◌, refl, ap, ◌∙◌, Bool, true, false, ◌&&◌, not, List, [], ◌∷◌, inl, inr, arith,
  ◌==◌, if◌then◌else◌, length, ltb, leb, ◌||◌, Bool-cases, if-false, if-true, All,
}
use ghostpp_rs.Prelude.Bits.{all_below, all_below_sound}
use ghostpp_rs.Core.GameSlot.{GameSlot}
use ghostpp_rs.Game.Start.{
  is_allowed, all_allowed, is_valid_handicap, encode_handicap, is_occupied, encode_hcl,
  count_occupied, with_hcl,
}
use ghostpp_rs.Game.Start.Handicaps.{
  char_of, handicap_of, IsHandicap, encoded, char_of-encode, handicap_of-encode,
}

abbrev pub carries : GameSlot → Bool
carries s = is_occupied s && not (is_valid_handicap s.handicap)

-- The mode string that the slots carry.
unfoldable pub read_hcl : List GameSlot → List ℕ
read_hcl [] = []
read_hcl (s ∷ slots) =
    let rest = read_hcl slots in if carries s then char_of s.handicap ∷ rest else rest

-- The slots with the handicaps that the players chose.
unfoldable pub restore : List GameSlot → List GameSlot
restore [] = []
restore (s ∷ slots) =
    (if carries s then record s { handicap = handicap_of s.handicap } else s) ∷ restore slots

-- Every occupied slot has a handicap that a player can choose.
abbrev pub IsChosen : List GameSlot → Type 0
IsChosen slots = All (λ (s : GameSlot). is_occupied s ≡ true → IsHandicap s.handicap) slots

choosable : ℕ → Bool
choosable h = not (leb 50 h && h % 10 == 0) || is_valid_handicap h

all_choosable : all_below 101 choosable ≡ true
unfolding all_below choosable
all_choosable = refl

valid : (h : ℕ) → IsHandicap h → is_valid_handicap h ≡ true
unfolding choosable
valid h k = out (is_valid_handicap h) (all_below_sound 101 choosable h all_choosable (omega arith))
  where
    out : (v : Bool) → (not (leb 50 h && h % 10 == 0) || v) ≡ true → v ≡ true
    out v e = ground arith

carries_not : (s : GameSlot) → (is_occupied s ≡ true → IsHandicap s.handicap) → carries s ≡ false
carries_not s chosen = elim (Bool-cases (is_occupied s)) [
  | inl occupied ↦ rw (occupied, valid s.handicap (chosen occupied)) refl
  | inr empty ↦ rw empty refl
]

read_nothing :
    (slots : List GameSlot) → IsChosen slots → (read_hcl slots ≡ []) × (restore slots ≡ slots)
unfolding read_hcl restore
read_nothing [] h = (refl, refl)
read_nothing (s ∷ slots) h =
    let rest = read_nothing slots h.1 in
    let plain = carries_not s h.0 in
    (
      if-false (carries s) _ _ plain ∙ rest.0,
      λ i.
          if-false (carries s) (record s { handicap = handicap_of s.handicap }) s plain i
          ∷ rest.1 i,
    )

-- The slot whose handicap has taken up the character `c`.
with_char : ℕ → GameSlot → GameSlot
with_char c s = record s { handicap = encode_handicap c s.handicap }

with_char-carries :
    (c : ℕ) (s : GameSlot)
    → is_allowed c ≡ true
    → is_occupied s ≡ true
    → IsHandicap s.handicap
    → carries (with_char c s) ≡ true
unfolding with_char
with_char-carries c s allowed occupied chosen =
    rw (occupied, (encoded c s.handicap allowed chosen).1) refl

with_char-restored :
    (c : ℕ) (s : GameSlot)
    → is_allowed c ≡ true
    → IsHandicap s.handicap
    → record (with_char c s) { handicap = handicap_of (with_char c s).handicap } ≡ s
unfolding with_char
with_char-restored c s allowed chosen =
    ap (λ h. record s { handicap = h }) (handicap_of-encode c s.handicap allowed chosen)

encode_hcl-occupied :
    (c : ℕ) (cs : List ℕ) (s : GameSlot) (slots : List GameSlot)
    → is_occupied s ≡ true
    → encode_hcl (c ∷ cs) (s ∷ slots) ≡ with_char c s ∷ encode_hcl cs slots
unfolding encode_hcl with_char
encode_hcl-occupied c cs s slots occupied = if-true (is_occupied s) _ _ occupied

encode_hcl-empty :
    (c : ℕ) (cs : List ℕ) (s : GameSlot) (slots : List GameSlot)
    → is_occupied s ≡ false
    → encode_hcl (c ∷ cs) (s ∷ slots) ≡ s ∷ encode_hcl (c ∷ cs) slots
unfolding encode_hcl
encode_hcl-empty c cs s slots empty = if-false (is_occupied s) _ _ empty

-- A slot that carries a character, before the others.
carried :
    (s : GameSlot) (slots : List GameSlot) (c : ℕ) (cs : List ℕ) (s' : GameSlot)
    (slots' : List GameSlot)
    → carries s ≡ true
    → char_of s.handicap ≡ c
    → record s { handicap = handicap_of s.handicap } ≡ s'
    → (read_hcl slots ≡ cs) × (restore slots ≡ slots')
    → (read_hcl (s ∷ slots) ≡ c ∷ cs) × (restore (s ∷ slots) ≡ s' ∷ slots')
unfolding read_hcl restore
carried s slots c cs s' slots' carrying char slot rest = (
  if-true (carries s) _ _ carrying ∙ (λ i. char i ∷ rest.0 i),
  λ i.
      (if-true (carries s) (record s { handicap = handicap_of s.handicap }) s carrying ∙ slot) i
      ∷ rest.1 i,
)

-- A slot that carries none, before the others.
plain :
    (s : GameSlot) (slots : List GameSlot) (cs : List ℕ) (slots' : List GameSlot)
    → carries s ≡ false
    → (read_hcl slots ≡ cs) × (restore slots ≡ slots')
    → (read_hcl (s ∷ slots) ≡ cs) × (restore (s ∷ slots) ≡ s ∷ slots')
unfolding read_hcl restore
plain s slots cs slots' bare rest = (
  if-false (carries s) _ _ bare ∙ rest.0,
  λ i. if-false (carries s) (record s { handicap = handicap_of s.handicap }) s bare i ∷ rest.1 i,
)

abbrev IsReadBack : List ℕ → List GameSlot → List GameSlot → Type 0
IsReadBack cs coded slots = (read_hcl coded ≡ cs) × (restore coded ≡ slots)

read-encode :
    (cs : List ℕ) (slots : List GameSlot)
    → all_allowed cs ≡ true
    → length cs ≤ count_occupied slots
    → IsChosen slots
    → IsReadBack cs (encode_hcl cs slots) slots
unfolding encode_hcl count_occupied all_allowed with_char
read-encode [] slots allowed fits chosen = read_nothing slots chosen
read-encode (c ∷ cs) [] allowed fits chosen = absurd (omega arith)
read-encode (c ∷ cs) (s ∷ slots) allowed fits chosen =
    let first = and_true (is_allowed c) (all_allowed cs) allowed in
    elim (Bool-cases (is_occupied s)) [
      | inl occupied ↦
          let rest = read-encode cs slots first.1 (ground arith) chosen.1 in
          let seat = chosen.0 occupied in
          rw (encode_hcl-occupied c cs s slots occupied) (
            carried (with_char c s) (encode_hcl cs slots) c cs s slots
              (with_char-carries c s first.0 occupied seat)
              (char_of-encode c s.handicap first.0 seat) (with_char-restored c s first.0 seat) rest)
      | inr empty ↦
          let rest = read-encode (c ∷ cs) slots allowed (ground arith) chosen.1 in
          rw (encode_hcl-empty c cs s slots empty)
            (plain s (encode_hcl (c ∷ cs) slots) (c ∷ cs) slots (carries_not s chosen.0) rest)
    ]
  where
    and_true : (a b : Bool) → (a && b) ≡ true → (a ≡ true) × (b ≡ true)
    and_true a b e = ground arith

-- A mode string of allowed characters that fits the occupied slots, each with a handicap from 50 to 100 in
-- steps of ten, is read back by the map from the slots of the started game, and so are the handicaps.
pub read_hcl-with_hcl :
    (hcl : List ℕ) (slots : List GameSlot)
    → all_allowed hcl ≡ true
    → length hcl ≤ count_occupied slots
    → IsChosen slots
    → (read_hcl (with_hcl hcl slots) ≡ hcl) × (restore (with_hcl hcl slots) ≡ slots)
unfolding with_hcl
read_hcl-with_hcl hcl slots allowed fits chosen =
    rw
      (if-false (ltb (count_occupied slots) (length hcl) || not (all_allowed hcl)) slots
        (encode_hcl hcl slots) (encodes (all_allowed hcl) allowed))
      (read-encode hcl slots allowed fits chosen)
  where
    encodes : (ok : Bool) → ok ≡ true → (ltb (count_occupied slots) (length hcl) || not ok) ≡ false
    encodes ok e = ground arith
