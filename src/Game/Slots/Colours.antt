-- ===== src/Game/Slots/Colours.antt =====
-- src/game/actor.rs: the colours of the lobby's slots.
use ghostpp_rs.Prelude.{
  ℕ, zero, suc, ◌<◌, ◌≡◌, ◌≢◌, refl, sym, ap, ◌∙◌, ◌⊎◌, inl, inr, arith, Bool, true, false, List,
  [], ◌∷◌, none, some, if◌then◌else◌, length, set, get_or-set_same, get_or-set_other, length-set,
  Bool-cases,
}
use ghostpp_rs.Core.GameSlot.{GameSlot}
use ghostpp_rs.Game.Slots.{
  position, slot_at, has_flag, mapopt_fixedplayersettings, mapopt_customforces,
}
use ghostpp_rs.Game.Slots.Changes.{moved, swapped}

abbrev pub colour_at : List GameSlot → ℕ → ℕ
colour_at slots i = (slot_at slots i).colour

-- Of `n` places no two have one colour, except 12, the colour of observers.
abbrev pub Distinct : (ℕ → ℕ) → ℕ → Type 0
Distinct c n = (i j : ℕ) → i < n → j < n → c i ≡ c j → (i ≡ j) ⊎ (c i ≡ 12)

-- Two places change colours.
pub transposed :
    (c c' : ℕ → ℕ) (n a b : ℕ)
    → a < n
    → b < n
    → c' a ≡ c b
    → c' b ≡ c a
    → ((k : ℕ) → k ≢ a → k ≢ b → c' k ≡ c k)
    → Distinct c n
    → Distinct c' n
transposed c c' n a b ha hb ea eb keep d i j hi hj e =
    ground (arith, keep i, keep j, d i j, d a j, d b j, d i a, d i b, d a b, d b a)

-- Two places keep theirs.
unchanged :
    (c c' : ℕ → ℕ) (n a b : ℕ)
    → c' a ≡ c a
    → c' b ≡ c b
    → ((k : ℕ) → k ≢ a → k ≢ b → c' k ≡ c k)
    → Distinct c n
    → Distinct c' n
unchanged c c' n a b ea eb keep d i j hi hj e = ground (arith, keep i, keep j, d i j)

-- One place takes a colour that no other has.
retaken :
    (c c' : ℕ → ℕ) (n a v : ℕ)
    → a < n
    → c' a ≡ v
    → ((k : ℕ) → k ≢ a → c' k ≡ c k)
    → ((k : ℕ) → k < n → k ≢ a → (c k ≢ v) ⊎ (v ≡ 12))
    → Distinct c n
    → Distinct c' n
retaken c c' n a v ha ea keep fresh d i j hi hj e =
    ground (arith, keep i, keep j, fresh i, fresh j, d i j)

all_cons :
    (p : GameSlot → Bool) (s : GameSlot) (slots : List GameSlot)
    → p s ≡ false
    → ((i : ℕ) → i < length slots → p (slot_at slots i) ≡ false)
    → (i : ℕ) → i < length (s ∷ slots)
    → p (slot_at (s ∷ slots) i) ≡ false
all_cons p s slots e all zero h = e
all_cons p s slots e all (suc i) h = all i (omega arith)

pub position_cases :
    (p : GameSlot → Bool) (slots : List GameSlot)
    → ((position p slots ≡ none) × ((i : ℕ) → i < length slots → p (slot_at slots i) ≡ false))
      ⊎ ((k : ℕ) × (position p slots ≡ some k) × (k < length slots) × (p (slot_at slots k) ≡ true))
unfolding position
position_cases p [] = inl (refl, λ i h. absurd (omega arith))
position_cases p (s ∷ slots) = elim (Bool-cases (p s)) [
  | inl here ↦ inr (0, simp here refl, omega arith, here)
  | inr not_here ↦ elim (position_cases p slots) [
    | inl (absent, all) ↦ inl (simp (not_here, absent) refl, all_cons p s slots not_here all)
    | inr (k, found, lt, holds) ↦ inr (suc k, simp (not_here, found) refl, omega arith, holds)
  ]
]

abbrev pub IsColoured : List GameSlot → Type 0
IsColoured slots = Distinct (colour_at slots) (length slots)

-- A change of one slot to a colour that no other slot has.
pub set-IsColoured :
    (slots : List GameSlot) (sid : ℕ) (s : GameSlot)
    → sid < length slots
    → ((k : ℕ) → k < length slots → k ≢ sid → (colour_at slots k ≢ s.colour) ⊎ (s.colour ≡ 12))
    → IsColoured slots
    → IsColoured (set slots sid s)
set-IsColoured slots sid s h fresh d = rw (length-set slots sid s) (
    retaken (colour_at slots) (colour_at (set slots sid s)) (length slots) sid s.colour h
      (ap (λ (t : GameSlot). t.colour) (get_or-set_same slots sid s _ h))
      (λ k ne. ap (λ (t : GameSlot). t.colour) (get_or-set_other slots sid k s _ (λ e. ne (sym e))))
      fresh d)

-- A change of one slot that keeps its colour.
pub set-IsColoured_kept :
    (slots : List GameSlot) (sid : ℕ) (s : GameSlot)
    → sid < length slots
    → s.colour ≡ colour_at slots sid
    → IsColoured slots
    → IsColoured (set slots sid s)
set-IsColoured_kept slots sid s h e d =
    set-IsColoured slots sid s h (λ k lt ne. ground (arith, d k sid)) d

moved-colour :
    (opts : ℕ) (place slot : GameSlot)
    → (moved opts place slot).colour
      ≡ (if has_flag opts mapopt_fixedplayersettings then place.colour else slot.colour)
moved-colour opts place slot = elim (Bool-cases (has_flag opts mapopt_fixedplayersettings)) [
  | inl fixed ↦ unfold moved in simp fixed refl
  | inr free ↦ elim (Bool-cases (has_flag opts mapopt_customforces)) [
    | inl custom ↦ unfold moved in simp (free, custom) refl
    | inr normal ↦ unfold moved in simp (free, normal) refl
  ]
]

pub two_sets :
    (slots : List GameSlot) (a b : ℕ) (s t : GameSlot)
    → a < length slots
    → b < length slots
    → a ≢ b
    → (colour_at (set (set slots a s) b t) a ≡ s.colour)
      × (colour_at (set (set slots a s) b t) b ≡ t.colour)
      × ((k : ℕ) → k ≢ a → k ≢ b → colour_at (set (set slots a s) b t) k ≡ colour_at slots k)
two_sets slots a b s t ha hb ne = (
  ap (λ (u : GameSlot). u.colour)
      (get_or-set_other (set slots a s) b a t _ (λ e. ne (sym e)) ∙ get_or-set_same slots a s _ ha),
  ap (λ (u : GameSlot). u.colour)
      (get_or-set_same (set slots a s) b t _ (omega (arith, length-set slots a s))),
  λ k na nb.
      ap (λ (u : GameSlot). u.colour)
        (get_or-set_other (set slots a s) b k t _ (λ e. nb (sym e))
          ∙ get_or-set_other slots a k s _ (λ e. na (sym e))),
)

pub swapped-IsColoured :
    (opts a b : ℕ) (slots : List GameSlot)
    → a < length slots
    → b < length slots
    → a ≢ b
    → IsColoured slots
    → IsColoured (swapped opts a b slots)
unfolding swapped
swapped-IsColoured opts a b slots ha hb ne d =
    let s = slot_at slots a in
    let t = slot_at slots b in
    let (at_a, at_b, others) = two_sets slots a b (moved opts s t) (moved opts t s) ha hb ne in
    rw
      (
        length-set (set slots a (moved opts s t)) b (moved opts t s),
        length-set slots a (moved opts s t),
      )
      (elim (Bool-cases (has_flag opts mapopt_fixedplayersettings)) [
        | inl fixed ↦
            unchanged (colour_at slots) _ (length slots) a b
              (at_a ∙ moved-colour opts s t ∙ simp fixed refl)
              (at_b ∙ moved-colour opts t s ∙ simp fixed refl) others d
        | inr free ↦
            transposed (colour_at slots) _ (length slots) a b ha hb
              (at_a ∙ moved-colour opts s t ∙ simp free refl)
              (at_b ∙ moved-colour opts t s ∙ simp free refl) others d
      ])
