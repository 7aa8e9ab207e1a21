-- ===== src/Game/Shuffle/Shuffled.antt =====
-- shuffle_players of src/game/actor.rs: the players change places among the slots that they occupy.
use mathlib.Core.List.{Perm}
use mathlib.Core.List.Perm
use ghostpp_rs.Prelude.{
  ℕ, zero, suc, ◌+◌, ◌-◌, ◌%◌, ◌<◌, ◌≡◌, refl, ap, ◌∙◌, true, false, List, [], ◌∷◌, map, length,
  get_or, set, arith, inl, inr, Bool-cases, eq-cases, if◌then◌else◌, length-set, get_or-set_same,
  get_or-set_other, if-false,
}
use ghostpp_rs.Core.GameSlot.{GameSlot}
use ghostpp_rs.Game.Shuffle.{
  Seat, nobody, is_seated, seats, swap_at, fisher_yates, refill, shuffled, shuffle_players,
}
use ghostpp_rs.Game.{GameActor}
use ghostpp_rs.Game.Hub.{send_all_slot_info}
use ghostpp_rs.Game.Hub.Settled.{settle, send_all_slot_info-settle}

-- What stays with a slot: all but the seat of a player.
unfoldable pub unseated : GameSlot → GameSlot
unseated s = if is_seated s then record s { pid = 0; download_status = 0 } else s

seats_taken :
    (s : GameSlot) (slots : List GameSlot)
    → is_seated s ≡ true
    → seats (s ∷ slots) ≡ (s.pid, s.download_status) ∷ seats slots
unfolding seats
seats_taken s slots h = rw h refl

seats_other :
    (s : GameSlot) (slots : List GameSlot) → is_seated s ≡ false → seats (s ∷ slots) ≡ seats slots
unfolding seats
seats_other s slots h = rw h refl

unseated_moved :
    (s : GameSlot) (x : Seat)
    → is_seated s ≡ true
    → unseated (record s { pid = x.0; download_status = x.1 }) ≡ unseated s
unfolding unseated
unseated_moved s x taken = rw taken refl

-- Seats that fit are the seats afterwards, and nothing else changes.
refill_lem :
    (slots : List GameSlot) (xs : List Seat)
    → length xs ≡ length (seats slots)
    → (seats (refill slots xs) ≡ xs) × (map unseated (refill slots xs) ≡ map unseated slots)
unfolding refill
refill_lem [] [] h = unfold seats in (refl, refl)
refill_lem [] (x ∷ xs) h = absurd (unfold seats in omega arith)
refill_lem (s ∷ slots) [] h = elim (Bool-cases (is_seated s)) [
  | inl taken ↦ absurd (omega (arith, ap length (seats_taken s slots taken)))
  | inr other ↦
      let rest = refill_lem slots [] (h ∙ ap length (seats_other s slots other)) in
      (seats_other s (refill slots []) other ∙ rest.0, ap (λ t. unseated s ∷ t) rest.1)
]
refill_lem (s ∷ slots) (x ∷ xs) h = elim (Bool-cases (is_seated s)) [
  | inl taken ↦
      let rest = refill_lem slots xs (omega (arith, ap length (seats_taken s slots taken))) in
      rw taken (
        seats_taken (record s { pid = x.0; download_status = x.1 }) (refill slots xs) taken
            ∙ ap (λ t. x ∷ t) rest.0,
        (λ i. unseated_moved s x taken i ∷ rest.1 i),
      )
  | inr other ↦
      let rest = refill_lem slots (x ∷ xs) (h ∙ ap length (seats_other s slots other)) in
      rw other
        (seats_other s (refill slots (x ∷ xs)) other ∙ rest.0, ap (λ t. unseated s ∷ t) rest.1)
]

-- A seat put in the place of another, which comes out.
set-Perm :
    (xs : List Seat) (i : ℕ) (v : Seat)
    → i < length xs
    → Perm (v ∷ xs) (get_or xs i nobody ∷ set xs i v)
set-Perm [] i v h = absurd (omega arith)
set-Perm (x ∷ xs) zero v h = Perm.swap x v xs
set-Perm (x ∷ xs) (suc i) v h = Perm.trans (Perm.swap x v xs) (
    Perm.trans (Perm.cons x (set-Perm xs i v (omega arith)))
      (Perm.swap (get_or xs i nobody) x (set xs i v)))

module _ (xs : List Seat) (i j : ℕ) (hi : i < length xs) (hj : j < length xs) where
  length-swap_at : length (swap_at i j xs) ≡ length xs
  unfolding swap_at
  length-swap_at = length-set (set xs i (get_or xs j nobody)) j _ ∙ length-set xs i _

  still_there : get_or (set xs i (get_or xs j nobody)) j nobody ≡ get_or xs j nobody
  still_there = elim (eq-cases i j) [
    | inl e ↦ rw e (get_or-set_same xs j (get_or xs j nobody) nobody hj)
    | inr ne ↦ get_or-set_other xs i j (get_or xs j nobody) nobody ne
  ]

  swap_at-Perm : Perm xs (swap_at i j xs)
  unfolding swap_at
  swap_at-Perm =
      let hj' : j < length (set xs i (get_or xs j nobody)) =
        omega (arith, length-set xs i (get_or xs j nobody)) in
      Perm.cons_inv (
        rw still_there at (
          Perm.trans (set-Perm xs i (get_or xs j nobody) hi)
            (set-Perm (set xs i (get_or xs j nobody)) j (get_or xs i nobody) hj')))

fisher_yates-Perm :
    (random : ℕ → ℕ) (i : ℕ) (xs : List Seat) → i < length xs → Perm xs (fisher_yates random i xs)
unfolding fisher_yates
fisher_yates-Perm random zero xs h = Perm.refl xs
fisher_yates-Perm random (suc i) xs h =
    let drawn : random (suc i) % (suc i + 1) < length xs = omega arith in
    Perm.trans (swap_at-Perm xs (suc i) (random (suc i) % (suc i + 1)) h drawn) (
      fisher_yates-Perm random i (swap_at (suc i) (random (suc i) % (suc i + 1)) xs)
        (omega (arith, length-swap_at xs (suc i) (random (suc i) % (suc i + 1)) h drawn)))

length-fisher_yates :
    (random : ℕ → ℕ) (i : ℕ) (xs : List Seat) → length (fisher_yates random i xs) ≡ length xs
unfolding fisher_yates swap_at
length-fisher_yates random zero xs = refl
length-fisher_yates random (suc i) xs =
    length-fisher_yates random i (swap_at (suc i) (random (suc i) % (suc i + 1)) xs)
    ∙ (length-set (set xs (suc i) _) _ _ ∙ length-set xs (suc i) _)

all_rounds-Perm :
    (random : ℕ → ℕ) (xs : List Seat) → Perm xs (fisher_yates random (length xs - 1) xs)
all_rounds-Perm random [] = unfold fisher_yates in Perm.refl []
all_rounds-Perm random (x ∷ xs) =
    fisher_yates-Perm random (length (x ∷ xs) - 1) (x ∷ xs) (omega arith)

shuffled-Perm :
    (random : ℕ → ℕ) (slots : List GameSlot)
    → Perm (seats slots) (seats (shuffled random slots))
      × (map unseated (shuffled random slots) ≡ map unseated slots)
unfolding shuffled
shuffled-Perm random slots =
    let drawn =
      refill_lem slots (fisher_yates random (length (seats slots) - 1) (seats slots))
        (length-fisher_yates random (length (seats slots) - 1) (seats slots)) in
    (rw (drawn.0) (all_rounds-Perm random (seats slots)), drawn.1)

send_all_slot_info-slots : (g : GameActor) → (send_all_slot_info g).slots ≡ g.slots
unfolding settle
send_all_slot_info-slots g = ap (λ (h : GameActor). h.slots) (send_all_slot_info-settle g)

shuffle_started :
    (random : ℕ → ℕ) (g : GameActor) → g.started ≡ true → (shuffle_players random g).slots ≡ g.slots
unfolding shuffle_players
shuffle_started random g started = rw started refl

shuffle_lobby :
    (random : ℕ → ℕ) (g : GameActor)
    → g.started ≡ false
    → (shuffle_players random g).slots ≡ shuffled random g.slots
unfolding shuffle_players
shuffle_lobby random g lobby =
    ap (λ (h : GameActor). h.slots) (if-false g.started g sent lobby)
    ∙ send_all_slot_info-slots (record g { slots = shuffled random g.slots })
  where
    sent : GameActor
    sent = send_all_slot_info (record g { slots = shuffled random g.slots })

-- Whatever numbers are drawn, the pids and download statuses of the players in the slots after a shuffle
-- are those before it in another order, and every slot keeps its team, its colour and all else; slots
-- without a player do not change.
pub shuffle_players-Perm :
    (random : ℕ → ℕ) (g : GameActor)
    → Perm (seats g.slots) (seats (shuffle_players random g).slots)
      × (map unseated (shuffle_players random g).slots ≡ map unseated g.slots)
shuffle_players-Perm random g = elim (Bool-cases g.started) [
  | inl started ↦ rw (shuffle_started random g started) (Perm.refl (seats g.slots), refl)
  | inr lobby ↦ rw (shuffle_lobby random g lobby) (shuffled-Perm random g.slots)
]
