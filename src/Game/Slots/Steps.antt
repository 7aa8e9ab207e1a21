-- ===== src/Game/Slots/Steps.antt =====
-- src/game/actor.rs: each change of the slot table keeps the colours apart.
use ghostpp_rs.Prelude.{
  ℕ, zero, suc, ◌-◌, ◌<◌, ◌≡◌, ◌≢◌, refl, sym, ap, ◌∙◌, ◌⊎◌, inl, inr, arith, Bool, true, false,
  List, [], ◌∷◌, Option, none, some, ◌==◌, if◌then◌else◌, length, any, set, get_or-set_same,
  length-set, eq-cases, Bool-cases,
}
use Prim.Native.Nat.{bit_and, bit_or}
use ghostpp_rs.Core.GameSlot.{GameSlot, max_slots}
use ghostpp_rs.Game.{GameActor}
use ghostpp_rs.Game.Hub.{send_all_slot_info}
use ghostpp_rs.Game.Hub.Delivery.{send_all_slot_info-slots}
use ghostpp_rs.Game.Slots.{
  position, slot_at, slot_index_of_pid, find, colours, get_new_colour, is_unused, or_max_slots,
  get_empty_slot_on_team, has_flag, mapopt_customforces,
}
use ghostpp_rs.Game.Slots.Changes.{
  swapped, swap_slots, change_slot, for_slot, change_team_custom, retinted, change_team, recoloured,
  change_colour, change_race, change_handicap, team_allowed, refuses_swap, refuses_colour,
  refuses_race, refuses_handicap, with_colour, with_race, with_handicap, claim_colour,
}
use ghostpp_rs.Game.Slots.Colours.{
  colour_at, IsColoured, position_cases, set-IsColoured, set-IsColoured_kept, swapped-IsColoured,
  two_sets, transposed,
}

-- No two slots of the lobby have one colour, except 12, the colour of observers.
pub record Coloured (g : GameActor) : Type 0 where
  pub distinct : IsColoured g.slots

if-IsColoured :
    (b : Bool) (g h : GameActor)
    → Coloured g
    → (b ≡ false → Coloured h)
    → Coloured (if b then g else h)
if-IsColoured true g h dg dh = dg
if-IsColoured false g h dg dh = dh refl

sent-IsColoured : (g : GameActor) → Coloured g → Coloured (send_all_slot_info g)
sent-IsColoured g d = record { distinct = rw (send_all_slot_info-slots g) d.distinct }

for_slot-IsColoured :
    (p : GameSlot → Bool) (f : ℕ → GameActor → GameActor) (g : GameActor)
    → Coloured g
    → ((sid : ℕ) → sid < length g.slots → Coloured (f sid g))
    → Coloured (for_slot (position p g.slots) f g)
for_slot-IsColoured p f g d step = elim (position_cases p g.slots) [
  | inl (absent, all) ↦ unfold for_slot in simp absent d
  | inr (k, found, lt, holds) ↦ unfold for_slot in simp found (step k lt)
]

pub swap_slots-IsColoured : (a b : ℕ) (g : GameActor) → Coloured g → Coloured (swap_slots a b g)
unfolding swap_slots
swap_slots-IsColoured a b g d =
    if-IsColoured (refuses_swap a b g) g
      (send_all_slot_info (record g { slots = swapped g.map_options a b g.slots })) d
      (λ e.
        sent-IsColoured (record g { slots = swapped g.map_options a b g.slots })
          (record {
            distinct =
                swapped-IsColoured g.map_options a b g.slots (ground arith) (ground arith)
                  (ground arith) d.distinct;
          }))

change_slot-IsColoured :
    (f : GameSlot → GameSlot) (sid : ℕ) (g : GameActor)
    → sid < length g.slots
    → (f (slot_at g.slots sid)).colour ≡ colour_at g.slots sid
    → Coloured g
    → Coloured (change_slot f sid g)
unfolding change_slot
change_slot-IsColoured f sid g h e d =
    sent-IsColoured (record g { slots = set g.slots sid (f (slot_at g.slots sid)) })
      (record {
        distinct = set-IsColoured_kept g.slots sid (f (slot_at g.slots sid)) h e d.distinct;
      })

pub change_handicap-IsColoured :
    (pid to : ℕ) (g : GameActor) → Coloured g → Coloured (change_handicap pid to g)
unfolding change_handicap slot_index_of_pid
change_handicap-IsColoured pid to g d =
    if-IsColoured (refuses_handicap to g) g
      (for_slot (slot_index_of_pid pid g) (change_slot (with_handicap to)) g) d
      (λ e.
        for_slot-IsColoured (λ s. s.pid == pid) (change_slot (with_handicap to)) g d
          (λ sid h. change_slot-IsColoured (with_handicap to) sid g h refl d))

pub change_race-IsColoured :
    (pid to : ℕ) (g : GameActor) → Coloured g → Coloured (change_race pid to g)
unfolding change_race slot_index_of_pid
change_race-IsColoured pid to g d =
    let base = bit_and to (255 - 64) in
    if-IsColoured (refuses_race base g) g
      (for_slot (slot_index_of_pid pid g) (change_slot (with_race (bit_or base 64))) g) d
      (λ e.
        for_slot-IsColoured (λ s. s.pid == pid) (change_slot (with_race (bit_or base 64))) g d
          (λ sid h. change_slot-IsColoured (with_race (bit_or base 64)) sid g h refl d))

for_any-IsColoured :
    (o : Option ℕ) (f : ℕ → GameActor → GameActor) (g : GameActor)
    → Coloured g
    → ((sid : ℕ) → Coloured (f sid g))
    → Coloured (for_slot o f g)
unfolding for_slot
for_any-IsColoured none f g d step = d
for_any-IsColoured (some sid) f g d step = step sid

-- The new colour is one that no slot has.
find_cases :
    (p : ℕ → Bool) (ns : List ℕ)
    → (find p ns ≡ none) ⊎ ((n : ℕ) × (find p ns ≡ some n) × (p n ≡ true))
unfolding find
find_cases p [] = inl refl
find_cases p (n ∷ ns) = elim (Bool-cases (p n)) [
  | inl holds ↦ inr (n, simp holds refl, holds)
  | inr fails ↦ simp fails (find_cases p ns)
]

none_has :
    (test : ℕ) (slots : List GameSlot) (k : ℕ)
    → k < length slots
    → any (λ s. s.colour == test) slots ≡ false
    → colour_at slots k ≢ test
none_has test [] k h e = absurd (omega arith)
none_has test (s ∷ slots) zero h e = ground arith
none_has test (s ∷ slots) (suc k) h e = none_has test slots k (omega arith) (ground arith)

get_new_colour-fresh :
    (slots : List GameSlot) (k : ℕ)
    → k < length slots
    → (colour_at slots k ≢ get_new_colour slots) ⊎ (get_new_colour slots ≡ 12)
unfolding get_new_colour
get_new_colour-fresh slots k h = elim (find_cases (is_unused slots) colours) [
  | inl absent ↦ inr (ap or_max_slots absent)
  | inr (n, found, fresh) ↦
      let none_has_n : colour_at slots k ≢ n = none_has n slots k h (ground arith) in
      inl (λ e. none_has_n (e ∙ ap or_max_slots found))
]

retinted-fresh :
    (to : ℕ) (slots : List GameSlot) (sid k : ℕ)
    → IsColoured slots
    → sid < length slots
    → k < length slots
    → k ≢ sid
    → (colour_at slots k ≢ (retinted to slots (slot_at slots sid)).colour)
      ⊎ ((retinted to slots (slot_at slots sid)).colour ≡ 12)
unfolding retinted
retinted-fresh to slots sid k d h lt ne = ground (arith, get_new_colour-fresh slots k, d k sid)

change_team_custom-IsColoured :
    (pid to : ℕ) (g : GameActor) → Coloured g → Coloured (change_team_custom pid to g)
unfolding change_team_custom slot_index_of_pid
change_team_custom-IsColoured pid to g d =
    for_any-IsColoured (slot_index_of_pid pid g)
      (λ old_sid h. for_slot (get_empty_slot_on_team to pid h) (swap_slots old_sid) h) g d
      (λ old_sid.
        for_any-IsColoured (get_empty_slot_on_team to pid g) (swap_slots old_sid) g d
          (λ new_sid. swap_slots-IsColoured old_sid new_sid g d))

retint-IsColoured :
    (to sid : ℕ) (g : GameActor)
    → sid < length g.slots
    → Coloured g
    → Coloured (change_slot (retinted to g.slots) sid g)
unfolding change_slot
retint-IsColoured to sid g h d =
    sent-IsColoured
      (record g { slots = set g.slots sid (retinted to g.slots (slot_at g.slots sid)) })
      (record {
        distinct =
            set-IsColoured g.slots sid (retinted to g.slots (slot_at g.slots sid)) h
              (λ k lt ne. retinted-fresh to g.slots sid k d.distinct h lt ne) d.distinct;
      })

pub change_team-IsColoured :
    (pid to : ℕ) (g : GameActor) → Coloured g → Coloured (change_team pid to g)
change_team-IsColoured pid to g d = elim (Bool-cases g.started) [
  | inl begun ↦ unfold change_team in simp begun d
  | inr lobby ↦ elim (Bool-cases (has_flag g.map_options mapopt_customforces)) [
    | inl custom ↦
        unfold change_team in simp (lobby, custom) (change_team_custom-IsColoured pid to g d)
    | inr free ↦ elim (Bool-cases (team_allowed pid to g)) [
      | inl allowed ↦
          unfold change_team in
          unfold slot_index_of_pid in
          simp (lobby, free, allowed)
            (for_slot-IsColoured (λ s. s.pid == pid) (change_slot (retinted to g.slots)) g d
              (λ sid h. retint-IsColoured to sid g h d))
      | inr refused ↦ unfold change_team in simp (lobby, free, refused) d
    ]
  ]
]

take_unused :
    (sid to : ℕ) (g : GameActor)
    → sid < length g.slots
    → ((i : ℕ) → i < length g.slots → (colour_at g.slots i == to) ≡ false)
    → Coloured g
    → Coloured (change_slot (with_colour to) sid g)
unfolding change_slot
take_unused sid to g h unused d =
    sent-IsColoured (record g { slots = set g.slots sid (with_colour to (slot_at g.slots sid)) })
      (record {
        distinct =
            set-IsColoured g.slots sid (with_colour to (slot_at g.slots sid)) h
              (λ k lt ne. inl (ground (arith, unused k lt))) d.distinct;
      })

-- The player's slot and the unused slot `tsid` change colours.
exchange :
    (sid tsid : ℕ) (slots : List GameSlot)
    → sid < length slots
    → tsid < length slots
    → IsColoured slots
    → (s : GameSlot) → s.colour ≡ colour_at slots tsid
    → IsColoured
        (set (set slots tsid (with_colour (colour_at slots sid) (slot_at slots tsid))) sid s)
exchange sid tsid slots h k d s e =
    let t = with_colour (colour_at slots sid) (slot_at slots tsid) in
    elim (eq-cases tsid sid) [
      | inl same ↦
          let first : IsColoured (set slots tsid t) =
            set-IsColoured_kept slots tsid t k (ap (colour_at slots) (sym same)) d in
          set-IsColoured_kept (set slots tsid t) sid s (rw (length-set slots tsid t) h)
            (e
              ∙ ap (colour_at slots) same
              ∙ ap (λ (u : GameSlot). u.colour) (sym (get_or-set_same slots tsid t _ k))
              ∙ ap (colour_at (set slots tsid t)) same)
            first
      | inr ne ↦
          let (at_t, at_s, others) = two_sets slots tsid sid t s k h ne in
          rw (length-set (set slots tsid t) sid s, length-set slots tsid t)
            (transposed (colour_at slots) (colour_at (set (set slots tsid t) sid s)) (length slots)
              tsid sid k h at_t (at_s ∙ e) others d)
    ]

take_held :
    (sid tsid to : ℕ) (g : GameActor)
    → sid < length g.slots
    → tsid < length g.slots
    → colour_at g.slots tsid ≡ to
    → Coloured g
    → Coloured (recoloured sid to (some tsid) g)
unfolding recoloured change_slot
take_held sid tsid to g h k e d =
    let slots = set g.slots tsid (with_colour (colour_at g.slots sid) (slot_at g.slots tsid)) in
    let s = with_colour to (slot_at slots sid) in
    if-IsColoured ((slot_at g.slots tsid).slot_status == 2) g
      (send_all_slot_info (record g { slots = set slots sid s })) d
      (λ free.
        sent-IsColoured (record g { slots = set slots sid s })
          (record { distinct = exchange sid tsid g.slots h k d.distinct s (sym e) }))

claim_colour-IsColoured :
    (to sid : ℕ) (g : GameActor)
    → sid < length g.slots
    → Coloured g
    → Coloured (claim_colour to sid g)
claim_colour-IsColoured to sid g h d = elim (Bool-cases ((slot_at g.slots sid).team == max_slots)) [
  | inl observer ↦ unfold claim_colour in simp observer d
  | inr plays ↦ elim (position_cases (λ s. s.colour == to) g.slots) [
    | inl (absent, unused) ↦
        unfold claim_colour in
        simp (plays, absent) (unfold recoloured in take_unused sid to g h unused d)
    | inr (tsid, found, lt, holds) ↦
        unfold claim_colour in simp (plays, found) (take_held sid tsid to g h lt (ground arith) d)
  ]
]

pub change_colour-IsColoured :
    (pid to : ℕ) (g : GameActor) → Coloured g → Coloured (change_colour pid to g)
unfolding change_colour slot_index_of_pid
change_colour-IsColoured pid to g d =
    if-IsColoured (refuses_colour to g) g (for_slot (slot_index_of_pid pid g) (claim_colour to) g) d
      (λ e.
        for_slot-IsColoured (λ s. s.pid == pid) (claim_colour to) g d
          (λ sid h. claim_colour-IsColoured to sid g h d))
