-- ===== src/Game/Slots/Changes.antt =====
-- src/game/actor.rs: swap_slots, and the changes of team, colour, race and handicap that players ask for.
use Prim.Native.Nat.{bit_and, bit_or}
use ghostpp_rs.Prelude.{
  ℕ, ◌+◌, ◌-◌, ◌%◌, Bool, false, ◌&&◌, ◌||◌, not, List, [], ◌∷◌, Option, none, some, ltb, leb, ◌==◌,
  if◌then◌else◌, length, any, set,
}
use ghostpp_rs.Core.GameSlot.{
  GameSlot, slotstatus_occupied, max_slots, slotrace_human, slotrace_orc, slotrace_nightelf,
  slotrace_undead, slotrace_random, slotrace_selectable,
}
use ghostpp_rs.Game.{GameActor}
use ghostpp_rs.Game.Hub.{send_all_slot_info}
use ghostpp_rs.Game.Slots.{
  mapopt_fixedplayersettings, mapflag_randomraces, mapobs_allowed, mapobs_referees,
  mapopt_customforces, position, slot_at, slot_index_of_pid, get_new_colour, get_empty_slot_on_team,
  has_flag,
}

-- What one slot becomes when it changes places with another.
unfoldable pub moved : ℕ → GameSlot → GameSlot → GameSlot
moved opts place slot =
    if has_flag opts mapopt_fixedplayersettings
    then record slot {
      team = place.team;
      colour = place.colour;
      race = place.race;
      handicap = place.handicap;
    }
    else if has_flag opts mapopt_customforces
    then record slot { team = place.team }
    else slot

unfoldable pub swapped : ℕ → ℕ → ℕ → List GameSlot → List GameSlot
swapped opts sid1 sid2 slots =
    let s1 = slot_at slots sid1 in
    let s2 = slot_at slots sid2 in set (set slots sid1 (moved opts s1 s2)) sid2 (moved opts s2 s1)

-- The early returns of each operation.
abbrev pub refuses_swap : ℕ → ℕ → GameActor → Bool
refuses_swap sid1 sid2 g =
    (leb (length g.slots) sid1 || leb (length g.slots) sid2) || ((sid1 == sid2) || g.started)

abbrev pub refuses_colour : ℕ → GameActor → Bool
refuses_colour colour g =
    (g.started || has_flag g.map_options mapopt_fixedplayersettings) || leb max_slots colour

unfoldable pub is_race : ℕ → Bool
is_race base =
    (base == slotrace_human)
    || ((base == slotrace_orc)
        || ((base == slotrace_nightelf)
            || ((base == slotrace_undead) || (base == slotrace_random))))

abbrev pub refuses_race : ℕ → GameActor → Bool
refuses_race base g =
    (g.started || has_flag g.map_options mapopt_fixedplayersettings)
    || (has_flag g.map_flags mapflag_randomraces || not (is_race base))

abbrev pub refuses_handicap : ℕ → GameActor → Bool
refuses_handicap handicap g =
    (g.started || has_flag g.map_options mapopt_fixedplayersettings)
    || not (any (λ h. h == handicap) (50 ∷ 60 ∷ 70 ∷ 80 ∷ 90 ∷ 100 ∷ []))

unfoldable pub swap_slots : ℕ → ℕ → GameActor → GameActor
swap_slots sid1 sid2 g =
    if refuses_swap sid1 sid2 g
    then g
    else send_all_slot_info (record g { slots = swapped g.map_options sid1 sid2 g.slots })

-- A change of one slot, sent to everyone.
unfoldable pub change_slot : (GameSlot → GameSlot) → ℕ → GameActor → GameActor
change_slot f sid g =
    send_all_slot_info (record g { slots = set g.slots sid (f (slot_at g.slots sid)) })

unfoldable pub for_slot : Option ℕ → (ℕ → GameActor → GameActor) → GameActor → GameActor
for_slot none f g = g
for_slot (some sid) f g = f sid g

unfoldable pub change_team_custom : ℕ → ℕ → GameActor → GameActor
change_team_custom pid team g =
    for_slot (slot_index_of_pid pid g)
      (λ old_sid h. for_slot (get_empty_slot_on_team team pid h) (swap_slots old_sid) h) g

unfoldable pub count_slots : (GameSlot → Bool) → List GameSlot → ℕ
count_slots p [] = 0
count_slots p (s ∷ slots) = (if p s then 1 else 0) + count_slots p slots

unfoldable pub team_allowed : ℕ → ℕ → GameActor → Bool
team_allowed pid team g =
    let num_players = g.map_num_players % 256 in
    let others =
      count_slots
        (λ s.
          (s.slot_status == slotstatus_occupied)
          && (not (s.team == max_slots) && not (s.pid == pid)))
        g.slots in
    if ltb max_slots team
    then false
    else if team == max_slots
    then (g.map_observers == mapobs_allowed) || (g.map_observers == mapobs_referees)
    else ltb team num_players && ltb (others % 256) num_players

-- The team, and a colour to go with it.
unfoldable pub retinted : ℕ → List GameSlot → GameSlot → GameSlot
retinted team slots s = record s {
  team = team;
  colour =
      if team == max_slots
      then max_slots
      else if s.colour == max_slots
      then get_new_colour slots
      else s.colour;
}

unfoldable pub change_team : ℕ → ℕ → GameActor → GameActor
change_team pid team g =
    if g.started
    then g
    else if has_flag g.map_options mapopt_customforces
    then change_team_custom pid team g
    else if team_allowed pid team g
    then for_slot (slot_index_of_pid pid g) (change_slot (retinted team g.slots)) g
    else g

abbrev pub with_colour : ℕ → GameSlot → GameSlot
with_colour colour s = record s { colour = colour }

abbrev pub with_race : ℕ → GameSlot → GameSlot
with_race race s = record s { race = race }

abbrev pub with_handicap : ℕ → GameSlot → GameSlot
with_handicap handicap s = record s { handicap = handicap }

-- The colour changes hands with an unused slot, or is taken if no slot has it.
unfoldable pub recoloured : ℕ → ℕ → Option ℕ → GameActor → GameActor
recoloured sid colour none g = change_slot (with_colour colour) sid g
recoloured sid colour (some tsid) g =
    if (slot_at g.slots tsid).slot_status == slotstatus_occupied
    then g
    else change_slot (with_colour colour) sid (record g {
      slots = set g.slots tsid (with_colour (slot_at g.slots sid).colour (slot_at g.slots tsid));
    })

-- Observers keep theirs.
unfoldable pub claim_colour : ℕ → ℕ → GameActor → GameActor
claim_colour colour sid g =
    if (slot_at g.slots sid).team == max_slots
    then g
    else recoloured sid colour (position (λ s. s.colour == colour) g.slots) g

unfoldable pub change_colour : ℕ → ℕ → GameActor → GameActor
change_colour pid colour g =
    if refuses_colour colour g
    then g
    else for_slot (slot_index_of_pid pid g) (claim_colour colour) g

unfoldable pub change_race : ℕ → ℕ → GameActor → GameActor
change_race pid race g =
    let base = bit_and race (255 - slotrace_selectable) in
    if refuses_race base g
    then g
    else for_slot (slot_index_of_pid pid g)
        (change_slot (with_race (bit_or base slotrace_selectable))) g

unfoldable pub change_handicap : ℕ → ℕ → GameActor → GameActor
change_handicap pid handicap g =
    if refuses_handicap handicap g
    then g
    else for_slot (slot_index_of_pid pid g) (change_slot (with_handicap handicap)) g
