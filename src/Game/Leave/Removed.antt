-- ===== src/Game/Leave/Removed.antt =====
-- src/game/actor.rs: after a leave nothing of the game belongs to the player who left.
use ghostpp_rs.Prelude.{
  ℕ, ◌≡◌, ◌≢◌, refl, sym, true, false, List, [], ◌∷◌, map, Option, some, inl, inr, eq-cases, arith,
  ◌==◌, All, Option-cases,
}
use ghostpp_rs.Core.GameSlot.{GameSlot}
use ghostpp_rs.Core.GameProtocol.{IncomingAction}
use ghostpp_rs.Game.{LobbyPlayer, GameActor, Env, get_player}
use ghostpp_rs.Game.Slots.{position, slot_index_of_pid}
use ghostpp_rs.Game.Leave.{
  remove_from, retain_actions, freed, free_slot, taken_out, remove_player_with_reason,
}
use ghostpp_rs.Game.Leave.Kept.{
  core_player, core, core-players, core-actions, core-slots, remove_player-core,
}

-- At most one slot is the player's.
abbrev pub IsSeatedOnce : ℕ → List GameSlot → Type 0
IsSeatedOnce pid [] = Unit
IsSeatedOnce pid (s ∷ slots) =
    (s.pid ≡ pid → All (λ (r : GameSlot). r.pid ≢ pid) slots) × IsSeatedOnce pid slots

-- No player, no queued action and no slot has the pid.
pub record IsGone (pid : ℕ) (g : GameActor) : Type 0 where
  pub no_player : All (λ (p : LobbyPlayer). p.pid ≢ pid) g.players
  pub no_action : All (λ (a : IncomingAction). a.pid ≢ pid) g.actions
  pub no_slot : All (λ (s : GameSlot). s.pid ≢ pid) g.slots

pub get_player-pid :
    (pid : ℕ) (players : List LobbyPlayer) (p : LobbyPlayer)
    → get_player pid players ≡ some p
    → p.pid ≡ pid
unfolding get_player
get_player-pid pid [] p e = ground arith
get_player-pid pid (q ∷ players) p e = ground (arith, get_player-pid pid players p)

remove_from-gone :
    (pid : ℕ) (players : List LobbyPlayer)
    → All (λ (p : LobbyPlayer). p.pid ≢ pid) (remove_from pid players)
unfolding remove_from
remove_from-gone pid [] = tt
remove_from-gone pid (p ∷ players) = ground (arith, remove_from-gone pid players)

retain_actions-gone :
    (pid : ℕ) (actions : List IncomingAction)
    → All (λ (a : IncomingAction). a.pid ≢ pid) (retain_actions pid actions)
unfolding retain_actions
retain_actions-gone pid [] = tt
retain_actions-gone pid (a ∷ actions) = ground (arith, retain_actions-gone pid actions)

All-map_core :
    (pid : ℕ) (players : List LobbyPlayer)
    → All (λ (p : LobbyPlayer). p.pid ≢ pid) (map core_player players)
    → All (λ (p : LobbyPlayer). p.pid ≢ pid) players
unfolding core_player
All-map_core pid [] h = tt
All-map_core pid (p ∷ players) h = (h.0, All-map_core pid players h.1)

==_of : (pid : ℕ) (s : GameSlot) → s.pid ≡ pid → (s.pid == pid) ≡ true
==_of pid s same = ground arith

==_not : (pid : ℕ) (s : GameSlot) → s.pid ≢ pid → (s.pid == pid) ≡ false
==_not pid s other = ground arith

free_slot-head :
    (pid : ℕ) (s : GameSlot) (slots : List GameSlot)
    → s.pid ≡ pid
    → free_slot (position (λ r. r.pid == pid) (s ∷ slots)) (s ∷ slots) ≡ freed s ∷ slots
unfolding free_slot position
free_slot-head pid s slots same = simp (==_of pid s same) refl

free_slot-tail :
    (pid : ℕ) (s : GameSlot) (slots : List GameSlot)
    → s.pid ≢ pid
    → free_slot (position (λ r. r.pid == pid) (s ∷ slots)) (s ∷ slots)
      ≡ s ∷ free_slot (position (λ r. r.pid == pid) slots) slots
unfolding free_slot position
free_slot-tail pid s slots other = elim (Option-cases (position (λ r. r.pid == pid) slots)) [
  | inl e ↦ simp (==_not pid s other, e) refl
  | inr (i, e) ↦ simp (==_not pid s other, e) refl
]

free_slot-gone :
    (pid : ℕ) (slots : List GameSlot)
    → pid ≢ 0
    → IsSeatedOnce pid slots
    → All (λ (s : GameSlot). s.pid ≢ pid) (free_slot (position (λ r. r.pid == pid) slots) slots)
unfolding freed
free_slot-gone pid [] nonzero once = unfold position in unfold free_slot in tt
free_slot-gone pid (s ∷ slots) nonzero once =
    let rest = free_slot-gone pid slots nonzero once.1 in
    elim (eq-cases s.pid pid) [
      | inl same ↦ rw (free_slot-head pid s slots same) (λ e. nonzero (sym e), once.0 same)
      | inr other ↦ rw (free_slot-tail pid s slots other) (other, rest)
    ]

taken_out-IsGone :
    (env : Env) (pid left_code : ℕ) (reason : Option (List ℕ)) (g : GameActor) (p : LobbyPlayer)
    → p.pid ≡ pid
    → pid ≢ 0
    → IsSeatedOnce pid g.slots
    → IsGone pid (taken_out env p left_code reason g)
unfolding taken_out slot_index_of_pid
taken_out-IsGone env pid left_code reason g p same nonzero once = record {
  no_player = rw same (remove_from-gone pid g.players);
  no_action = rw same (retain_actions-gone pid g.actions);
  no_slot = rw same (free_slot-gone pid g.slots nonzero once);
}

map_core-All :
    (pid : ℕ) (players : List LobbyPlayer)
    → All (λ (p : LobbyPlayer). p.pid ≢ pid) players
    → All (λ (p : LobbyPlayer). p.pid ≢ pid) (map core_player players)
unfolding core_player
map_core-All pid [] h = tt
map_core-All pid (p ∷ players) h = (h.0, map_core-All pid players h.1)

core-IsGone : (pid : ℕ) (a b : GameActor) → core a ≡ core b → IsGone pid b → IsGone pid a
core-IsGone pid a b e h = record {
  no_player =
      All-map_core pid a.players (rw (core-players a b e) (map_core-All pid b.players h.no_player));
  no_action = rw (core-actions a b e) h.no_action;
  no_slot = rw (core-slots a b e) h.no_slot;
}

-- After a leave no player, no queued action and no slot has the player's pid, if at most one slot had
-- it and it is not 0, in the lobby, while loading and in the game.
pub remove_player-IsGone :
    (env : Env) (pid left_code : ℕ) (reason : Option (List ℕ)) (g : GameActor) (p : LobbyPlayer)
    → get_player pid g.players ≡ some p
    → pid ≢ 0
    → IsSeatedOnce pid g.slots
    → IsGone pid (remove_player_with_reason env pid left_code reason g)
remove_player-IsGone env pid left_code reason g p found nonzero once =
    let kept = remove_player-core env pid left_code reason g p found in
    let same = get_player-pid pid g.players p found in
    core-IsGone pid (remove_player_with_reason env pid left_code reason g)
      (taken_out env p left_code reason g) kept
      (taken_out-IsGone env pid left_code reason g p same nonzero once)
