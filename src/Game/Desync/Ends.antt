-- ===== src/Game/Desync/Ends.antt =====
-- src/game/actor.rs: the loop of check_desync ends. Each round takes a checksum from every player, and
-- nothing that a round does adds one.
use ghostpp_rs.Prelude.{
  ℕ, zero, suc, ◌≤◌, ◌<◌, ◌≡◌, refl, ap, ◌∙◌, Bool, true, false, ◌&&◌, not, List, [], ◌∷◌, map,
  Option, none, some, inl, inr, arith, length, drop, length-drop, Bool-cases, if-true, if-false,
}
use ghostpp_rs.Core.GameProtocol.{playerleave_lost}
use ghostpp_rs.Core.GameProtocol.Receive.{is_empty}
use ghostpp_rs.Game.{LobbyPlayer, GameActor, Env, get_player}
use ghostpp_rs.Game.Hub.{pids_of}
use ghostpp_rs.Game.Chat.{send_all_chat}
use ghostpp_rs.Game.Leave.{
  remove_from, taken_out, remove_found, remove_player_with_reason, remove_all,
}
use ghostpp_rs.Game.Desync.{
  Report, Group, all_pending, reports_of, pop_checksum, all_report, bins, sort_groups, agree,
  note_desync_change, tell_groups, is_tied, drop_minority, disagree, next_turn, compare_round,
  compare_rounds, pending, check_desync,
}
use ghostpp_rs.Game.Desync.Load.{load, chat-load, if-bound, tell_leave-load}

pending-remove_from :
    (pid : ℕ) (players : List LobbyPlayer) → pending (remove_from pid players) ≤ pending players
unfolding pending remove_from
pending-remove_from pid [] = omega arith
pending-remove_from pid (p ∷ players) = ground (arith, pending-remove_from pid players)

remove_found-load :
    (o : Option LobbyPlayer) (env : Env) (left_code : ℕ) (reason : Option (List ℕ)) (g : GameActor)
    → load (remove_found o env left_code reason g) ≤ load g
unfolding remove_found taken_out
remove_found-load none env left_code reason g = omega arith
remove_found-load (some p) env left_code reason g = omega (
  arith,
  tell_leave-load env p left_code (taken_out env p left_code reason g),
  pending-remove_from p.pid g.players,
)

remove_all-load :
    (env : Env) (left_code : ℕ) (reason : Option (List ℕ)) (pids : List ℕ) (g : GameActor)
    → load (remove_all env left_code reason pids g) ≤ load g
unfolding remove_all remove_player_with_reason
remove_all-load env left_code reason [] g = omega arith
remove_all-load env left_code reason (pid ∷ pids) g = omega (
  arith,
  remove_all-load env left_code reason pids (remove_player_with_reason env pid left_code reason g),
  remove_found-load (get_player pid g.players) env left_code reason g,
)

tell_groups-load :
    (env : Env) (number : ℕ) (groups : List Group) (g : GameActor)
    → load (tell_groups env number groups g) ≡ load g
unfolding tell_groups
tell_groups-load env number [] g = refl
tell_groups-load env number (group ∷ groups) g =
    tell_groups-load env (suc number) groups (send_all_chat _ g) ∙ chat-load _ g

drop_minority-load :
    (env : Env) (groups : List Group) (g : GameActor) → load (drop_minority env groups g) ≤ load g
unfolding drop_minority
drop_minority-load env groups g =
    if-bound (load g) (is_tied groups) _ _
      (omega (
        arith,
        remove_all-load env playerleave_lost none (pids_of g.players) (send_all_chat _ g),
        chat-load _ g,
      ))
      (omega
        (arith, remove_all-load env playerleave_lost none _ (send_all_chat _ g), chat-load _ g))

agree-load : (c : ℕ) (g : GameActor) → load (agree c g) ≤ load g
unfolding agree note_desync_change
agree-load c g = if-bound (load g) (is_empty g.desynced) _ _ (omega arith) (omega arith)

disagree-load :
    (env : Env) (groups : List Group) (g : GameActor) → load (disagree env groups g) ≤ load g
unfolding disagree note_desync_change
disagree-load env groups g = omega (
  arith,
  drop_minority-load env groups (tell_groups env 1 groups (send_all_chat _ _)),
  tell_groups-load env 1 groups (send_all_chat _ _),
  chat-load _ _,
)

pending-pop_le : (players : List LobbyPlayer) → pending (map pop_checksum players) ≤ pending players
unfolding pending pop_checksum
pending-pop_le [] = omega arith
pending-pop_le (p ∷ players) = omega (arith, pending-pop_le players, length-drop 1 p.checksums)

shorter :
    (checksums : List ℕ) → is_empty checksums ≡ false → length (drop 1 checksums) < length checksums
shorter [] h = ground arith
shorter (c ∷ checksums) h = omega arith

-- Every player has a checksum, so popping takes at least one.
pending-pop :
    (players : List LobbyPlayer)
    → (not (is_empty players) && all_pending players) ≡ true
    → pending (map pop_checksum players) < pending players
unfolding pending pop_checksum all_pending
pending-pop [] h = ground arith
pending-pop (p ∷ players) h = omega (
  arith,
  pending-pop_le players,
  shorter p.checksums (first (is_empty p.checksums) (all_pending players) h),
)
  where
    first : (e rest : Bool) → (not e && rest) ≡ true → e ≡ false
    first e rest k = ground arith

module _ (iteration : List Group → List Group) where
  compare_round-load :
      (env : Env) (reports : List Report) (g : GameActor)
      → load (compare_round iteration env reports g) ≤ load g
  unfolding compare_round
  compare_round-load env [] g = omega arith
  compare_round-load env (first ∷ reports) g =
      if-bound (load g) (all_report first.checksum (first ∷ reports)) _ _
        (agree-load first.checksum g)
        (disagree-load env (sort_groups (iteration (bins (first ∷ reports) []))) g)

  -- The condition of the loop: somebody is in the game, and everyone has a checksum pending.
  abbrev pub is_due : GameActor → Bool
  is_due g = not (is_empty g.players) && all_pending g.players

  compare_rounds_end :
      (fuel : ℕ) (env : Env) (g : GameActor)
      → load g ≤ fuel
      → is_due (compare_rounds iteration fuel env g) ≡ false
  unfolding compare_rounds
  compare_rounds_end zero env g enough = elim (Bool-cases (is_due g)) [
    | inl due ↦ absurd (omega (arith, pending-pop g.players due))
    | inr done ↦ done
  ]
  compare_rounds_end (suc fuel) env g enough =
      let reports = reports_of g.players in
      let after = compare_round iteration env reports (next_turn g) in
      let less = compare_round-load env reports (next_turn g) in
      let rest = compare_rounds_end fuel env after in
      elim (Bool-cases (is_due g)) [
        | inl due ↦ rw (if-true (is_due g) (compare_rounds iteration fuel env after) g due) (
            rest (bounded (load after) (load (next_turn g)) (load g) fuel less (popped due) enough))
        | inr done ↦
            ap is_due (if-false (is_due g) (compare_rounds iteration fuel env after) g done) ∙ done
      ]
    where
      bounded : (a b c f : ℕ) → a ≤ b → b < c → c ≤ suc f → a ≤ f
      bounded a b c f h k l = omega arith

      popped : is_due g ≡ true → load (next_turn g) < load g
      popped due = unfold next_turn in pending-pop g.players due

  -- The comparison of checksums ends, in whatever order the groups come, within as many rounds as
  -- checksums are pending: then nobody is left in the game, or somebody has no checksum pending.
  pub check_desync_ends :
      (env : Env) (g : GameActor) → is_due (check_desync iteration env g) ≡ false
  unfolding check_desync
  check_desync_ends env g = compare_rounds_end (pending g.players) env g (omega arith)
