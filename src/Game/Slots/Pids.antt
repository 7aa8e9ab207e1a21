-- ===== src/Game/Slots/Pids.antt =====
-- src/game/actor.rs: the pid that a joining player gets (new_pid).
use ghostpp_rs.Prelude.{
  ℕ, ◌≤◌, ◌≡◌, ◌≢◌, refl, ◌⊎◌, inl, inr, arith, Bool, true, false, ◌&&◌, not, List, [], ◌∷◌, none,
  some, ◌==◌, any, All, Bool-cases,
}
use ghostpp_rs.Game.{LobbyPlayer, GameActor}
use ghostpp_rs.Game.Slots.{find, pids, new_pid}

-- Neither the virtual host's pid nor a player's.
abbrev pub is_free : GameActor → ℕ → Bool
is_free g pid = not (pid == g.virtual_host_pid) && not (any (λ p. p.pid == pid) g.players)

abbrev InRange : ℕ → Type 0
InRange n = (1 ≤ n) × (n ≤ 12)

find-InRange :
    (p : ℕ → Bool) (ns : List ℕ)
    → All InRange ns
    → ((find p ns ≡ none) × All (λ n. p n ≡ false) ns)
      ⊎ ((n : ℕ) × (find p ns ≡ some n) × (p n ≡ true) × InRange n)
unfolding find
find-InRange p [] h = inl (refl, tt)
find-InRange p (n ∷ ns) h = elim (Bool-cases (p n)) [
  | inl holds ↦ inr (n, simp holds refl, holds, h.0)
  | inr fails ↦ elim (find-InRange p ns h.1) [
    | inl (absent, all) ↦ inl (simp fails absent, (fails, all))
    | inr (m, found, holds, range) ↦ inr (m, simp fails found, holds, range)
  ]
]

none_of :
    (pid : ℕ) (players : List LobbyPlayer)
    → any (λ p. p.pid == pid) players ≡ false
    → All (λ (p : LobbyPlayer). p.pid ≢ pid) players
none_of pid [] h = tt
none_of pid (p ∷ players) h = (ground arith, none_of pid players (ground arith))

-- A joining player gets a pid from 1 to 12 that neither the virtual host nor any player has; and none
-- only if all twelve are in use.
pub new_pid_cases :
    (g : GameActor)
    → ((new_pid g ≡ none) × All (λ pid. is_free g pid ≡ false) pids)
      ⊎ ((pid : ℕ) × (new_pid g ≡ some pid)
          × ((1 ≤ pid) × (pid ≤ 12))
          × (pid ≢ g.virtual_host_pid)
          × All (λ (p : LobbyPlayer). p.pid ≢ pid) g.players)
unfolding new_pid
new_pid_cases g = elim (find-InRange (is_free g) pids (ground arith)) [
  | inl taken ↦ inl taken
  | inr (pid, found, free, range) ↦
      inr (pid, found, range, ground arith, none_of pid g.players (ground arith))
]
