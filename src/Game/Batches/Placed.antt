-- ===== src/Game/Batches/Placed.antt =====
-- src/game/actor.rs: where the packets for a pid go, in a game with distinct pids and connections.
use ghostpp_rs.Prelude.{
  ℕ, ◌≡◌, ◌≢◌, refl, sym, ap, ◌∙◌, Bool, true, false, ◌&&◌, not, List, [], ◌∷◌, ◌++◌, append-nil,
  ◌==◌, if◌then◌else◌, All, arith, Bool-cases, inl, inr,
}
use ghostpp_rs.Game.{LobbyPlayer, get_player}
use ghostpp_rs.Game.Hub.{pids_of}
use ghostpp_rs.Game.Hub.Delivery.{IsKeyed}
use ghostpp_rs.Game.Batches.{direct_pids}
use ghostpp_rs.Game.Batches.Wire.{IsWired, goes_to, reaches, dealt}

-- A player's own place among the players: the connection is reached by the player's pid alone, the
-- broadcasts deal the player one packet, and the direct packets go to the player unless it is behind
-- GProxy++.
pub record Placed (players : List LobbyPlayer) (p : LobbyPlayer) : Type 0 where
  pub sole : (pid : ℕ) → reaches p.handle pid players ≡ (pid == p.pid && not p.gproxy_disconnected)
  pub once :
      (there : Bool) (packets : List (List ℕ))
      → dealt there p.pid packets (pids_of players) ≡ (if there then packets else [])
  pub direct :
      (there : Bool) (packets : List (List ℕ))
      → dealt there p.pid packets (direct_pids players)
        ≡ (if there && not p.gproxy then packets else [])

reaches-none :
    (p : LobbyPlayer) (pid : ℕ) (players : List LobbyPlayer)
    → All (λ (q : LobbyPlayer). q.handle ≢ p.handle) players
    → reaches p.handle pid players ≡ false
unfolding reaches goes_to get_player
reaches-none p pid [] h = refl
reaches-none p pid (q ∷ players) h = elim (Bool-cases (q.pid == pid)) [
  | inl same ↦ simp same (ground (arith, h.0))
  | inr other ↦ simp other (reaches-none p pid players h.1)
]

dealt-miss :
    (there : Bool) (target : ℕ) (packets : List (List ℕ)) (pid : ℕ) (pids : List ℕ)
    → pid ≢ target
    → dealt there target packets (pid ∷ pids) ≡ dealt there target packets pids
unfolding dealt
dealt-miss there target packets pid pids other = simp (differs pid target other) refl
  where
    differs : (a b : ℕ) → a ≢ b → (a == b) ≡ false
    differs a b h = ground arith

dealt-hit :
    (there : Bool) (target : ℕ) (packets : List (List ℕ)) (pids : List ℕ)
    → dealt there target packets (target ∷ pids)
      ≡ (if there then packets else []) ++ dealt there target packets pids
unfolding dealt
dealt-hit there target packets pids = simp (same target) refl
  where
    same : (a : ℕ) → (a == a) ≡ true
    same a = ground arith

direct_pids-proxied :
    (p : LobbyPlayer) (players : List LobbyPlayer)
    → p.gproxy ≡ true
    → direct_pids (p ∷ players) ≡ direct_pids players
unfolding direct_pids
direct_pids-proxied p players e = simp e refl

direct_pids-direct :
    (p : LobbyPlayer) (players : List LobbyPlayer)
    → p.gproxy ≡ false
    → direct_pids (p ∷ players) ≡ p.pid ∷ direct_pids players
unfolding direct_pids
direct_pids-direct p players e = simp e refl

dealt-none :
    (there : Bool) (target : ℕ) (packets : List (List ℕ)) (players : List LobbyPlayer)
    → All (λ (q : LobbyPlayer). q.pid ≢ target) players
    → dealt there target packets (pids_of players) ≡ []
dealt-none there target packets [] h = unfold dealt in refl
dealt-none there target packets (q ∷ players) h =
    dealt-miss there target packets q.pid (pids_of players) h.0
    ∙ dealt-none there target packets players h.1

-- A player with another pid does not change what the direct packets deal.
dealt-other :
    (there : Bool) (target : ℕ) (packets : List (List ℕ)) (q : LobbyPlayer)
    (players : List LobbyPlayer)
    → q.pid ≢ target
    → dealt there target packets (direct_pids (q ∷ players))
      ≡ dealt there target packets (direct_pids players)
dealt-other there target packets q players other = elim (Bool-cases q.gproxy) [
  | inl proxied ↦ ap (dealt there target packets) (direct_pids-proxied q players proxied)
  | inr direct ↦
      ap (dealt there target packets) (direct_pids-direct q players direct)
      ∙ dealt-miss there target packets q.pid (direct_pids players) other
]

dealt-direct_none :
    (there : Bool) (target : ℕ) (packets : List (List ℕ)) (players : List LobbyPlayer)
    → All (λ (q : LobbyPlayer). q.pid ≢ target) players
    → dealt there target packets (direct_pids players) ≡ []
dealt-direct_none there target packets [] h = unfold dealt in unfold direct_pids in refl
dealt-direct_none there target packets (q ∷ players) h =
    dealt-other there target packets q players h.0
    ∙ dealt-direct_none there target packets players h.1

reaches-cons :
    (handle pid : ℕ) (q : LobbyPlayer) (players : List LobbyPlayer)
    → reaches handle pid (q ∷ players) ≡ (
        if q.pid == pid
        then not q.gproxy_disconnected && handle == q.handle
        else reaches handle pid players)
unfolding reaches goes_to get_player
reaches-cons handle pid q players = elim (Bool-cases (q.pid == pid)) [
  | inl same ↦ simp same refl
  | inr other ↦ simp other refl
]

head_sole :
    (a pid handle : ℕ) (gone rest : Bool)
    → rest ≡ false
    → (if a == pid then not gone && handle == handle else rest) ≡ (pid == a && not gone)
head_sole a pid handle gone rest e = ground arith

tail_sole :
    (a pid b handle other : ℕ) (gone there rest : Bool)
    → a ≢ b
    → handle ≢ other
    → rest ≡ (pid == b && there)
    → (if a == pid then not gone && handle == other else rest) ≡ (pid == b && there)
tail_sole a pid b handle other gone there rest ne hne e = ground arith

-- The first of the players.
head-Placed :
    (p : LobbyPlayer) (players : List LobbyPlayer)
    → All (λ (q : LobbyPlayer). q.pid ≢ p.pid) players
    → All (λ (q : LobbyPlayer). q.handle ≢ p.handle) players
    → Placed (p ∷ players) p
head-Placed p players fresh wired = record {
  sole = λ pid.
      reaches-cons p.handle pid p players
      ∙ head_sole p.pid pid p.handle p.gproxy_disconnected (reaches p.handle pid players)
          (reaches-none p pid players wired);
  once = λ there packets.
      dealt-hit there p.pid packets (pids_of players)
      ∙ ap (λ (xs : List (List ℕ)). (if there then packets else []) ++ xs)
          (dealt-none there p.pid packets players fresh)
      ∙ append-nil _;
  direct = λ there packets. elim (Bool-cases p.gproxy) [
    | inl proxied ↦
        ap (dealt there p.pid packets) (direct_pids-proxied p players proxied)
        ∙ dealt-direct_none there p.pid packets players fresh
        ∙ sym (owes there p.gproxy packets proxied)
    | inr directly ↦
        ap (dealt there p.pid packets) (direct_pids-direct p players directly)
        ∙ dealt-hit there p.pid packets (direct_pids players)
        ∙ ap (λ (xs : List (List ℕ)). (if there then packets else []) ++ xs)
            (dealt-direct_none there p.pid packets players fresh)
        ∙ append-nil _
        ∙ sym (owes_not there p.gproxy packets directly)
  ];
}
  where
    owes :
        (there proxied : Bool) (packets : List (List ℕ))
        → proxied ≡ true
        → (if there && not proxied then packets else []) ≡ []
    owes true proxied packets e = simp e refl
    owes false proxied packets e = refl

    owes_not :
        (there proxied : Bool) (packets : List (List ℕ))
        → proxied ≡ false
        → (if there && not proxied then packets else []) ≡ (if there then packets else [])
    owes_not true proxied packets e = simp e refl
    owes_not false proxied packets e = refl

-- One more player ahead, with another pid and another connection.
cons-Placed :
    (p q : LobbyPlayer) (players : List LobbyPlayer)
    → q.pid ≢ p.pid
    → q.handle ≢ p.handle
    → Placed players q
    → Placed (p ∷ players) q
cons-Placed p q players pids handles placed = record {
  sole = λ pid.
      reaches-cons q.handle pid p players
      ∙ tail_sole p.pid pid q.pid q.handle p.handle p.gproxy_disconnected
          (not q.gproxy_disconnected) (reaches q.handle pid players) (λ e. pids (sym e)) handles
          (placed.sole pid);
  once = λ there packets.
      dealt-miss there q.pid packets p.pid (pids_of players) (λ e. pids (sym e))
      ∙ placed.once there packets;
  direct = λ there packets.
      dealt-other there q.pid packets p players (λ e. pids (sym e)) ∙ placed.direct there packets;
}

-- With distinct pids and distinct connections every player has its place.
pub all-Placed :
    (players : List LobbyPlayer) → IsKeyed players → IsWired players → All (Placed players) players
all-Placed [] keyed wired = tt
all-Placed (p ∷ players) keyed wired = (
  head-Placed p players keyed.0 wired.0,
  lift players keyed.0 wired.0 (all-Placed players keyed.1 wired.1),
)
  where
    lift :
        (qs : List LobbyPlayer)
        → All (λ (q : LobbyPlayer). q.pid ≢ p.pid) qs
        → All (λ (q : LobbyPlayer). q.handle ≢ p.handle) qs
        → All (Placed players) qs
        → All (Placed (p ∷ players)) qs
    lift [] pids handles placed = tt
    lift (q ∷ qs) pids handles placed =
        (cons-Placed p q players pids.0 handles.0 placed.0, lift qs pids.1 handles.1 placed.1)
