-- ===== src/Game/Batches/Wire.antt =====
-- src/game/actor.rs: what a beat of send_all_actions hands to the connection of each player, packet by
-- packet and in order.
use ghostpp_rs.Prelude.{
  ℕ, ◌≡◌, ◌≢◌, refl, sym, ap, ◌∙◌, Bool, true, false, ◌&&◌, not, List, [], ◌∷◌, ◌++◌, map, Option,
  none, some, ◌==◌, if◌then◌else◌, All, arith, Bool-cases, inl, inr,
}
use ghostpp_rs.Net.Conn.{Link, try_send}
use ghostpp_rs.Game.{LobbyPlayer, GameActor, get_player, update_player}
use ghostpp_rs.Game.Hub.{hand_over, deliver, note_sent, send_to_pid, send_to_pids}
use ghostpp_rs.Game.Hub.Settled.{settle, settle_player, send_to_pid-settle}

-- No two players have one connection.
abbrev pub IsWired : List LobbyPlayer → Type 0
IsWired [] = Unit
IsWired (p ∷ players) = All (λ (q : LobbyPlayer). q.handle ≢ p.handle) players × IsWired players

-- The packets handed to a connection one after the other; one that it refuses leaves it as it is.
unfoldable pub offer_all : List (List ℕ) → Link → Link
offer_all [] l = l
offer_all (bytes ∷ packets) l = offer_all packets (try_send bytes l).0

pub offer_all-append :
    (xs ys : List (List ℕ)) (l : Link) → offer_all (xs ++ ys) l ≡ offer_all ys (offer_all xs l)
unfolding offer_all
offer_all-append [] ys l = refl
offer_all-append (x ∷ xs) ys l = offer_all-append xs ys (try_send x l).0

-- Whether a packet for the pid goes to the connection.
unfoldable pub goes_to : ℕ → Option LobbyPlayer → Bool
goes_to handle none = false
goes_to handle (some p) = not p.gproxy_disconnected && handle == p.handle

unfoldable pub reaches : ℕ → ℕ → List LobbyPlayer → Bool
unfolding goes_to
reaches handle pid players = goes_to handle (get_player pid players)

same_handle : (a b : ℕ) → (a == b) ≡ true → a ≡ b
same_handle a b e = ground arith

hand_over-link :
    (p : LobbyPlayer) (bytes : List ℕ) (g : GameActor) (handle : ℕ) (b : Bool)
    → (handle == p.handle) ≡ b
    → (hand_over p bytes g).links handle
      ≡ (if b then (try_send bytes (g.links handle)).0 else g.links handle)
unfolding hand_over
hand_over-link p bytes g handle true e =
    rw e (ap (λ (i : ℕ). (try_send bytes (g.links i)).0) (sym (same_handle handle p.handle e)))
hand_over-link p bytes g handle false e = rw e refl

deliver-link :
    (o : Option LobbyPlayer) (bytes : List ℕ) (g : GameActor) (handle : ℕ)
    → (deliver o bytes g).links handle
      ≡ (if goes_to handle o then (try_send bytes (g.links handle)).0 else g.links handle)
unfolding deliver goes_to
deliver-link none bytes g handle = refl
deliver-link (some p) bytes g handle = elim (Bool-cases p.gproxy_disconnected) [
  | inl gone ↦ rw gone refl
  | inr there ↦ simp there (hand_over-link p bytes g handle _ refl)
]

pub send_to_pid-link :
    (pid : ℕ) (bytes : List ℕ) (g : GameActor) (handle : ℕ) (b : Bool)
    → reaches handle pid g.players ≡ b
    → (send_to_pid pid bytes g).links handle
      ≡ (if b then (try_send bytes (g.links handle)).0 else g.links handle)
unfolding send_to_pid reaches
send_to_pid-link pid bytes g handle b e =
    deliver-link (get_player pid g.players) bytes
      (record g { players = update_player pid (note_sent g.game_loaded bytes) g.players }) handle
    ∙ ap (λ (c : Bool). if c then (try_send bytes (g.links handle)).0 else g.links handle) e

-- Whom a packet reaches is not changed by what is sent.
reaches-settle_player :
    (handle pid : ℕ) (players : List LobbyPlayer)
    → reaches handle pid (map settle_player players) ≡ reaches handle pid players
unfolding reaches goes_to get_player settle_player
reaches-settle_player handle pid [] = refl
reaches-settle_player handle pid (p ∷ players) = elim (Bool-cases (p.pid == pid)) [
  | inl same ↦ simp same refl
  | inr other ↦ simp other (reaches-settle_player handle pid players)
]

pub players-settle :
    (g h : GameActor)
    → settle g ≡ settle h
    → map settle_player g.players ≡ map settle_player h.players
unfolding settle
players-settle g h e = ap (λ (x : GameActor). x.players) e

reaches-settle :
    (handle pid : ℕ) (g h : GameActor)
    → settle g ≡ settle h
    → reaches handle pid g.players ≡ reaches handle pid h.players
reaches-settle handle pid g h e =
    sym (reaches-settle_player handle pid g.players)
    ∙ ap (reaches handle pid) (players-settle g h e)
    ∙ reaches-settle_player handle pid h.players

-- The connection takes the packets for one pid, if any, and no others.
abbrev pub IsSole : ℕ → ℕ → Bool → GameActor → Type 0
IsSole handle target there g = (pid : ℕ) → reaches handle pid g.players ≡ (pid == target && there)

pub settle-IsSole :
    (handle target : ℕ) (there : Bool) (g h : GameActor)
    → settle h ≡ settle g
    → IsSole handle target there g
    → IsSole handle target there h
settle-IsSole handle target there g h e sole pid = reaches-settle handle pid h g e ∙ sole pid

-- The packets that come to the target when each pid of a list is sent the same ones.
unfoldable pub dealt : Bool → ℕ → List (List ℕ) → List ℕ → List (List ℕ)
dealt there target packets [] = []
dealt there target packets (pid ∷ pids) =
    (if pid == target && there then packets else []) ++ dealt there target packets pids

pub offer_if :
    (b : Bool) (bytes : List ℕ) (l : Link)
    → (if b then (try_send bytes l).0 else l) ≡ offer_all (if b then bytes ∷ [] else []) l
unfolding offer_all
offer_if true bytes l = refl
offer_if false bytes l = refl

module _ (handle target : ℕ) (there : Bool) where
  pub send_to_pids-link :
      (pids bytes : List ℕ) (g : GameActor)
      → IsSole handle target there g
      → (send_to_pids pids bytes g).links handle
        ≡ offer_all (dealt there target (bytes ∷ []) pids) (g.links handle)
  unfolding send_to_pids dealt
  send_to_pids-link [] bytes g sole = unfold offer_all in refl
  send_to_pids-link (pid ∷ pids) bytes g sole =
      send_to_pids-link pids bytes (send_to_pid pid bytes g) (
        settle-IsSole handle target there g (send_to_pid pid bytes g)
          (send_to_pid-settle pid bytes g) sole)
      ∙ ap (offer_all (dealt there target (bytes ∷ []) pids)) (
          send_to_pid-link pid bytes g handle _ (sole pid)
          ∙ offer_if (pid == target && there) bytes (g.links handle))
      ∙ sym (
          offer_all-append (if pid == target && there then bytes ∷ [] else [])
            (dealt there target (bytes ∷ []) pids) (g.links handle))
