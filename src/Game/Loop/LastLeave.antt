-- ===== src/Game/Loop/LastLeave.antt =====
-- src/game/actor.rs: the leave of the last player of a started game, from the frame to the end of the
-- loop: handle_player_frame, remove_player_with_reason, process_pending_drops and the end of run.
use ghostpp_rs.Prelude.{
  ℕ, ◌+◌, ◌%◌, ◌^◌, ◌≡◌, refl, ap, ◌∙◌, Bool, true, false, ◌&&◌, List, [], ◌∷◌, ◌++◌, map,
  append_assoc, none, some, ◌==◌, get_or, arith, if◌then◌else◌, if-true, ret,
}
use mathlib.Core.List.{cons≢nil}
use ghostpp_rs.Core.Gps.{gps_header_constant}
use ghostpp_rs.Core.GameProtocol.{playerleave_lost, w3gs_leavegame}
use ghostpp_rs.Game.{
  LobbyPlayer, GameActor, GameEvent, GameRecord, GamePlayerRecord, Env, game_ended, deleted,
  get_player, update_player,
}
use ghostpp_rs.Game.Slots.{slot_index_of_pid}
use ghostpp_rs.Game.Leave.{record_of, remove_from, remove_player, taken_out, notify}
use ghostpp_rs.Game.Leave.Kept.{core, core_player, core-players, remove_player-core}
use ghostpp_rs.Game.Reconnect.{lookup, drop_pending, drop_all, process_pending_drops}
use ghostpp_rs.Game.Frames.{handle_w3gs_frame, handle_player_frame}
use ghostpp_rs.Game.Loop.{
  World, Outcome, frame, running, over, is_nobody, game_record, write_records, settle_up,
  conn_frame, step,
}
use ghostpp_rs.Game.Loop.Ends.{IsToldOf}

-- With nobody in the game there is nobody to drop.
drop_all-nobody :
    (loaded : Bool) (env : Env) (pids : List ℕ) (g : GameActor)
    → g.players ≡ []
    → drop_all loaded env pids g ≡ g
unfolding drop_all drop_pending get_player
drop_all-nobody loaded env [] g e = refl
drop_all-nobody loaded env (pid ∷ pids) g e =
    ap
      (λ (players : List LobbyPlayer).
        drop_all loaded env pids (drop_pending loaded (get_player pid players) env g))
      e
    ∙ drop_all-nobody loaded env pids g e

-- What a game comes to once its last player is out, with the player's record.
record LeftAlone (g h : GameActor) (leaver : GamePlayerRecord) : Type 0 where
  nobody : h.players ≡ []
  started : h.started ≡ g.started
  records : h.player_records ≡ g.player_records ++ leaver ∷ []
  game_name : h.game_name ≡ g.game_name
  owner_name : h.owner_name ≡ g.owner_name
  map_path : h.map_info.path ≡ g.map_info.path

no_core_players : (players : List LobbyPlayer) → map core_player players ≡ [] → players ≡ []
no_core_players [] e = refl
no_core_players (p ∷ players) e = absurd (cons≢nil e)

counted : LobbyPlayer → LobbyPlayer
counted p = record p { total_received = (p.total_received + 1) % 2 ^ 32 }

counted-found :
    (p : LobbyPlayer) (players : List LobbyPlayer)
    → players ≡ p ∷ []
    → get_player p.pid (update_player p.pid counted players) ≡ some (counted p)
unfolding get_player update_player counted
counted-found p players e = rw e (ground arith)

counted-gone :
    (p : LobbyPlayer) (players : List LobbyPlayer)
    → players ≡ p ∷ []
    → remove_from p.pid (update_player p.pid counted players) ≡ []
unfolding remove_from update_player counted
counted-gone p players e = rw e (ground arith)

left_game : Env → LobbyPlayer → GameActor → GameActor
left_game env p g =
    remove_player env p.pid playerleave_lost
      (record g { players = update_player p.pid counted g.players })

counted-record :
    (env : Env) (g : GameActor) (p : LobbyPlayer)
    → record_of env
        (counted p)
        playerleave_lost
        none
        (record g { players = update_player p.pid counted g.players })
      ≡ record_of env p playerleave_lost none g
unfolding record_of slot_index_of_pid counted
counted-record env g p = refl

-- What `core` keeps of the leave.
core-LeftAlone :
    (g h : GameActor) (env : Env) (p : LobbyPlayer)
    → h.players ≡ []
    → core h ≡ core (taken_out env p playerleave_lost none g)
    → LeftAlone g h (record_of env p playerleave_lost none g)
unfolding core taken_out
core-LeftAlone g h env p nobody e = record {
  nobody = nobody;
  started = ap (λ (x : GameActor). x.started) e;
  records = ap (λ (x : GameActor). x.player_records) e;
  game_name = ap (λ (x : GameActor). x.game_name) e;
  owner_name = ap (λ (x : GameActor). x.owner_name) e;
  map_path = ap (λ (x : GameActor). x.map_info.path) e;
}

taken_out-players :
    (env : Env) (p : LobbyPlayer) (g : GameActor)
    → (taken_out env p playerleave_lost none g).players ≡ remove_from p.pid g.players
unfolding taken_out
taken_out-players env p g = refl

left_game-LeftAlone :
    (env : Env) (g : GameActor) (p : LobbyPlayer)
    → g.players ≡ p ∷ []
    → LeftAlone
        (record g { players = update_player p.pid counted g.players })
        (left_game env p g)
        (record_of env p playerleave_lost none g)
unfolding left_game remove_player counted
left_game-LeftAlone env g p alone =
    rw⁻¹ (counted-record env g p)
      (core-LeftAlone g1 (left_game env p g) env (counted p) nobody same)
  where
    g1 : GameActor
    g1 = record g { players = update_player p.pid counted g.players }

    same : core (left_game env p g) ≡ core (taken_out env (counted p) playerleave_lost none g1)
    same =
        remove_player-core env p.pid playerleave_lost none g1 (counted p)
          (counted-found p g.players alone)

    gone : (taken_out env (counted p) playerleave_lost none g1).players ≡ []
    gone = taken_out-players env (counted p) g1 ∙ counted-gone p g.players alone

    nobody : (left_game env p g).players ≡ []
    nobody = no_core_players (left_game env p g).players (
        core-players (left_game env p g) (taken_out env (counted p) playerleave_lost none g1) same
        ∙ ap (map core_player) gone)

-- The game that the loop ends with.
ended_game : World → Env → GameActor → GameActor
ended_game w env h = notify deleted (write_records w env (record h { pending_drop = [] }))

-- The end of the loop after the leave.
settle_up-LeftAlone :
    (w : World) (env : Env) (g h : GameActor) (leaver : GamePlayerRecord)
    → g.started ≡ true
    → LeftAlone g h leaver
    → settle_up w env h ≡ over (ended_game w env h)
unfolding settle_up process_pending_drops ended_game
settle_up-LeftAlone w env g h leaver started left =
    let nobody : is_nobody h.players ≡ true = ap is_nobody left.nobody in
    let ended : (h.started && is_nobody h.players) ≡ true =
      rw (left.started ∙ started, nobody) refl in
    (λ i. finish (
      drop_all-nobody h.game_loaded env h.pending_drop (record h { pending_drop = [] }) left.nobody
        i))
    ∙ if-true _ _ _ ended
  where
    finish : GameActor → Outcome
    finish x =
        if x.started && is_nobody x.players
        then over (notify deleted (write_records w env x))
        else running x

leave_frame :
    (w : World) (env : Env) (g : GameActor) (p : LobbyPlayer) (conn_id : ℕ) (bytes : List ℕ)
    (key : ℕ)
    → lookup conn_id g.conn_pid ≡ some p.pid
    → (get_or bytes 0 0 == gps_header_constant) ≡ false
    → step w env (frame conn_id w3gs_leavegame bytes key) g
      ≡ ret (settle_up w env (left_game env p g))
unfolding step conn_frame handle_player_frame handle_w3gs_frame left_game counted
leave_frame w env g p conn_id bytes key joined w3gs = simp (joined, w3gs) refl

ended_game-events :
    (w : World) (env : Env) (g h : GameActor) (leaver : GamePlayerRecord)
    → LeftAlone g h leaver
    → (ended_game w env h).events
      ≡ h.events
        ++ game_ended
            (game_record w env (record h { pending_drop = [] }))
            (g.player_records ++ leaver ∷ [])
          ∷ (deleted ∷ [])
unfolding ended_game notify write_records
ended_game-events w env g h leaver left =
    append_assoc h.events
      (game_ended (game_record w env (record h { pending_drop = [] })) h.player_records ∷ [])
      (deleted ∷ [])
    ∙ ap
        (λ (records : List GamePlayerRecord).
          h.events
          ++ game_ended (game_record w env (record h { pending_drop = [] })) records
            ∷ (deleted ∷ []))
        left.records

ended_game-told :
    (w : World) (env : Env) (g h : GameActor) (leaver : GamePlayerRecord)
    → LeftAlone g h leaver
    → IsToldOf (game_record w env (record h { pending_drop = [] })) g
unfolding IsToldOf game_record
ended_game-told w env g h leaver left = (left.game_name, left.owner_name, left.map_path)

ended_game-left :
    (w : World) (env : Env) (h : GameActor)
    → ((ended_game w env h).players ≡ h.players) × ((ended_game w env h).player_records ≡ [])
unfolding ended_game notify write_records
ended_game-left w env h = (refl, refl)

-- When the last player of a started game sends the W3GS packet of a leave, on the connection that is
-- the player's and not behind the header of GProxy++, the loop ends with it: BotCore is
-- handed a record with the name, the owner and the map of the game and, in order, the records of all who
-- left before and of this player, and then is told of the deletion; the game keeps none of the records.
pub step_last_leave :
    (w : World) (env : Env) (g : GameActor) (p : LobbyPlayer) (conn_id : ℕ) (bytes : List ℕ)
    (key : ℕ)
    → g.started ≡ true
    → g.players ≡ p ∷ []
    → lookup conn_id g.conn_pid ≡ some p.pid
    → (get_or bytes 0 0 == gps_header_constant) ≡ false
    → (h : GameActor) × (es : List GameEvent) × (told : GameRecord) × (step w env
          (frame conn_id w3gs_leavegame bytes key)
          g
        ≡ ret (over h))
      × (h.events
          ≡ es
            ++ game_ended told (g.player_records ++ record_of env p playerleave_lost none g ∷ [])
              ∷ (deleted ∷ []))
      × IsToldOf told g
      × (h.players ≡ [])
      × (h.player_records ≡ [])
unfolding IsToldOf
step_last_leave w env g p conn_id bytes key started alone joined w3gs =
    let h = left_game env p g in
    let left = left_game-LeftAlone env g p alone in
    let rest = ended_game-left w env h in
    (
      ended_game w env h,
      h.events,
      game_record w env (record h { pending_drop = [] }),
      leave_frame w env g p conn_id bytes key joined w3gs
          ∙ ap (λ (o : Outcome). ret o)
              (settle_up-LeftAlone w env _ h (record_of env p playerleave_lost none g) started
                left),
      ended_game-events w env _ h (record_of env p playerleave_lost none g) left,
      ended_game-told w env _ h (record_of env p playerleave_lost none g) left,
      rest.0 ∙ left.nobody,
      rest.1,
    )
