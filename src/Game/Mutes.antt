-- ===== src/Game/Mutes.antt =====
-- src/game/actor.rs: the commands mute, unmute and mutelist, and the lines that a long list is cut
-- into. The time a mute ends wraps as a u64. Unicode lower case, the answers of the database and the date of a record are arguments.
pub mod Lines
use ghostpp_rs.Prelude.{
  ℕ, zero, suc, ◌+◌, ◌-◌, ◌*◌, ◌%◌, ◌^◌, Bool, true, false, ◌&&◌, ◌||◌, not, List, [], ◌∷◌, ◌++◌,
  map, Option, none, some, ltb, ◌==◌, if◌then◌else◌, length, max,
}
use ghostpp_rs.Prelude.Text.{codes, decimal, starts_with}
use ghostpp_rs.Prelude.Words.{trim, split_whitespace, split_once}
use ghostpp_rs.Lang.{t}
use ghostpp_rs.Util.{parse_duration_secs}
use ghostpp_rs.Core.GameProtocol.Receive.{is_empty}
use ghostpp_rs.Game.{LobbyPlayer, GameActor, Env, MuteRecord, get_player, update_player}
use ghostpp_rs.Game.Chat.{send_all_chat, send_private_chat, unmute}
use ghostpp_rs.Game.Join.{mute_duration_text, db_servers}

abbrev pub default_mute_secs : ℕ
default_mute_secs = 3 * 86400

-- Whether the pattern stands anywhere in the text (`str::contains`).
unfoldable pub contains : List ℕ → List ℕ → Bool
contains pattern_ [] = is_empty pattern_
contains pattern_ (c ∷ text) =
    let rest = contains pattern_ text in if starts_with pattern_ (c ∷ text) then true else rest

unfoldable pub reply_to : Option ℕ → List ℕ → GameActor → GameActor
reply_to none message g = g
reply_to (some pid) message g = send_private_chat pid message g

unfoldable pub first_or_empty : List (List ℕ) → List ℕ
first_or_empty [] = []
first_or_empty (word ∷ words) = word

-- `split_once(char::is_whitespace)`, with what stands in for a text without white space.
unfoldable pub behind_first : Option (List ℕ × List ℕ) → List ℕ
behind_first none = []
behind_first (some (word, rest)) = trim rest

unfoldable pub first_part : List ℕ → Option (List ℕ × List ℕ) → List ℕ
first_part arg none = arg
first_part arg (some (word, rest)) = word

-- The duration and the reason in what follows the name.
unfoldable pub duration_and_reason : Option ℕ → List ℕ → ℕ × List ℕ
duration_and_reason none rest = (default_mute_secs, rest)
duration_and_reason (some secs) rest = (secs, behind_first (split_once rest))

unfoldable pub duration_token : List (List ℕ) → Option ℕ
duration_token [] = none
duration_token (word ∷ words) = parse_duration_secs word

unfoldable pub chunk_loop : List ℕ → Bool → List (List ℕ) → List (List ℕ)
chunk_loop cur fresh [] = cur ∷ []
chunk_loop cur fresh (entry ∷ entries) =
    let full = not fresh && ltb 200 (length cur + 2 + length entry) in
    let opened : List ℕ = if full then [] else cur in
    let joined =
      (if not (fresh || full)
        then opened ++ codes ", "
        else if not (is_empty opened)
        then opened ++ codes " "
        else opened)
      ++ entry in
    let rest = chunk_loop joined false entries in if full then cur ∷ rest else rest

unfoldable pub chunk_chat_lines : List ℕ → List (List ℕ) → List (List ℕ)
unfolding chunk_loop
chunk_chat_lines header entries = chunk_loop header true entries

unfoldable pub reply_lines : Option ℕ → List (List ℕ) → GameActor → GameActor
reply_lines pid [] g = g
reply_lines pid (line ∷ lines) g = reply_lines pid lines (reply_to pid line g)

-- The database of mutes: the error of an insertion, if any; whether a removal, which may fail, removed
-- something; and the entries of a server, or an error.
pub data MuteList : Type 0 where
  listed : List MuteRecord → MuteList
  failed : List ℕ → MuteList

pub record MuteDb : Type 0 where
  pub mute_add : MuteRecord → Option (List ℕ)
  pub mute_remove : List ℕ → List ℕ → Bool
  pub mute_list : List ℕ → ℕ → MuteList
  pub date : List ℕ

module _ (to_lowercase : List ℕ → List ℕ) where
  unfoldable pub find_player_pid : List ℕ → List LobbyPlayer → Option ℕ
  find_player_pid name [] = none
  find_player_pid name (p ∷ players) =
      let rest = find_player_pid name players in
      if contains (to_lowercase name) (to_lowercase p.name) then some p.pid else rest

  abbrev pub found_player : List ℕ → GameActor → Option LobbyPlayer
  found_player name g = elim (find_player_pid name g.players) [
    | none ↦ none
    | some pid ↦ get_player pid g.players
  ]

module _ (to_lowercase : List ℕ → List ℕ) (db : MuteDb) where
  unfoldable pub mark_muted : Option LobbyPlayer → ℕ → GameActor → GameActor
  mark_muted none expires g = g
  mark_muted (some p) expires g = record g {
    players =
        update_player p.pid (λ q. record q { muted = true; mute_expires = expires }) g.players;
  }

  -- The name and the realm of the player, or the name as it was typed.
  unfoldable pub name_and_realm : Option LobbyPlayer → List ℕ → List ℕ × List ℕ
  name_and_realm none target = (target, [])
  name_and_realm (some p) target = (p.name, p.spoofed_realm)

  unfoldable pub mute_record : List ℕ → List ℕ × List ℕ → ℕ → List ℕ → GameActor → MuteRecord
  mute_record requester who expires reason g = record {
    server = if is_empty who.1 then first_or_empty (db_servers g) else who.1;
    name = who.0;
    date = db.date;
    expires = expires;
    admin = requester;
    reason = reason;
  }

  unfoldable pub tell_mute_result :
      Env → Option ℕ → Bool → Option (List ℕ) → List ℕ → ℕ → GameActor → GameActor
  tell_mute_result env req in_game none name secs g =
      let vars =
        (codes "name", name) ∷ (codes "duration", mute_duration_text env.catalog secs) ∷ [] in
      if in_game
      then send_all_chat (t env.catalog "player_muted" vars) g
      else reply_to req (t env.catalog "mute_offline_added" vars) g
  tell_mute_result env req in_game (some error) name secs g =
      let vars =
        (codes "name", name) ∷ (codes "duration", mute_duration_text env.catalog secs) ∷ [] in
      let told = if in_game then send_all_chat (t env.catalog "player_muted" vars) g else g in
      reply_to req (t env.catalog "mute_save_failed" ((codes "error", error) ∷ [])) told

  unfoldable pub mute_target : Env → Option ℕ → List ℕ → List ℕ → ℕ × List ℕ → GameActor → GameActor
  mute_target env req requester target duration g =
      let expires : ℕ = if duration.0 == 0 then 0 else (env.unix_time + duration.0) % 2 ^ 64 in
      let found = found_player to_lowercase target g in
      let who = name_and_realm found target in
      tell_mute_result env req (elim found [ none ↦ false | some p ↦ true ])
        (db.mute_add (mute_record requester who expires duration.1 g)) who.0 duration.0
        (mark_muted found expires g)

  unfoldable pub mute_command : Env → Option ℕ → List ℕ → List ℕ → GameActor → GameActor
  mute_command env req requester arg g =
      let target = first_part arg (split_once arg) in
      let rest = behind_first (split_once arg) in
      if is_empty target
      then reply_to req (t env.catalog "mute_usage" []) g
      else mute_target env req requester target
          (duration_and_reason (duration_token (split_whitespace rest)) rest) g

  unfoldable pub clear_mute : Option LobbyPlayer → GameActor → GameActor
  clear_mute none g = g
  clear_mute (some p) g = record g { players = update_player p.pid unmute g.players }

  unfoldable pub removed_anywhere : List (List ℕ) → List ℕ → Bool
  removed_anywhere [] name = false
  removed_anywhere (server ∷ servers) name =
      db.mute_remove server name || removed_anywhere servers name

  unfoldable pub tell_unmute :
      Env → Option ℕ → Option LobbyPlayer → Bool → List ℕ → GameActor → GameActor
  tell_unmute env req (some p) removed name g =
      send_all_chat (t env.catalog "player_unmuted" ((codes "name", name) ∷ [])) g
  tell_unmute env req none removed name g =
      if removed
      then reply_to req (t env.catalog "player_unmuted" ((codes "name", name) ∷ [])) g
      else reply_to req (t env.catalog "player_not_found" []) g

  unfoldable pub unmute_command : Env → Option ℕ → List ℕ → GameActor → GameActor
  unmute_command env req arg g =
      let target = first_or_empty (split_whitespace arg) in
      let found = found_player to_lowercase target g in
      let name = (name_and_realm found target).0 in
      if is_empty target
      then reply_to req (t env.catalog "mute_usage" []) g
      else tell_unmute env req found (removed_anywhere (db_servers g) name) name
          (clear_mute found g)

  -- The time that is left of a mute, at least a second.
  unfoldable pub mute_entry : Env → MuteRecord → List ℕ
  mute_entry env m =
      let left : ℕ = if m.expires == 0 then 0 else max (m.expires - env.unix_time) 1 in
      m.name ++ (codes "(" ++ (mute_duration_text env.catalog left ++ codes ")"))

  -- The entries of all servers, or the first error.
  unfoldable pub mute_entries : Env → List (List ℕ) → MuteList
  mute_entries env [] = listed []
  mute_entries env (server ∷ servers) = elim (db.mute_list server env.unix_time) [
    | failed error ↦ failed error
    | listed ms ↦ elim (mute_entries env servers) [
      | failed error ↦ failed error
      | listed more ↦ listed (ms ++ more)
    ]
  ]

  unfoldable pub tell_mutes : Env → Option ℕ → MuteList → GameActor → GameActor
  tell_mutes env req (failed error) g =
      reply_to req (t env.catalog "query_failed" ((codes "error", error) ∷ [])) g
  tell_mutes env req (listed []) g = reply_to req (t env.catalog "mute_list_empty" []) g
  tell_mutes env req (listed (m ∷ ms)) g =
      let entries = map (mute_entry env) (m ∷ ms) in
      reply_lines req
        (chunk_chat_lines
          (t env.catalog "mute_list" ((codes "count", decimal (length entries)) ∷ [])) entries)
        g

  unfoldable pub mutelist_command : Env → Option ℕ → GameActor → GameActor
  mutelist_command env req g = tell_mutes env req (mute_entries env (db_servers g)) g
