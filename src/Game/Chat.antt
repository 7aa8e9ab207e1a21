-- ===== src/Game/Chat.antt =====
-- src/game/actor.rs: what the host says to everyone or to one player (send_all_chat,
-- send_private_chat), and relay_chat, which forwards what a player says. The bytes of a message are
-- an argument; `g.started`, the mutes and the game's phase decide who speaks and who hears it.
pub mod Settled
use Prim.Native.String.{String}
use ghostpp_rs.Prelude.{
  ℕ, ◌+◌, Bool, true, false, ◌&&◌, ◌||◌, not, List, [], ◌∷◌, Option, none, some, ltb, ◌==◌,
  if◌then◌else◌, get_or, as_u8,
}
use ghostpp_rs.Lang.{t}
use ghostpp_rs.Core.GameProtocol.{IncomingChatPlayer}
use ghostpp_rs.Core.GameProtocol.Send.{send_w3gs_chat_from_host}
use ghostpp_rs.Core.Replay.{add_chat}
use ghostpp_rs.Game.{LobbyPlayer, GameActor, Env, get_player, update_player}
use ghostpp_rs.Game.Hub.{send_to_pid, pids_of}
use ghostpp_rs.Game.Batches.{record_replay}
use ghostpp_rs.Game.Downloads.{host_pid}
use ghostpp_rs.Game.Slots.{slot_at, slot_index_of_pid}

abbrev pub in_game : GameActor → Bool
in_game g = g.game_loading || g.game_loaded

-- The same message to each of the players, addressed to that player.
unfoldable pub chat_to : ℕ → ℕ → List ℕ → List ℕ → List ℕ → GameActor → GameActor
chat_to from flag extra message [] g = g
chat_to from flag extra message (pid ∷ pids) g =
    chat_to from flag extra message pids
      (send_to_pid pid (send_w3gs_chat_from_host from (pid ∷ []) flag extra message) g)

unfoldable pub send_all_chat : List ℕ → GameActor → GameActor
send_all_chat message g =
    if in_game g
    then chat_to (host_pid g) 32 (0 ∷ 0 ∷ 0 ∷ 0 ∷ []) message (pids_of g.players)
        (record_replay (add_chat (host_pid g) 32 0 message) g)
    else chat_to (host_pid g) 16 [] message (pids_of g.players) g

-- The colour of the player's slot, 0 without a slot.
unfoldable pub colour_of_pid : ℕ → GameActor → ℕ
colour_of_pid pid g = elim (slot_index_of_pid pid g) [
  | none ↦ 0
  | some sid ↦ (slot_at g.slots sid).colour
]

unfoldable pub send_private_chat : ℕ → List ℕ → GameActor → GameActor
send_private_chat pid message g =
    if in_game g
    then chat_to (host_pid g) 32 (as_u8 (3 + colour_of_pid pid g) ∷ 0 ∷ 0 ∷ 0 ∷ []) message
        (pid ∷ []) g
    else chat_to (host_pid g) 16 [] message (pid ∷ []) g

unfoldable pub unmute : LobbyPlayer → LobbyPlayer
unmute p = record p { muted = false; mute_expires = 0 }

-- Whether !muteall blocks the message: it goes to everyone in the game.
unfoldable pub is_blocked : Bool → IncomingChatPlayer → Bool
is_blocked mute_all chat = mute_all && (chat.flag == 32 && get_or chat.extra_flags 0 0 == 0)

unfoldable pub forward : IncomingChatPlayer → GameActor → GameActor
forward chat g =
    if is_blocked g.mute_all chat
    then g
    else chat_to chat.from_pid chat.flag chat.extra_flags chat.message chat.to_pids g

-- Whether the sender is muted at the time `now`.
unfoldable pub is_muted : ℕ → LobbyPlayer → Bool
is_muted now p = p.muted && (p.mute_expires == 0 || ltb now p.mute_expires)

unfoldable pub relay_from : Option LobbyPlayer → Env → IncomingChatPlayer → GameActor → GameActor
relay_from none env chat g = forward chat g
relay_from (some p) env chat g =
    if is_muted env.unix_time p
    then g
    else if p.muted
    then forward chat (
        send_private_chat chat.from_pid (t env.catalog "mute_expired" [])
          (record g { players = update_player chat.from_pid unmute g.players }))
    else forward chat g

unfoldable pub relay_chat : Env → IncomingChatPlayer → GameActor → GameActor
relay_chat env chat g = relay_from (get_player chat.from_pid g.players) env chat g
