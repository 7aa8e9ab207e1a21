-- ===== src/Game/Chat/Settled.antt =====
-- src/game/actor.rs: chat changes nothing but what goes out and the replay.
use ghostpp_rs.Prelude.{ℕ, ◌≡◌, refl, ◌∙◌, List, [], ◌∷◌, inl, inr, Bool-cases}
use ghostpp_rs.Core.GameProtocol.Send.{send_w3gs_chat_from_host}
use ghostpp_rs.Core.Replay.{add_chat}
use ghostpp_rs.Game.{GameActor}
use ghostpp_rs.Game.Hub.{send_to_pid, pids_of}
use ghostpp_rs.Game.Hub.Settled.{settle, send_to_pid-settle, record_replay-settle}
use ghostpp_rs.Game.Batches.{record_replay}
use ghostpp_rs.Game.Downloads.{host_pid}
use ghostpp_rs.Game.Chat.{in_game, chat_to, send_all_chat, send_private_chat}

pub chat_to-settle :
    (from flag : ℕ) (extra message pids : List ℕ) (g : GameActor)
    → settle (chat_to from flag extra message pids g) ≡ settle g
unfolding chat_to
chat_to-settle from flag extra message [] g = refl
chat_to-settle from flag extra message (pid ∷ pids) g =
    chat_to-settle from flag extra message pids
      (send_to_pid pid (send_w3gs_chat_from_host from (pid ∷ []) flag extra message) g)
    ∙ send_to_pid-settle pid (send_w3gs_chat_from_host from (pid ∷ []) flag extra message) g

pub send_all_chat-settle :
    (message : List ℕ) (g : GameActor) → settle (send_all_chat message g) ≡ settle g
unfolding send_all_chat
send_all_chat-settle message g = elim (Bool-cases (in_game g)) [
  | inl running ↦ rw running (
      chat_to-settle (host_pid g) 32 (0 ∷ 0 ∷ 0 ∷ 0 ∷ []) message (pids_of g.players)
        (record_replay (add_chat (host_pid g) 32 0 message) g)
      ∙ record_replay-settle (add_chat (host_pid g) 32 0 message) g)
  | inr lobby ↦ rw lobby (chat_to-settle (host_pid g) 16 [] message (pids_of g.players) g)
]

pub send_private_chat-settle :
    (pid : ℕ) (message : List ℕ) (g : GameActor)
    → settle (send_private_chat pid message g) ≡ settle g
unfolding send_private_chat
send_private_chat-settle pid message g = elim (Bool-cases (in_game g)) [
  | inl running ↦ rw running (chat_to-settle (host_pid g) 32 _ message (pid ∷ []) g)
  | inr lobby ↦ rw lobby (chat_to-settle (host_pid g) 16 [] message (pid ∷ []) g)
]
