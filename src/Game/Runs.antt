-- ===== src/Game/Runs.antt =====
-- The game actor of src/game/actor.rs on a small game.
use mathlib.Core.List.{flatten}
use ghostpp_rs.Prelude.{
  if◌then◌else◌, drop, ℕ, zero, suc, ◌+◌, ◌≡◌, ◌≤◌, ◌<◌, ◌⊎◌, refl, inl, true, List, [], ◌∷◌, ◌++◌,
  map, arith, take, All,
}
use ghostpp_rs.Game.Fixture.{player, queue, game, sum_of}
use ghostpp_rs.Game.Hub.Delivery.{IsKeyed}
use ghostpp_rs.Game.Batches.{chunks_of, send_all_actions}
use ghostpp_rs.Game.Batches.Slicing.{IsBatch, IsFilled, chunks_of_cut}
use ghostpp_rs.Game.Batches.Stream.{note_all}
use ghostpp_rs.Game.Batches.Wire.{IsWired, offer_all}
use ghostpp_rs.Game.Batches.Handed.{stream, send_all_actions_handed}
use ghostpp_rs.Game.Gproxy.{trim_gproxy_buffer}
use ghostpp_rs.Game.Gproxy.Replayed.{
  GproxyEvent, sends, acknowledges, gproxy_events, sent_by, last_acknowledged, replayed,
}
use ghostpp_rs.Game.Downloads.{part_loop}
use ghostpp_rs.Game.Downloads.Coverage.{part_loop_covers}
use ghostpp_rs.Core.GameProtocol.Send.{map_chunk}
use ghostpp_rs.Game.Slots.Colours.{colour_at, Distinct}
use ghostpp_rs.Game.Slots.Steps.{Coloured}
use ghostpp_rs.Game.Slots.Requests.{swap, colour, answer_all, answer_all-Coloured}

keyed : IsKeyed game.players
keyed = ground arith

wired : IsWired game.players
wired = ground arith

send_all_actions_handed_example :
    ((send_all_actions sum_of game).players
      ≡ map (λ p. note_all true (stream sum_of game p) p) game.players)
    × All
        (λ p. (send_all_actions sum_of game).links p.handle ≡ (
          if p.gproxy_disconnected
          then game.links p.handle
          else offer_all (stream sum_of game p) (game.links p.handle)))
        game.players
send_all_actions_handed_example = send_all_actions_handed sum_of game keyed wired

chunks_of_cut_example :
    (flatten (chunks_of queue) ≡ queue)
    × All IsBatch (chunks_of queue)
    × ((queue ≡ []) ⊎ All IsFilled (chunks_of queue))
chunks_of_cut_example = chunks_of_cut queue

abbrev run_of_play : List GproxyEvent
run_of_play = sends (1 ∷ []) ∷ sends (2 ∷ []) ∷ acknowledges 8 ∷ sends (3 ∷ []) ∷ []

sent_in_play : sent_by run_of_play ≡ (1 ∷ []) ∷ (2 ∷ []) ∷ (3 ∷ []) ∷ []
unfolding sent_by
sent_in_play = refl

replayed_example :
    take 2 (sent_by run_of_play)
      ++ (trim_gproxy_buffer 9 (gproxy_events run_of_play (player 1 true))).gproxy_buffer
    ≡ sent_by run_of_play
unfolding sent_by
replayed_example =
    replayed run_of_play (player 1 true) 2 refl refl refl (unfold last_acknowledged in omega arith)
      (omega arith) (omega arith)

two_colours : Distinct (colour_at game.slots) 2
two_colours zero zero hi hj e = inl refl
two_colours zero (suc zero) hi hj e = ground arith
two_colours (suc zero) zero hi hj e = ground arith
two_colours (suc zero) (suc zero) hi hj e = inl refl
two_colours (suc (suc i)) j hi hj e = absurd (omega arith)
two_colours i (suc (suc j)) hi hj e = absurd (omega arith)

answer_all-Coloured_example : Coloured (answer_all (colour 1 7 ∷ swap 0 1 ∷ []) game)
answer_all-Coloured_example =
    answer_all-Coloured (colour 1 7 ∷ swap 0 1 ∷ []) game (record { distinct = two_colours })

abbrev small_map : List ℕ
small_map = 1 ∷ 2 ∷ 3 ∷ []

part_loop_covers_example :
    (flatten (map (λ start. map_chunk start small_map) (part_loop 4 3 144200 1).0)
        ++ drop (part_loop 4 3 144200 1).1 small_map
      ≡ drop 1 small_map)
    × (((part_loop 4 3 144200 1).1 ≡ 3) ⊎ (144200 ≤ (part_loop 4 3 144200 1).1))
    × (((part_loop 4 3 144200 1).1 ≡ 1) ⊎ ((part_loop 4 3 144200 1).1 < 144200 + 1442))
part_loop_covers_example = part_loop_covers 144200 1 small_map (omega arith)
