-- ===== src/Game/Members/Runs.antt =====
-- A join and a leave in the lobby of the small game of src/game/actor.rs.
use ghostpp_rs.Prelude.{arith, false, none, List, [], ◌∷◌, ◌++◌}
use ghostpp_rs.Core.GameSlot.{default_slot}
use ghostpp_rs.Core.GameProtocol.Receive.Join.{JoinFields, join_packet}
use ghostpp_rs.Game.{GameActor, Env}
use ghostpp_rs.Game.Fixture.{game, env}
use ghostpp_rs.Game.Hub.{pids_of}
use ghostpp_rs.Game.Members.{IsSound}
use ghostpp_rs.Game.Members.Joins.{Visit, joins, leaves, visits, visits-IsSound}

abbrev lobby : GameActor
lobby = record game {
  slots = game.slots ++ default_slot ∷ [];
  game_loaded = false;
  conns = (13, 3) ∷ game.conns;
}

sound : IsSound (pids_of lobby.players) 255
sound = record { distinct = ground arith; in_range = ground arith; not_host = ground arith }

abbrev join : JoinFields
join = record {
  host_counter = 1;
  entry_key = 0;
  unknown = 0;
  listen_port = 224;
  listen_port_high = 23;
  peer_key = 1;
  unknown_word = 1;
  internal_port = 23;
  internal_port_high = 224;
  ip0 = 192;
  ip1 = 168;
  ip2 = 0;
  ip3 = 9;
}

-- A connection that has not joined sends a join request; then player 2 leaves.
abbrev coming_and_going : List (Env × Visit)
coming_and_going = (env, joins 99 13 (join_packet join (67 ∷ []))) ∷ (env, leaves 2 7 none) ∷ []

visits-IsSound_example :
    IsSound
      (pids_of
        (visits
          (λ server name ip. false)
          (λ server name now. none)
          (λ name. name)
          coming_and_going
          lobby).players)
      (visits
        (λ server name ip. false)
        (λ server name now. none)
        (λ name. name)
        coming_and_going
        lobby).virtual_host_pid
visits-IsSound_example =
    visits-IsSound (λ server name ip. false) (λ server name now. none) (λ name. name)
      coming_and_going lobby sound
