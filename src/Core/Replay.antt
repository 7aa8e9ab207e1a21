-- ===== src/Core/Replay.antt =====
-- src/core/replay.rs: the recorder of one game and the .w3g file.
pub mod Blocks
pub mod ReadBack
pub mod Container
pub mod Unpacked
use ghostpp_rs.Prelude.{
  ℕ, zero, suc, ◌+◌, ◌-◌, ◌*◌, ◌/◌, ◌%◌, ◌^◌, Bool, true, false, List, [], ◌∷◌, ◌++◌, map, length,
  take, drop, replicate, ltb, ◌==◌, if◌then◌else◌, u16_le, u32_le, as_u8, as_u16, as_u32,
}
use Prim.Native.Nat.{bit_and, bit_or, bit_xor}
use ghostpp_rs.Prelude.Text.{codes}
use ghostpp_rs.Core.GameSlot.{GameSlot}
use ghostpp_rs.Core.GameProtocol.Send.{slots_bytes}

abbrev pub replay_leavegame : ℕ
replay_leavegame = 0x17

abbrev pub replay_firststartblock : ℕ
replay_firststartblock = 0x1A

abbrev pub replay_secondstartblock : ℕ
replay_secondstartblock = 0x1B

abbrev pub replay_thirdstartblock : ℕ
replay_thirdstartblock = 0x1C

abbrev pub replay_timeslot2 : ℕ
replay_timeslot2 = 0x1E

abbrev pub replay_timeslot : ℕ
replay_timeslot = 0x1F

abbrev pub replay_chatmessage : ℕ
replay_chatmessage = 0x20

pub record ReplayRecorder : Type 0 where
  pub host_pid : ℕ
  pub host_name : List ℕ
  pub players : List (ℕ × List ℕ)
  pub slots : List GameSlot
  pub random_seed : ℕ
  pub select_mode : ℕ
  pub start_spot_count : ℕ
  pub map_game_type : ℕ
  pub game_name : List ℕ
  pub stat_string : List ℕ
  pub loading_blocks : List ℕ
  pub compiled_blocks : List ℕ
  pub replay_length_ms : ℕ

unfoldable pub new :
    ℕ
    → List ℕ
    → List (ℕ × List ℕ)
    → List GameSlot
    → ℕ
    → ℕ
    → ℕ
    → ℕ
    → List ℕ
    → List ℕ
    → ReplayRecorder
new host_pid host_name players slots random_seed select_mode start_spot_count map_game_type
      game_name stat_string =
    record {
      host_pid = host_pid;
      host_name = host_name;
      players = players;
      slots = slots;
      random_seed = random_seed;
      select_mode = select_mode;
      start_spot_count = start_spot_count;
      map_game_type = map_game_type;
      game_name = game_name;
      stat_string = stat_string;
      loading_blocks = [];
      compiled_blocks = [];
      replay_length_ms = 0;
    }

-- The actions of a time slot: pid, 16-bit length, bytes.
unfoldable pub slot_actions : List (ℕ × List ℕ) → List ℕ
slot_actions [] = []
slot_actions ((pid, action) ∷ actions) =
    pid ∷ u16_le (as_u16 (length action)) ++ (action ++ slot_actions actions)

-- The block, with its length less three in bytes 1 and 2.
unfoldable pub time_slot_block : ℕ → ℕ → List (ℕ × List ℕ) → List ℕ
time_slot_block id time_increment actions =
    let body = u16_le time_increment ++ slot_actions actions in
    id ∷ u16_le (as_u16 (length body)) ++ body

push_time_slot : ℕ → ℕ → List (ℕ × List ℕ) → ReplayRecorder → ReplayRecorder
push_time_slot id time_increment actions r = record r {
  compiled_blocks = r.compiled_blocks ++ time_slot_block id time_increment actions;
}

unfoldable pub add_time_slot : ℕ → List (ℕ × List ℕ) → ReplayRecorder → ReplayRecorder
unfolding push_time_slot
add_time_slot time_increment actions r =
    let r' = push_time_slot replay_timeslot time_increment actions r in
    record r' { replay_length_ms = (r.replay_length_ms + time_increment) % 2 ^ 32 }

unfoldable pub add_time_slot2 : List (ℕ × List ℕ) → ReplayRecorder → ReplayRecorder
unfolding push_time_slot
add_time_slot2 actions r = push_time_slot replay_timeslot2 0 actions r

unfoldable pub chat_block : ℕ → ℕ → ℕ → List ℕ → List ℕ
chat_block pid flag chat_mode message =
    let body = flag ∷ u32_le chat_mode ++ (message ++ 0 ∷ []) in
    replay_chatmessage ∷ pid ∷ u16_le (as_u16 (length body)) ++ body

unfoldable pub add_chat : ℕ → ℕ → ℕ → List ℕ → ReplayRecorder → ReplayRecorder
add_chat pid flag chat_mode message r = record r {
  compiled_blocks = r.compiled_blocks ++ chat_block pid flag chat_mode message;
}

unfoldable pub leave_block : ℕ → ℕ → List ℕ
leave_block pid result = replay_leavegame ∷ u32_le 1 ++ (pid ∷ u32_le result ++ u32_le 1)

unfoldable pub add_leave : ℕ → ℕ → Bool → ReplayRecorder → ReplayRecorder
add_leave pid result during_loading r =
    if during_loading
    then record r { loading_blocks = r.loading_blocks ++ leave_block pid result }
    else record r { compiled_blocks = r.compiled_blocks ++ leave_block pid result }

-- The players other than the host.
player_list : ℕ → List (ℕ × List ℕ) → List ℕ
player_list host_pid [] = []
player_list host_pid ((pid, name) ∷ players) =
    (if pid == host_pid then [] else 22 ∷ pid ∷ name ++ (0 ∷ 1 ∷ 0 ∷ u32_le 0))
    ++ player_list host_pid players

unfoldable pub build : ReplayRecorder → List ℕ
unfolding player_list
build r =
    (16 ∷ 1 ∷ 0 ∷ 0 ∷ 0 ∷ r.host_pid ∷ r.host_name ++ (0 ∷ 1 ∷ 0 ∷ []))
    ++ ((r.game_name ++ (0 ∷ 0 ∷ []))
        ++ ((r.stat_string ++ 0 ∷ [])
            ++ (u32_le (as_u32 (length r.slots))
                ++ (u32_le r.map_game_type
                    ++ (u32_le 0x0012F8B0
                        ++ (player_list r.host_pid r.players
                            ++ ((25 ∷ u16_le (as_u16 (7 + length r.slots * 9)))
                                ++ ((as_u8 (length r.slots) ∷ slots_bytes r.slots)
                                    ++ (u32_le r.random_seed
                                        ++ ((r.select_mode ∷ r.start_spot_count ∷ [])
                                            ++ ((replay_firststartblock ∷ u32_le 1)
                                                ++ ((replay_secondstartblock ∷ u32_le 1)
                                                    ++ (r.loading_blocks
                                                        ++ ((replay_thirdstartblock ∷ u32_le 1)
                                                            ++ r.compiled_blocks))))))))))))))
