-- ===== src/Lib.antt =====
-- ghostpp-rs: a hosting bot for Warcraft III custom games. Players connect by TCP, the bot frames
-- their packets (net/codec), queues its own (net/conn), parses and builds the game's W3GS packets
-- and the GProxy++ packets (core/gameprotocol, core/gpsprotocol), logs on to Battle.net and
-- announces its games there (core/bnetprotocol), runs each hosted game in one task (game/actor)
-- and writes a replay of it (core/replay); util has the byte helpers they share.
--
-- A byte is a number of type ℕ, a byte slice a list of them, a String its UTF-8 bytes. Integers
-- are the native ℕ with the wrap-around of u8, u16 and u32 written out where the source casts or
-- can overflow. A function that mutates a buffer or a struct takes the old value and returns the
-- new one. A function that can panic returns a `Run`, whose `panic` is the end of the task that
-- calls it.
--
-- Files, and what they model (paths from the repository's root):
--   Prelude           native numbers, lists, bytes, bits, UTF-8 decoding, decimal text, words
--   Util              src/util.rs: byte arrays, C strings, stat strings, the length field, durations,
--                     truncation, the words of a command
--   Net.Codec         src/net/codec.rs: FrameCodec's decode and encode
--   Net.Codec.Stream  the calls of decode on one connection, as an inductive relation
--   Net.Conn          src/net/conn.rs: try_send, close and the write task as a step relation
--   Core.GameSlot     src/core/gameslot.rs
--   Core.Gps          src/core/gpsprotocol.rs
--   Core.GameProtocol src/core/gameprotocol.rs: constants and types; Receive, the parsers; Send, the
--                     builders
--   Core.BnetProtocol src/core/bnetprotocol.rs: the state of the login; Receive, the parsers; Send, the
--                     builders
--   Core.Replay       src/core/replay.rs: the recorder of a game; Blocks, a reader of what it records;
--                     Container, the file, in which zlib and the CRC-32 are
--                     arguments; Unpacked, a reader of the file
--   Game              src/game/actor.rs: the state of a hosted game (LobbyPlayer, GameActor)
--   Game.Hub          send_to_pid, send_all, send_to_others, send_all_slot_info
--   Game.Batches      send_all_actions and schedule_next_beat
--   Game.Gproxy       trim_gproxy_buffer
--   Game.Slots        the slot table: swaps, and the requests for a team, colour, race or handicap
--   Game.Downloads    host_pid, send_map_parts, pump_downloads
--   Game.Chat         send_all_chat, send_private_chat, relay_chat
--   Game.VirtualHost  delete_virtual_host, create_virtual_host
--   Game.Loading      handle_player_loaded, check_loading_complete
--   Game.Leave        remove_player_with_reason, set_slot_open, stop_players, check_game_over
--   Game.Lag          game_tick, the lag screen, stop_laggers, handle_drop_request
--   Game.Start        the countdown, maybe_autostart, event_game_started and its HCL encoding
--   Game.Reconnect    handle_conn_closed, handle_gps_frame, handle_gproxy_reconnect,
--                     process_pending_drops
--   Game.Desync       check_desync
--   Game.Join         handle_join
--   Game.MapSize      handle_map_size
--   Game.Frames       handle_player_frame
--   Game.Shuffle      shuffle_players
--   Game.Mutes        the commands mute, unmute, mutelist; find_player_pid, chunk_chat_lines
--   Game.Info         the commands check, from, ping; player_ping_ms
--   Game.Admin        the other admin commands, kick_player
--   Game.Commands     handle_command, handle_admin_command
--   Game.Setup        GameActor::new
--   Game.Loop         run's loop over the events of a game, handle_conn_event, the end of a game
--   Game.Members      sequences of joins and leaves
--   Game.Hub.Settled and Game.Leave.Kept say what packets and leaves do not touch; the proofs about
--   the game's other handlers rest on these two.
--   Lang              src/lang.rs: placeholder substitution
--
-- Parameters: the CRC-32 of the crc32fast crate is an argument `crc32` of the builders that use
-- it. The language catalog is an argument of `t`. A handler of the game takes from `Env` the
-- catalog, the clocks, which it reads at one instant, and the text of a number of milliseconds in
-- seconds. The answers of the database to a join and to the commands on mutes, Unicode lower case,
-- random keys and numbers, and the order in which a HashMap gives the groups of check_desync are
-- arguments. What goes to BotCore is the list `events`.
--
-- Fuel: decode consumes at least four bytes for every frame, so the calls on a buffer end by the
-- buffer's length. The loop of send_map_parts moves forward on every round, so a fuel above the
-- size of the map is never used up. check_desync has as many rounds as checksums are pending, of
-- which every round takes one from each player. A reader of client packets in a theorem takes as
-- many rounds as there are items.
--
-- The game actor handles one event at a time, so its operations are functions of its whole state.
--
-- Not modelled: when the timers of a game's loop fire, the status that it publishes and the file
-- of its replay, the sockets and the tokio runtime, the database, the configuration files, the MPQ
-- and map readers, the Battle.net client and its hashes, the console, and the C++-shaped skeletons
-- that nothing calls (core/gamebase.rs, core/gamehost.rs, core/gameplayer.rs, core/gamesocket.rs,
-- core/bnet.rs).
pub mod Prelude
pub mod Util
pub mod Net
pub mod Core
pub mod Lang
pub mod Game
