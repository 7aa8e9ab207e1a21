-- ===== src/Core.antt =====
-- src/core: the data model and the packets of the game protocol (W3GS) and of GProxy++ (GPS).
pub mod GameSlot
pub mod Gps
pub mod GameProtocol
pub mod Replay
pub mod BnetProtocol
mod Runs
