-- ===== src/Net.antt =====
-- src/net: the packet framing of every TCP connection (Codec) and its write budget (Conn).
pub mod Codec
pub mod Conn
mod Runs
