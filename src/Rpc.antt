-- ===== src/Rpc.antt =====
-- cold/net/rpc: messages on a TCP stream, and the calls that they carry.
pub mod Codec
pub mod Channel
