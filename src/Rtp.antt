-- ===== src/Rtp.antt =====
-- The `coro::rtp` namespace: packet headers and the RTP decoder node.
pub mod Header
pub mod Decoder
