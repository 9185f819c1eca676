-- ===== src/Rtsp.antt =====
-- src/rtsp: messages, the dispatch to a handler, and the server.
pub mod Headers
pub mod Message
pub mod Server
