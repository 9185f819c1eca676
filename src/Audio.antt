-- ===== src/Audio.antt =====
-- The `coro::audio` namespace: formats and capabilities, and the nodes that process audio.
pub mod Types
pub mod Caps
pub mod Alsa
pub mod Encoder
pub mod Converter
pub mod Decoder
pub mod Scream
pub mod Sbc
pub mod PortAudio
pub mod Device
pub mod Sinks
pub mod TestSource
