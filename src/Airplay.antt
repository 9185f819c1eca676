-- ===== src/Airplay.antt =====
-- src/airplay: the decrypter, the handler of RTSP messages the node around the ALAC decoder, and
-- the source that chains them.
pub mod Decrypter
pub mod Handler
pub mod Alac
pub mod Source
mod Runs
