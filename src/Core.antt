-- ===== src/Core.antt =====
-- The `coro::core` namespace: flags, buffers and their pool, nodes, sources, utilities.
pub mod Flags
pub mod Buffer
pub mod Pool
pub mod Node
pub mod Source
pub mod Selector
pub mod Udp
pub mod AppSink
pub mod Tcp
pub mod Fd
pub mod Base64
