-- ===== src/Proxy.antt =====
-- Lab31: a caching HTTP proxy with a pool of threads.
pub mod Cache
pub mod Memory
pub mod Pool
pub mod Request
pub mod Response
pub mod SocketQueue
pub mod Worker
mod Tests
