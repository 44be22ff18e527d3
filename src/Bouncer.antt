-- ===== src/Bouncer.antt =====
-- cmd/quackbouncer/: the pool of upstream sessions, and the proxy in front of it.
pub mod Pool
pub mod Bounds
pub mod Metrics
pub mod Proxy
pub mod Forward
pub mod Places
pub mod Handlers
pub mod Admission
pub mod Counting
pub mod ProxyTests
pub mod Tests
