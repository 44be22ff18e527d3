-- ===== src/Wire.antt =====
-- wire/: the transport layer. `Messages` is the envelope and the typed bodies.
pub mod Messages
pub mod Encodings
pub mod Bodies
pub mod Unknown
mod Tests
pub mod Config
pub mod Errors
pub mod Retry
pub mod Client
pub mod Attempts
pub mod Replies
pub mod Sessions
pub mod Defaults
mod SessionTests
