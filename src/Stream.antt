-- ===== src/Stream.antt =====
-- duckcall.go: the iterator that Result.Chunks returns, its fetch workers and its consumer.
pub mod Worker
pub mod System
pub mod Invariant
pub mod Account
pub mod Fair
pub mod Ending
pub mod Complete
pub mod Progress
pub mod Tests
