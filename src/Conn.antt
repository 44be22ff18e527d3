-- ===== src/Conn.antt =====
-- duckcall.go: Dial, Conn and Query, with codec.For of codec/codec.go and codec/versions.go.
pub mod Dial
pub mod Laws
pub mod Tests
