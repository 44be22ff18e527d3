-- ===== src/Qser.antt =====
-- internal/qser/qser.go: the BinarySerializer framing that every message rides in.
--
-- `Varint` is the part of the standard library's encoding/binary that the package calls, `Reader` and
-- `Writer` its two types, and the other children say what they do.
pub mod Varint
pub mod Reader
pub mod Writer
pub mod Bytes
pub mod At
pub mod Groups
pub mod RoundTrip
pub mod Safety
pub mod Optional
pub mod Inverse
pub mod Methods
pub mod Unfinished
mod Tests
