-- ===== src/Codec.antt =====
-- codec/: type trees, vectors, chunks and result bodies, decoded from the framing of Qser.
pub mod Types
pub mod Decode
pub mod TypeTree
pub mod Safety
pub mod Cells
pub mod Int128
pub mod Vectors
pub mod Ensures
pub mod Lengths
pub mod GoTypes
pub mod CellTypes
pub mod Fitting
pub mod TypedStrings
pub mod Typed
pub mod TypedTests
pub mod Text
pub mod TypeText
pub mod Naming
pub mod Exact
pub mod TextTests
pub mod Chunk
pub mod ChunkSafety
pub mod Results
pub mod Reading
pub mod WellFormed
pub mod ResultChunks
pub mod Tests
