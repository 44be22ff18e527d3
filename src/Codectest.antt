-- ===== src/Codectest.antt =====
-- codec/codectest/codectest.go: the encoder of types, chunks and result bodies that tests and fake
-- servers use.
pub mod Write
pub mod CellWriter
pub mod VectorWriter
pub mod Bodies
pub mod TypeWriter
pub mod Encodes
pub mod Cells
pub mod CellKinds
pub mod DecimalCells
pub mod EnumCells
pub mod UuidCells
pub mod CellRoundTrip
pub mod Validity
pub mod FlatVectors
pub mod Rows
pub mod Scalars
pub mod FixedTypes
pub mod BitStrings
pub mod Strings
pub mod Branches
pub mod Windows
pub mod ListVectors
pub mod ListRows
pub mod ArrayVectors
pub mod StructColumns
pub mod StructVectors
pub mod VectorRoundTrip
pub mod ChunkRoundTrip
pub mod Fields
pub mod Panics
pub mod BodyRoundTrip
pub mod PrepareRoundTrip
pub mod Tests
pub mod Objects
pub mod Lists
pub mod Infos
pub mod TypeRoundTrip
