-- ===== src/Driver.antt =====
-- driver/: the database/sql adapter.
pub mod Literal
pub mod Interpolate
pub mod Lexer
pub mod Filling
pub mod Regions
pub mod Equivalence
pub mod Counts
pub mod Inert
pub mod Dsn
pub mod Order
pub mod Rows
pub mod Table
pub mod Values
pub mod RowTests
pub mod Session
pub mod Retire
pub mod SessionTests
pub mod Tests
