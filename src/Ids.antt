-- ===== src/Ids.antt =====
-- The generator of identifiers (domain/kernel/snowflake.go).
pub mod Bits
pub mod Snowflake
pub mod Order
pub mod Sequence
pub mod Increase
mod Tests
