-- ===== src/Predicate.antt =====
-- src/rust/src/predicate.rs: R filter expressions become Iceberg predicates.
pub mod Typing
pub mod Float
pub mod Cmp
pub mod Node
pub mod Engine
pub mod Message
pub mod Decimal
pub mod Literal
pub mod Build
pub mod Meaning
mod Tests
