-- ===== src/Write.antt =====
-- src/rust/src/write.rs: appends.
pub mod Location
pub mod Slices
pub mod Message
pub mod Align
pub mod Append
mod Tests
