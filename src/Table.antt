-- ===== src/Table.antt =====
-- src/rust/src/table.rs: table handles and metadata.
pub mod Existence
pub mod Handle
pub mod Label
pub mod Listing
pub mod Snapshots
mod Tests
