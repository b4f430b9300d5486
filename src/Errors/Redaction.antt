-- ===== src/Errors/Redaction.antt =====
-- What the scrubbing of error text keeps and what it removes.
mod Tests
pub mod Json
pub mod Userinfo
pub mod Cuts
pub mod Withheld
pub mod Unquoted
pub mod Found
pub mod Keys
pub mod Rounds
