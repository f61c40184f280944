-- ===== src/Types.antt =====
-- The data model of crates/wfe-core/src/types and of the state in crates/wfe-core/src/v22/ports.rs.
pub mod Json
pub mod Equality
pub mod Errors
pub mod Actor
pub mod Wfah
pub mod Attachments
pub mod Wfd
pub mod Wfes
pub mod Host
pub mod Commit
