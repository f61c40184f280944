-- ===== src/Ledger.antt =====
-- The ledger (WFAH) of a workflow instance: what its rows mean, which of them still count, and
-- who owns the work.
pub mod Order
pub mod Kind
pub mod Valid
pub mod Projection
pub mod Payload
pub mod Ownership
