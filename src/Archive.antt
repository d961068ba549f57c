-- ===== src/Archive.antt =====
-- archive/: the plan of an archive, which is confirmed once, and the transaction that carries it out.
pub mod Plans
pub mod Operations
pub mod Steps
pub mod Transaction
pub mod Commit
pub mod Journal
pub mod Recovery
pub mod Originals
pub mod Scenarios
mod Witnesses
