-- ===== src/Naming.antt =====
-- naming/: names of archived files from the facts that are cited for them.
pub mod Schema
pub mod Normalize
pub mod Proposing
pub mod Batches
mod Witnesses
