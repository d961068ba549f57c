-- ===== src/Profiles.antt =====
-- profiles/: classification profiles and what they make of the evidence in a file.
pub mod Schema
pub mod Taxonomy
pub mod Evidence
pub mod Proposing
pub mod Batches
mod Witnesses
