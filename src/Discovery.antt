-- ===== src/Discovery.antt =====
-- discovery/: from a native drop or pick of paths to the reviewed sources of a proposal.
pub mod Roots
pub mod Limiter
pub mod Proposals
pub mod DropGrants
pub mod Opening
mod Scenarios
mod Witnesses
mod DropWitnesses
