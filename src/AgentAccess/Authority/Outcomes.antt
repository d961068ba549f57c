-- ===== src/AgentAccess/Authority/Outcomes.antt =====
-- What each operation of the authority leaves behind, when it succeeds and when it fails.
pub mod Authorizing
pub mod Loading
pub mod Opening
pub mod Granting
pub mod Marking
pub mod Revoking
pub mod Verifying
pub mod Restarting
pub mod Issuing
