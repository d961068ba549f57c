-- ===== src/AgentAccess/Authority/Safety.antt =====
-- agent_access/authority.rs: safety over sequences of calls.
pub mod Registered
pub mod Replay
pub mod Revocation
pub mod Revoked
