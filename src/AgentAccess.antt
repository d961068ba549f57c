-- ===== src/AgentAccess.antt =====
-- src-tauri/src/agent_access: grants, sessions and requests of external agents.
pub mod Errors
pub mod Schema
pub mod Token
pub mod Store
pub mod State
pub mod Authority
mod Scenarios
mod Witnesses
mod Refusals
