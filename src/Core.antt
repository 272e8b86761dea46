-- ===== src/Core.antt =====
-- core/src: the engine of the gateway.
pub mod Reply
pub mod Owner
pub mod Content
pub mod TurnState
pub mod Updates
pub mod Lease
pub mod TaskStore
pub mod Agent
pub mod Conversations
pub mod AcpAsA2a
pub mod A2aAsAcp
pub mod Supervisor
pub mod Utf8
pub mod Sse
pub mod HttpAgent
pub mod StdioAgent
