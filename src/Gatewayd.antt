-- ===== src/Gatewayd.antt =====
-- gatewayd/src: the gateway's process.
pub mod EventLog
pub mod Registry
pub mod Approvals
pub mod Relay
pub mod Resubscribe
pub mod Requests
pub mod Dispatch
pub mod Detached
pub mod Responses
pub mod Adapters
pub mod Handlers
pub mod Background
pub mod Tcp
pub mod Journal
pub mod DialectProbe
pub mod Passthrough
pub mod Config
pub mod Startup
pub mod DebugLevel
pub mod Logs
pub mod Cli
