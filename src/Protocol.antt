-- ===== src/Protocol.antt =====
-- protocol/src: the types of ACP and A2A, JSON values, and the SDK's shape of messages.
pub mod Json
pub mod A2a
pub mod Acp
pub mod Handshake
pub mod SdkCompat
