-- ===== src/Tests.antt =====
-- Runs at concrete inputs: each theorem about the code is applied where its hypotheses hold.
mod Fixtures
mod ProtocolTests
mod ConvertTests
mod StoreTests
mod SessionTests
mod ConnectionTests
mod EventLogTests
mod AdmissionTests
mod AgentTests
mod TcpTests
mod GatewayTests
mod StartupTests
