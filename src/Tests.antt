-- ===== src/Tests.antt =====
-- Runs of the model at concrete packets, paths and states.
pub mod Bytes
pub mod Packets
pub mod Paths
pub mod Payloads
pub mod Queues
pub mod Rules
pub mod Logins
pub mod Settings
pub mod Discovery
