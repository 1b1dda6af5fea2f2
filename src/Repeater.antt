-- ===== src/Repeater.antt =====
-- The repeater crate (repeater/src/app): what it does with the packets it hears and sends.
pub mod LoopDetection
pub mod Schedule
pub mod Battery
pub mod Outbound
pub mod Forwarding
pub mod Regions
pub mod Radio
pub mod Rules
pub mod Repeat
pub mod Acl
pub mod RemoteLogins
pub mod Neighbours
pub mod AirtimeBudget
pub mod Config
pub mod Discovery
pub mod Backoff
