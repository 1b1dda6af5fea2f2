-- ===== src/Protocol.antt =====
-- The protocol crate (protocol/src): packets on the wire.
pub mod Error
pub mod Wire
pub mod Header
pub mod HashSize
pub mod TransportCodes
pub mod TracePath
pub mod Packet
pub mod Plaintext
pub mod NodePath
pub mod Payload
pub mod SeenPacketCache
pub mod Crypto
