-- ===== src/Protocol/Plaintext.antt =====
-- The plaintexts inside encrypted payloads (protocol/src/*_plaintext.rs and text_type.rs).
pub mod Request
pub mod Response
pub mod SubRequest
pub mod Login
pub mod Text
pub mod ReturnedPath
