-- ===== src/Lib.antt =====
-- A model of mcrs, a MeshCore repeater in Rust, with the theorems that make its protocol and its
-- forwarding correct.
--
-- The crate `protocol` reads and writes packets. A packet is a header byte, transport codes on two
-- of the four routes, a path (the hashes of the nodes on the way, or the signal samples of a trace)
-- and a payload. The crate `repeater` hears packets through a radio task, decides which to forward,
-- and keeps those that wait in a queue by time; a signature that leaves the path out tells copies
-- of one packet apart from new packets.
--
-- Which file models which part:
--   Prelude             tests on numbers, lists, bits, little-endian words, signed numbers, UTF-8
--   Protocol/Error      protocol/src/error.rs, result.rs, payload_kind.rs: errors as values
--   Protocol/Wire       protocol/src/wire.rs, constants.rs: reads at an offset
--   Protocol/Header     protocol/src/header.rs, payload_kind.rs, route_type.rs
--   Protocol/HashSize   protocol/src/hash_size.rs, trace_hash_size.rs
--   Protocol/NodePath   protocol/src/path.rs: `Path`
--   Protocol/TracePath, Protocol/TransportCodes   the files of these names
--   Protocol/Payload    protocol/src/payload.rs and, below it, one file for each payload
--   Protocol/Packet     protocol/src/packet.rs, route_path.rs
--   Protocol/Plaintext  the contents of encrypted payloads, one file for each
--   Protocol/SeenPacketCache, Protocol/Crypto     the files of these names
--   Repeater/Outbound, Repeater/Forwarding, Repeater/LoopDetection
--                       repeater/src/app/mod.rs: SortedOutboundChannel, the reservations of
--                       forwards, LoopDetection
--   Repeater/Rules      the same file, prepare_forward and the delays: which packets are sent on
--   Repeater/Repeat     the same file, apply_repeater_rules: the rules and the queue together,
--                       and what may happen while a forward waits (Waiting)
--   Repeater/AirtimeBudget, Repeater/Backoff   the same file, AirtimeBudget, cad_busy_backoff_ms
--   Repeater/Regions    repeater/src/app/regions.rs: the table, the transport codes (Scope)
--                       and the table as text (Lines)
--   Repeater/Acl        repeater/src/app/acl.rs
--   Repeater/RemoteLogins    repeater/src/app/remote.rs
--   Repeater/Neighbours repeater/src/app/neighbours.rs
--   Repeater/Discovery  repeater/src/app/discovery.rs and the pending request of mod.rs
--   Repeater/Radio, Repeater/Config    repeater/src/app/config.rs: the radio's settings and the
--                       airtime; the values of settings, checked, cut and as text
--   Repeater/Schedule   repeater/src/app/periodic/schedule.rs
--   Repeater/Battery    repeater/src/app/battery.rs
--   Tests               runs of the model, and the theorems at concrete inputs
--
-- Bytes and unsigned words are native numbers, and a predicate such as `IsByte` says what a field
-- holds. An `offset: &mut usize` is a number that a read returns; a `&mut self` is the state that
-- an operation returns. `usize` has 32 bits, as on the boards. A method that fails is a `Result`
-- with the source's error, or an `Option` where there is one error. `chunks_exact` recurses on
-- fuel, which is the length of the bytes, so that a chunk of at least one byte never runs out.
-- SHA-256, HMAC and Ed25519 are parameters, and so is each reading of the platform's clock. A
-- decision that returns early is a value of `Early`, and an operation on regions one of `Outcome`; a
-- call of two operations on regions returns its error, if any, with the table, which keeps what the
-- first operation did where the second fails. The count of a packet's symbols is computed on `i32`
-- and `u32` as words of 32 bits that wrap around, as in a build without overflow checks.
-- `decimal` recurses on fuel that is larger than the number, so it never runs out of digits.
--
-- Not modelled: hardware and network access, logs, and most text for the terminal; the record of all
-- settings and its file, of which the single values are modelled; locks and wake-up signals, since
-- one call of an operation is one step; the radio task around the queue and the budget; the
-- adverts that the repeater sends.
pub mod Prelude
pub mod Protocol
pub mod Repeater
pub mod Tests
