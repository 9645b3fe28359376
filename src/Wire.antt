-- ===== src/Wire.antt =====
-- crates/wire/src: the types of the protocol.
pub mod Envelope
pub mod Strict
