-- ===== src/Engine.antt =====
-- crates/engine/src: the engine that joins the store, the server and the file system.
pub mod RateLimit
pub mod Process
pub mod Effects
pub mod Processed
pub mod Settled
pub mod Final
pub mod Outbox
pub mod Decided
pub mod Platform
pub mod Dehydrate
pub mod Quiet
pub mod Erased
pub mod Pins
pub mod Run
pub mod Hydration
pub mod HandedOver
pub mod Checked
