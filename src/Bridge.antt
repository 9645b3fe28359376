-- ===== src/Bridge.antt =====
-- crates/bridge/src: the link between the extension and the app.
pub mod Frame
pub mod Header
pub mod Parts
pub mod Chunks
pub mod Limits
