-- ===== src/Control.antt =====
-- The repair protocol of the streams: what the server says (rust-server/protocol.rs) and what the
-- client reads (rust-client/protocol.rs).
pub mod Server
pub mod Client
pub mod Wire
pub mod Rounds
pub mod Timing
pub mod Inventory
mod Tests
