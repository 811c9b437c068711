-- ===== src/Protocol.antt =====
-- The crate `protocol`: the messages between the daemon and the display, their framing, and the
-- decoder that finds frames in a byte stream.
pub mod Health
pub mod Display
pub mod Network
pub mod Snapshot
pub mod Equality
pub mod Message
pub mod Frame
pub mod Decoder
pub mod Examples
mod Tests
