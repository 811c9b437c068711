-- ===== src/Handshake.antt =====
-- protocol/src/lib.rs, firmware/src/main.rs and host/src/main.rs together: what one side sends is
-- received by the other, as far as the handshake goes.
pub mod Frames
pub mod Exchange
mod Tests
