-- ===== src/Firmware.antt =====
-- The crate `firmware`: what runs on the display stick.
pub mod NetworkTests
pub mod Button
pub mod UsbTx
pub mod Network
pub mod Session
pub mod Notify
pub mod Store
pub mod Dashboard
pub mod HealthJson
pub mod FrameBuffer
mod Tests
mod PagesTests
