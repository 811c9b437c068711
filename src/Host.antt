-- ===== src/Host.antt =====
-- host/src: the daemon of the Proxmox host.
pub mod Probe
pub mod Config
pub mod Yaml
pub mod Ups
pub mod Guests
pub mod Readers
pub mod Collect
pub mod Json
pub mod Backup
pub mod Interfaces
pub mod Daemon
pub mod Shutdown
pub mod Tests
mod CollectTests
mod ReadersTests
