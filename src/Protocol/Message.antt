-- ===== src/Protocol/Message.antt =====
-- protocol/src/lib.rs: the messages in each direction, and what can go wrong with a frame.
use servatory.Prelude.{ℕ, Option}
use servatory.Protocol.Health.{SoftwareVersion}
use servatory.Protocol.Display.{DisplayConfig}
use servatory.Protocol.Network.{NetworkConfig}
use servatory.Protocol.Snapshot.{HealthSnapshot}

-- The nonce of a session, a `u64`.
pub record HandshakeNonce : Type 0 where
  pub value : ℕ

pub data ShutdownPhase : Type 0 where
  preparing_guests stopping_guests guests_stopped powering_off : ShutdownPhase

pub data ShutdownFailure : Type 0 where
  host_poweroff : ShutdownFailure

pub data HostMessage : Type 0 where
  shutdown_accepted : HostMessage
  health_snapshot : HealthSnapshot → HostMessage
  shutdown_progress : (phase : ShutdownPhase) (guests_total guests_remaining : ℕ) → HostMessage
  shutdown_failed : (reason : ShutdownFailure) (guests_remaining : ℕ) → HostMessage
  display_config : DisplayConfig → HostMessage
  hello : (daemon_version : SoftwareVersion) (session : HandshakeNonce) → HostMessage
  network_config : NetworkConfig → HostMessage

pub data DeviceMessage : Type 0 where
  shutdown_requested : DeviceMessage
  hello :
      (firmware_version : SoftwareVersion) (acknowledged_session : Option HandshakeNonce)
      → DeviceMessage

pub data ProtocolError : Type 0 where
  empty_frame frame_too_long serialize deserialize : ProtocolError
  unsupported_version : (received : ℕ) → ProtocolError
