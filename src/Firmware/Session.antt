-- ===== src/Firmware/Session.antt =====
-- firmware/src/main.rs: the state of the main loop, and what it does with one message from the host.
pub mod Press
pub mod Loop
pub mod Boot
pub mod Pages
pub mod Shutdown
pub mod Gate
pub mod Greeting
pub mod Total
pub mod Coherent
use servatory.Prelude.{
  ℕ, ◌%◌, max, Bool, true, false, Option, none, some, if◌then◌else◌, is_some, Result, ok, err,
  length,
}
use servatory.Prelude.Time.{Instant}
use servatory.Protocol.Health.{SoftwareVersion}
use servatory.Protocol.Display.{DisplayConfig}
use servatory.Protocol.Snapshot.{HealthSnapshot}
use servatory.Protocol.Message.{
  HandshakeNonce, HostMessage, ShutdownPhase, preparing_guests, stopping_guests, ShutdownFailure,
  ProtocolError, shutdown_accepted, health_snapshot, shutdown_progress, shutdown_failed,
  display_config, network_config, unsupported_version,
}
use servatory.Protocol.Decoder.{FrameDecoder}
use servatory.Firmware.Button.{Button}
use servatory.Firmware.UsbTx.{UsbTx, enqueue, device_hello}
use servatory.Firmware.Network.{
  Net, update_daemon_version, update_snapshot, update_filesystem_labels, update_manifest,
}

pub data DaemonState : Type 0 where
  waiting connected stale incompatible powering_off : DaemonState

pub data ShutdownDisplay : Type 0 where
  accepted : ShutdownDisplay
  guests : (total remaining : ℕ) → ShutdownDisplay
  guests_stopped : ShutdownDisplay
  host_poweroff : (spinner remaining : ℕ) → ShutdownDisplay
  reporting_lost : (remaining : ℕ) → ShutdownDisplay
  connection_lost : (remaining : ℕ) → ShutdownDisplay
  failed : (reason : ShutdownFailure) (remaining : ℕ) → ShutdownDisplay

abbrev pub is_connected : DaemonState → Bool
is_connected connected = true
is_connected _ = false

abbrev pub is_powering_off : DaemonState → Bool
is_powering_off powering_off = true
is_powering_off _ = false

abbrev pub is_waiting : DaemonState → Bool
is_waiting waiting = true
is_waiting _ = false

-- The variables of `main`, and `net` for the statics of the network module.
pub record Stick : Type 0 where
  pub decoder : FrameDecoder
  pub usb_tx : UsbTx
  pub button : Button
  pub daemon : DaemonState
  pub usb_connected : Bool
  pub last_usb_activity : Option Instant
  pub last_update : Option Instant
  pub snapshot : Option HealthSnapshot
  pub page : ℕ
  pub config : DisplayConfig
  pub animation_active : Bool
  pub animation_height : ℕ
  pub display : ShutdownDisplay
  pub last_spinner : Instant
  pub usb_lost_since : Option Instant
  pub last_hello : Option Instant
  pub last_short_click : Option Instant
  pub session : Option HandshakeNonce
  pub show_about : Bool
  pub render_pending : Bool
  pub net : Net

-- `display_config.pages().len().max(1)`
abbrev pub page_count : DisplayConfig → ℕ
page_count c = max (length c.pages) 1

-- The display of a phase of the shutdown.
abbrev pub phase_display : ShutdownPhase → ℕ → ℕ → ShutdownDisplay
phase_display preparing_guests total remaining = accepted
phase_display stopping_guests total remaining = guests total remaining
phase_display ShutdownPhase.guests_stopped total remaining = guests_stopped
phase_display ShutdownPhase.powering_off total remaining = host_poweroff 0 remaining

abbrev spinner_start : ShutdownPhase → Instant → Instant → Instant
spinner_start ShutdownPhase.powering_off now old = now
spinner_start _ now old = old

module _ (version : SoftwareVersion) (now clock : Instant) where
  on_hello : SoftwareVersion → HandshakeNonce → Stick → Stick
  on_hello daemon_version nonce s = record s {
    daemon = waiting;
    last_update = none;
    session = some nonce;
    net = update_daemon_version daemon_version s.net;
    config = record (s.config) { daemon_version = daemon_version };
    usb_tx = enqueue s.usb_tx (device_hello version (some nonce));
    render_pending = true;
  }

  -- A message of an established session.
  on_session : HostMessage → Stick → Stick
  unfolding on_hello
  on_session (health_snapshot h) s = record s {
    last_update = some now;
    net = update_snapshot clock h s.net;
    snapshot = some h;
    daemon = connected;
    render_pending = true;
  }
  on_session shutdown_accepted s = record s {
    last_update = some now;
    usb_lost_since = none;
    daemon = powering_off;
    display = accepted;
    render_pending = true;
  }
  on_session (shutdown_progress phase total remaining) s = record s {
    last_update = some now;
    usb_lost_since = none;
    daemon = powering_off;
    display = phase_display phase total remaining;
    last_spinner = spinner_start phase now s.last_spinner;
    render_pending = true;
  }
  on_session (shutdown_failed reason remaining) s = record s {
    daemon = powering_off;
    display = failed reason remaining;
    render_pending = true;
  }
  on_session (display_config c) s = record s {
    net = update_filesystem_labels c.filesystem_labels s.net;
    config = c;
    page = s.page % page_count c;
    render_pending = true;
  }
  on_session (network_config c) s = record s { net = update_manifest c s.net }
  on_session (HostMessage.hello v nonce) s = on_hello v nonce s

  on_message : HostMessage → Stick → Stick
  unfolding on_session
  on_message (HostMessage.hello v nonce) s = on_hello v nonce s
  on_message m s = if is_some s.session then on_session m s else s

  on_error : ProtocolError → Stick → Stick
  on_error (unsupported_version received) s = record s {
    daemon = incompatible;
    render_pending = true;
  }
  on_error e s = s

  -- The `match decode_host(frame)` of the loop.
  unfoldable pub handle : Result HostMessage ProtocolError → Stick → Stick
  unfolding on_message on_error
  handle (ok m) s = on_message m s
  handle (err e) s = on_error e s
