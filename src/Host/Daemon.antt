-- ===== src/Host/Daemon.antt =====
-- host/src/main.rs: the loop of the daemon. One turn of the loop takes what it reads from outside, and
-- gives the daemon's variables and the log of `Host.Shutdown`. A panic is `none`. What is printed is
-- not modelled, only the variables that decide whether it is.
pub mod Loop
pub mod Log
pub mod Manifests
pub mod Opening
pub mod Reading
pub mod Updating
pub mod Turns
pub mod Listening
pub mod Gate
pub mod Parts
pub mod Works
mod Tests
use Prim.Native.Nat.{bit_xor, ◌^◌}
use servatory.Prelude.{
  ℕ, ◌+◌, ◌*◌, ◌/◌, ◌%◌, max, Bool, true, false, not, ◌||◌, Option, none, some, List, leb, ◌==◌,
  if◌then◌else◌, is_some_and, is_none_or, ok, err,
}
use servatory.Prelude.Time.{Instant}
use servatory.Prelude.Text.{text_eq}
use servatory.Prelude.Words.{u64_max}
use servatory.Protocol.Health.{HealthReport, level_eq}
use servatory.Protocol.Display.{DisplayConfig}
use servatory.Protocol.Network.{NetworkConfig}
use servatory.Protocol.Snapshot.{HealthSnapshot}
use servatory.Protocol.Message.{HandshakeNonce, ProtocolError, unsupported_version}
use servatory.Protocol.Frame.{max_device_frame_len}
use servatory.Protocol.Decoder.{FrameDecoder, new_decoder}
use servatory.Host.Shutdown.{World, Outcome, HostError}
use servatory.Host.Config.{Config, ConfigError}
use servatory.Host.Config.Pages
use servatory.Host.Config.Pages.{div_ceil}

-- The variables of `main`.
pub record Daemon : Type 0 where
  pub display_config : DisplayConfig
  pub network_config : NetworkConfig
  pub configured_guest_pages : ℕ
  pub next_update : Instant
  pub decoder : FrameDecoder
  pub last_health_status : Option HealthReport
  pub port : Bool
  pub waiting_logged : Bool
  pub manifest_pending : Bool
  pub handshake_established : Bool
  pub next_hello : Instant
  pub handshake_started : Instant
  pub handshake_timeout_logged : Bool
  pub incompatible_version : Option ℕ
  pub input_synchronized : Bool
  pub handshake_nonce : HandshakeNonce

-- A byte that was read, and the times at which a message that it completes is handled.
pub record ReadByte : Type 0 where
  pub byte : ℕ
  pub first_now : Instant
  pub second_now : Instant

pub data Read : Type 0 where
  bytes : List ReadByte → Read
  timed_out : Read
  broken : Read

-- What a turn reads from outside: whether the port opens, the nonce and the times then; the times of
-- the calls of `Instant::now`; what `take_latest_health` finds; and what the port gives.
pub record Turn : Type 0 where
  pub opens : Bool
  pub nonce : HandshakeNonce
  pub opened_update : Instant
  pub opened_hello : Instant
  pub opened_handshake : Instant
  pub hello_check : Instant
  pub hello_sent : Instant
  pub timeout_check : Instant
  pub update_check : Instant
  pub update_sent : Instant
  pub health : Option HealthSnapshot
  pub read : Read

-- `guest_page_count`
abbrev pub guest_page_count : ℕ → ℕ
guest_page_count guest_count = div_ceil (max guest_count 1) 4

-- `new_handshake_nonce`, from the nanoseconds since the epoch (0 before it) and the process.
unfoldable pub new_handshake_nonce : (nanos process : ℕ) → HandshakeNonce
new_handshake_nonce nanos process =
    let low = nanos % (u64_max + 1) in
    let high = nanos / (u64_max + 1) in
    let folded_time = bit_xor low (if leb high u64_max then high else 0) in
    record { value = bit_xor folded_time (process * 2 ^ 32) }

-- `changed_health_status`
abbrev pub changed_health_status : Option HealthReport → HealthReport → Option HealthReport
changed_health_status previous current =
    if is_none_or previous (λ (p : HealthReport).
      not (level_eq p.level current.level) || not (text_eq p.message current.message))
    then some current
    else none

-- `log_health_status_change`: the report that it keeps.
unfoldable pub log_health_status_change : Option HealthReport → HealthReport → Option HealthReport
log_health_status_change previous current = elim (changed_health_status previous current) [
  | none ↦ previous
  | some report ↦ some current
]

-- The variables before the loop.
abbrev pub new_daemon :
    DisplayConfig → NetworkConfig → HandshakeNonce → (update hello handshake : Instant) → Daemon
new_daemon display network nonce update hello handshake = record {
  display_config = display;
  network_config = network;
  configured_guest_pages = guest_page_count 0;
  next_update = update;
  decoder = new_decoder max_device_frame_len;
  last_health_status = none;
  port = false;
  waiting_logged = false;
  manifest_pending = true;
  handshake_established = false;
  next_hello = hello;
  handshake_started = handshake;
  handshake_timeout_logged = false;
  incompatible_version = none;
  input_synchronized = false;
  handshake_nonce = nonce;
}

-- The variables when the port has been opened.
abbrev pub open_port : Turn → Daemon → Daemon
open_port t d = record d {
  port = true;
  decoder = new_decoder max_device_frame_len;
  next_update = t.opened_update;
  manifest_pending = true;
  handshake_established = false;
  next_hello = t.opened_hello;
  handshake_started = t.opened_handshake;
  handshake_timeout_logged = false;
  incompatible_version = none;
  waiting_logged = false;
  input_synchronized = false;
  handshake_nonce = t.nonce;
}

-- Whether a hello acknowledges the session of this nonce.
abbrev pub acknowledges : Option HandshakeNonce → HandshakeNonce → Bool
acknowledges ack nonce = is_some_and ack (λ (n : HandshakeNonce). n.value == nonce.value)

-- A hello from the stick.
unfoldable pub on_hello : Option HandshakeNonce → ReadByte → Daemon → Daemon
on_hello ack b d =
    if acknowledges ack d.handshake_nonce
    then (if d.handshake_established then d else record d {
      handshake_established = true;
      manifest_pending = true;
      next_update = b.first_now;
    })
    else if d.handshake_established
    then record d {
      handshake_established = false;
      handshake_started = b.first_now;
      handshake_timeout_logged = false;
      next_hello = b.second_now;
    }
    else record d { next_hello = b.first_now }

-- A frame that cannot be decoded.
unfoldable pub on_error : ProtocolError → Daemon → Daemon
on_error (unsupported_version received) d = record d { incompatible_version = some received }
on_error e d = d

-- How a part of the turn ends: the loop goes on, `connection_error` is set, or `main` returns, each
-- with the variables then.
pub data Next : Type 0 where
  goes_on : Daemon → Next
  lost : Daemon → HostError → Next
  stops : Daemon → Next
  refuses : Daemon → ConfigError → Next

abbrev pub Step : Type 0
Step = World × Next

-- A part that runs if nothing has ended the turn before.
unfoldable pub then_do : Step → (Daemon → World → Option Step) → Option Step
then_do (w, goes_on d) f = f d w
then_do (w, lost d e) f = some (w, lost d e)
then_do (w, stops d) f = some (w, stops d)
then_do (w, refuses d e) f = some (w, refuses d e)

-- What follows a message that was written, or the error.
abbrev pub written : Outcome Unit → (failed : Daemon) → (World → Step) → Step
written (w, ok u) failed f = f w
written (w, err e) failed f = (w, lost failed e)
