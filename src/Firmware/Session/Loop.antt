-- ===== src/Firmware/Session/Loop.antt =====
-- firmware/src/main.rs: one round of the main loop, in the order of its parts.
use servatory.Prelude.{
  ℕ, ◌+◌, ◌-◌, ◌%◌, Bool, true, false, not, ◌&&◌, ◌||◌, Option, none, some, List, [], ◌∷◌, ltb, leb,
  if◌then◌else◌, is_some_and, is_none_or, unwrap_or, ok, err, bind,
}
use servatory.Prelude.Time.{Instant, Duration, secs, millis}
use servatory.Protocol.Health.{SoftwareVersion}
use servatory.Protocol.Frame.{Codec, decode_host, max_host_frame_len}
use servatory.Protocol.Message.{HostMessage, DeviceMessage}
use servatory.Protocol.Decoder.{Event, push}
use servatory.Firmware.UsbTx.{enqueue, device_hello, poll}
use servatory.Firmware.Session.Press.{press}
use servatory.Firmware.Session.{
  Stick, stale, is_connected, is_powering_off, is_waiting, ShutdownDisplay, accepted, guests,
  guests_stopped, host_poweroff, reporting_lost, connection_lost, failed, handle,
}

abbrev pub link_timeout : Duration
link_timeout = secs 15

abbrev pub hello_interval : Duration
hello_interval = secs 1

abbrev pub usb_activity_timeout : Duration
usb_activity_timeout = millis 250

abbrev pub spinner_interval : Duration
spinner_interval = millis 250

abbrev pub report_timeout : Duration
report_timeout = secs 3

abbrev pub usb_lost_confirm : Duration
usb_lost_confirm = secs 2

-- Without a session, the stick says hello once a second.
unfoldable pub greet : SoftwareVersion → Instant → Stick → Stick
greet version now s =
    if not (is_connected s.daemon)
      && not (is_powering_off s.daemon)
      && is_none_or s.last_hello (λ sent. leb hello_interval (now - sent))
    then record s {
      usb_tx = enqueue s.usb_tx (device_hello version s.session);
      last_hello = some now;
    }
    else s

-- `poll_usb_connection`: `sof` is the peripheral's start-of-frame bit, which the read clears.
unfoldable pub watch_activity : Instant → Bool → Stick → Stick
watch_activity now sof s = record s {
  last_usb_activity = activity;
  usb_connected = up;
  render_pending = redraw;
}
  where
    activity : Option Instant
    activity = if sof then some now else s.last_usb_activity

    up : Bool
    up = is_some_and activity (λ t. ltb (now - t) usb_activity_timeout)

    changed : Bool
    changed = if up then not s.usb_connected else s.usb_connected

    redraw : Bool
    redraw = s.render_pending || (changed && is_waiting s.daemon && not s.animation_active)

-- What the decoder makes of a byte is decoded if it is a frame. `clock` is the time that the network
-- module reads when it stores a snapshot.
unfoldable pub deliver :
    Codec HostMessage → SoftwareVersion → (now clock : Instant) → Option Event → Stick → Stick
deliver c version now clock none s = s
deliver c version now clock (some (err e)) s = s
deliver c version now clock (some (ok frame)) s = handle version now clock (decode_host c frame) s

-- One byte from the host; `none` is an index panic in the decoder.
unfoldable pub receive_byte :
    Codec HostMessage → SoftwareVersion → Instant → Stick → ℕ × Instant → Option Stick
receive_byte c version now s (byte, clock) =
    bind (push max_host_frame_len s.decoder byte)
      (λ (d, event). some (deliver c version now clock event (record s { decoder = d })))

unfoldable pub receive_all :
    Codec HostMessage → SoftwareVersion → Instant → Stick → List (ℕ × Instant) → Option Stick
receive_all c version now s [] = some s
receive_all c version now s (b ∷ bs) =
    bind (receive_byte c version now s b) (λ s'. receive_all c version now s' bs)

-- An established session without updates is stale.
unfoldable pub expire : Instant → Stick → Stick
expire now s =
    if is_connected s.daemon && is_some_and s.last_update (λ t. leb link_timeout (now - t))
    then record s { daemon = stale; session = none; render_pending = true }
    else s

-- `shutdown_remaining`
abbrev pub shutdown_remaining : ShutdownDisplay → ℕ
shutdown_remaining accepted = 0
shutdown_remaining (guests total remaining) = remaining
shutdown_remaining guests_stopped = 0
shutdown_remaining (host_poweroff spinner remaining) = remaining
shutdown_remaining (reporting_lost remaining) = remaining
shutdown_remaining (connection_lost remaining) = remaining
shutdown_remaining (failed reason remaining) = remaining

abbrev pub is_failed : ShutdownDisplay → Bool
is_failed (failed reason remaining) = true
is_failed _ = false

abbrev pub is_connection_lost : ShutdownDisplay → Bool
is_connection_lost (connection_lost remaining) = true
is_connection_lost _ = false

abbrev pub is_reporting_lost : ShutdownDisplay → Bool
is_reporting_lost (reporting_lost remaining) = true
is_reporting_lost _ = false

-- During a shutdown, a USB connection that is gone for two seconds is lost.
unfoldable pub watch_usb : Instant → Stick → Stick
watch_usb now s =
    if is_powering_off s.daemon && not (is_failed s.display) && not (is_connection_lost s.display)
    then (if s.usb_connected
        then record s { usb_lost_since = none }
        else lose (unwrap_or s.usb_lost_since now))
    else if is_powering_off s.daemon
    then s
    else record s { usb_lost_since = none }
  where
    lose : Instant → Stick
    lose since =
        if leb usb_lost_confirm (now - since)
        then record s {
          usb_lost_since = some since;
          display = connection_lost (shutdown_remaining s.display);
          render_pending = true;
        }
        else record s { usb_lost_since = some since }

-- During a shutdown, three seconds without a report are shown.
unfoldable pub watch_reports : Instant → Stick → Stick
watch_reports now s =
    if is_powering_off s.daemon
      && not (is_reporting_lost s.display)
      && not (is_connection_lost s.display)
      && not (is_failed s.display)
      && is_some_and s.last_update (λ t. leb report_timeout (now - t))
    then record s { display = reporting_lost (shutdown_remaining s.display); render_pending = true }
    else s

turn_spinner : Instant → ShutdownDisplay → Stick → Stick
turn_spinner now (host_poweroff spinner remaining) s = record s {
  display = host_poweroff ((spinner + 1) % 4) remaining;
  last_spinner = now;
  render_pending = true;
}
turn_spinner now _ s = s

unfoldable pub spin : Instant → Stick → Stick
unfolding turn_spinner
spin now s =
    if is_powering_off s.daemon && leb spinner_interval (now - s.last_spinner)
    then turn_spinner now s.display s
    else s

-- What a round reads from the outside: the time, the start-of-frame bit, the bytes from the host, the
-- button's pin, and how many bytes the endpoint takes.
pub record Input : Type 0 where
  pub now : Instant
  pub sof : Bool
  pub bytes : List (ℕ × Instant)
  pub pressed : Bool
  pub room : ℕ

pub record Output : Type 0 where
  pub sent : List ℕ
  pub rendered : Bool

-- The parts between reading and writing, which depend on nothing but time and the button.
unfoldable pub timers : Instant → Bool → Stick → Stick
unfolding expire watch_usb watch_reports spin
timers now pressed s =
    spin now (watch_reports now (watch_usb now (press now pressed (expire now s))))

-- A round; `none` is an index panic. The drawing itself is not modelled.
unfoldable pub round :
    Codec HostMessage
    → Codec DeviceMessage
    → SoftwareVersion
    → Input
    → Stick
    → Option (Stick × Output)
unfolding greet watch_activity
round ch cd version i s =
    let s0 = greet version i.now (record s { render_pending = false }) in
    let s1 = watch_activity i.now i.sof s0 in
    bind (receive_all ch version i.now s1 i.bytes) λ s2.
      let s3 = timers i.now i.pressed s2 in
      bind (poll cd s3.usb_tx i.room) λ (tx, sent). some (
        record s3 { usb_tx = tx },
        record { sent = sent; rendered = s3.render_pending && not s3.animation_active },
      )
