-- ===== src/Firmware/Tests.antt =====
-- firmware/src/main.rs: the theorems at concrete inputs.
use servatory.Prelude.{
  ℕ, ◌-◌, ◌≤◌, ◌<◌, ◌≡◌, refl, ◌⊎◌, Bool, true, false, none, some, List, [], ◌∷◌, ◌++◌, arith, ok,
  err, replicate,
}
use servatory.Prelude.Time.{millis, secs}
use servatory.Protocol.Health.{healthy_report}
use servatory.Protocol.Display.{default_display_config}
use servatory.Protocol.Snapshot.{HealthSnapshot, unknown, checking, ups_not_configured}
use servatory.Protocol.Message.{
  HandshakeNonce, DeviceMessage, health_snapshot, shutdown_accepted, unsupported_version,
}
use servatory.Protocol.Decoder.{new_decoder}
use servatory.Protocol.Frame.{encode}
use servatory.Protocol.Examples.{no_version, device_codec, device_laws, host_codec}
use servatory.Firmware.Button.{Button, shutdown_requested, new_button, update}
use servatory.Firmware.Button.Presses.{Sample, actions, presses, actions-le-presses}
use servatory.Firmware.Button.History.{after, after-settled, update-due_action}
use servatory.Firmware.UsbTx.{UsbTx, new_usb_tx, enqueue, poll, pop_front}
use servatory.Firmware.UsbTx.Stream.{frames, IsValid, work, Sends, poll-Sends}
use servatory.Firmware.UsbTx.Queue.{enqueue-shutdown, polls, polls_drain}
use servatory.Firmware.Network.{Net, new_shared_state}
use servatory.Firmware.Session.{
  Stick, connected, waiting, powering_off, accepted, guests, is_connected,
}
use servatory.Firmware.Session.Press.{press}
use servatory.Firmware.Session.Loop.{Input, Output, timers}
use servatory.Firmware.Session.Coherent.{IsCoherent}
use servatory.Firmware.Session.Total.{IsSafe, press-usb_tx}
use servatory.Firmware.Session.Boot.{new_stick, rounds, boot_runs}
use servatory.Firmware.Session.Gate.{Untouched, handle_all, before_hello, timers_fresh, is_fresh}
use servatory.Firmware.Session.Pages.{clicks, clicks_page}

abbrev quiet_net : Net
quiet_net = record { state = new_shared_state; manifests = none; web_server_port = none }

abbrev nonce : HandshakeNonce
nonce = record { value = 7 }

abbrev measured : HealthSnapshot
measured = record {
  health = healthy_report;
  active_incidents = [];
  uptime_seconds = 60;
  cpu_percent = 5;
  memory_used_mib = 1;
  memory_total_mib = 2;
  io_pressure_percent = 0;
  load_average_x100 = 10;
  filesystems = [];
  backup_job_status = unknown;
  last_successful_backup_age_seconds = none;
  network_up = true;
  network_mbps = 1000;
  internet_status = checking;
  last_internet_success_age_seconds = none;
  ipv4 = record { a = 10; b = 0; c = 0; d = 12 };
  guests = record { guests = [] };
  ups = ups_not_configured;
  smart = record { devices = [] };
  host_name = [];
  network_interface = [];
}

-- Held since the first millisecond.
abbrev held : Button
held = record {
  raw_pressed = true;
  raw_changed_at = 0;
  stable_pressed = true;
  pressed_at = some (millis 1);
  long_press_sent = false;
}

abbrev linked : Stick
linked = record {
  decoder = new_decoder 4;
  usb_tx = new_usb_tx;
  button = held;
  daemon = connected;
  usb_connected = true;
  last_usb_activity = some 0;
  last_update = some 0;
  snapshot = some measured;
  page = 0;
  config = default_display_config;
  animation_active = false;
  animation_height = 0;
  display = accepted;
  last_spinner = 0;
  usb_lost_since = none;
  last_hello = none;
  last_short_click = none;
  session = some nonce;
  show_about = false;
  render_pending = false;
  net = quiet_net;
}

abbrev apart : Stick
apart = record linked { daemon = waiting; session = none; snapshot = none; last_update = none }

abbrev shutting_down : Stick
shutting_down = record linked {
  daemon = powering_off;
  display = guests 5 3;
  usb_connected = false;
  usb_lost_since = some 0;
}

abbrev first_round : Input
first_round = record {
  now = millis 5;
  sof = true;
  bytes = (0, 0) ∷ (9, 0) ∷ [];
  pressed = false;
  room = 64;
}

boot_runs_example :
    (t : Stick) × (outs : List Output) × (rounds host_codec device_codec no_version
        (new_stick no_version 0 quiet_net)
        (first_round ∷ first_round ∷ [])
      ≡ some (t, outs))
    × IsSafe t
    × IsCoherent t
boot_runs_example =
    boot_runs host_codec device_codec no_version 0 quiet_net (first_round ∷ first_round ∷ [])
      device_laws

before_hello_example : Untouched apart (
    handle_all no_version 0 0
      (ok (health_snapshot measured) ∷ err (unsupported_version 9) ∷ ok shutdown_accepted ∷ [])
      apart)
before_hello_example = before_hello no_version 0 0 _ apart refl (refl, (refl, (refl, tt)))

linked-IsCoherent : IsCoherent linked
linked-IsCoherent = ground arith

timers_fresh_example :
    ((is_connected (timers (secs 20) false linked).daemon ≡ true)
      × (is_fresh (secs 20) linked ≡ true)
      × ((timers (secs 20) false linked).session ≡ some nonce))
    ⊎ ((is_connected (timers (secs 20) false linked).daemon ≡ false)
        × (is_fresh (secs 20) linked ≡ false)
        × ((timers (secs 20) false linked).session ≡ none))
timers_fresh_example = timers_fresh (secs 20) false linked linked-IsCoherent refl

press-usb_tx_example :
    (press (secs 4) true linked).usb_tx ≡ enqueue new_usb_tx DeviceMessage.shutdown_requested
unfolding update
press-usb_tx_example = press-usb_tx (secs 4) true linked

clicks_page_example : (clicks (secs 1 ∷ secs 2 ∷ secs 3 ∷ []) linked).page ≡ 0
clicks_page_example =
    clicks_page (secs 1 ∷ secs 2 ∷ secs 3 ∷ []) linked (omega arith) refl refl
      (refl, (refl, (refl, tt)))

abbrev waiting_tx : UsbTx
waiting_tx = record new_usb_tx { queue = DeviceMessage.shutdown_requested ∷ [] }

waiting_tx-IsValid : IsValid waiting_tx
waiting_tx-IsValid = omega arith

poll-Sends_example :
    Sends device_codec waiting_tx
      (poll device_codec waiting_tx 2)
      (λ tx' bs. 0 < 2 → work device_codec tx' ≤ work device_codec waiting_tx - 1)
poll-Sends_example = poll-Sends device_codec waiting_tx 2 device_laws waiting_tx-IsValid

polls_drain_example :
    (tx' : UsbTx) × (polls device_codec waiting_tx (2 ∷ 1 ∷ 1 ∷ 1 ∷ 1 ∷ 1 ∷ [])
      ≡ some (tx', 0xa5 ∷ 0x5a ∷ 10 ∷ 1 ∷ 0 ∷ []))
    × (tx'.queue ≡ [])
unfolding frames encode
polls_drain_example =
    polls_drain device_codec waiting_tx (2 ∷ 1 ∷ 1 ∷ 1 ∷ 1 ∷ 1 ∷ []) device_laws waiting_tx-IsValid
      (omega arith) (omega arith)

abbrev greetings : List DeviceMessage
greetings = replicate 8 (DeviceMessage.hello no_version none)

enqueue-shutdown_example :
    (q : List DeviceMessage) × (enqueue
        (record new_usb_tx { queue = greetings })
        DeviceMessage.shutdown_requested
      ≡ record new_usb_tx { queue = q ++ DeviceMessage.shutdown_requested ∷ [] })
    × (q ≡ pop_front greetings)
enqueue-shutdown_example = enqueue-shutdown (record new_usb_tx { queue = greetings }) (omega arith)

abbrev sample : Bool → ℕ → Sample
sample pressed ms = record { pressed = pressed; now = millis ms; long_press = secs 3 }

abbrev long_hold : List Sample
long_hold =
    sample true 10
    ∷ sample true 50
    ∷ sample true 4000
    ∷ sample true 5000
    ∷ sample false 6000
    ∷ sample false 6100
    ∷ []

actions-le-presses_example : actions (new_button 0) long_hold ≤ presses (new_button 0) long_hold
actions-le-presses_example = actions-le-presses 0 long_hold

-- A press that bounces at first, and its samples with the latest first.
abbrev bouncing : List Sample
bouncing = sample true 70 ∷ sample true 30 ∷ sample false 20 ∷ sample true 10 ∷ []

update-due_action_example :
    (update (after 0 bouncing) true (millis 3070) (secs 3)).1 ≡ some shutdown_requested
update-due_action_example = update-due_action 0 (sample true 3070) bouncing

after-settled_example : (after 0 bouncing).stable_pressed ≡ true
after-settled_example = after-settled 0 bouncing
