-- ===== src/Firmware/Session/Boot.antt =====
-- firmware/src/main.rs: the variables at the start of `main`, and the loop as a list of rounds.
use servatory.Prelude.{◌≡◌, refl, false, Option, none, some, List, [], ◌∷◌, arith, bind}
use servatory.Prelude.Time.{Instant}
use servatory.Protocol.Health.{SoftwareVersion}
use servatory.Protocol.Display.{default_display_config}
use servatory.Protocol.Frame.{Codec, IsCodec, max_host_frame_len}
use servatory.Protocol.Message.{HostMessage, DeviceMessage}
use servatory.Protocol.Decoder.{new_decoder}
use servatory.Protocol.Decoder.Refine.{new-Tracks}
use servatory.Firmware.Button.{new_button}
use servatory.Firmware.UsbTx.{new_usb_tx, enqueue, device_hello}
use servatory.Firmware.UsbTx.Stream.{new_usb_tx-IsValid, enqueue-IsValid}
use servatory.Firmware.Network.{Net}
use servatory.Firmware.Session.{Stick, waiting, accepted}
use servatory.Firmware.Session.Loop.{Input, Output, round}
use servatory.Firmware.Session.Coherent.{IsCoherent, round-IsCoherent}
use servatory.Firmware.Session.Total.{IsSafe, round-IsSafe}

-- `net` is what `network::start` left in the statics of the network module.
unfoldable pub new_stick : SoftwareVersion → Instant → Net → Stick
new_stick version now net = record {
  decoder = new_decoder max_host_frame_len;
  usb_tx = enqueue new_usb_tx (device_hello version none);
  button = new_button now;
  daemon = waiting;
  usb_connected = false;
  last_usb_activity = none;
  last_update = none;
  snapshot = none;
  page = 0;
  config = default_display_config;
  animation_active = false;
  animation_height = 0;
  display = accepted;
  last_spinner = now;
  usb_lost_since = none;
  last_hello = none;
  last_short_click = none;
  session = none;
  show_about = false;
  render_pending = false;
  net = net;
}

new_stick-IsCoherent :
    (version : SoftwareVersion) (now : Instant) (net : Net) → IsCoherent (new_stick version now net)
unfolding new_stick
new_stick-IsCoherent version now net = ground arith

new_stick-IsSafe :
    (version : SoftwareVersion) (now : Instant) (net : Net) → IsSafe (new_stick version now net)
unfolding new_stick
new_stick-IsSafe version now net = record {
  sending = enqueue-IsValid new_usb_tx (device_hello version none) new_usb_tx-IsValid;
  receiving = ([], new-Tracks max_host_frame_len);
}

module _ (ch : Codec HostMessage) (cd : Codec DeviceMessage) (version : SoftwareVersion) where
  -- The loop over the inputs of its rounds; `none` is an index panic.
  pub rounds : Stick → List Input → Option (Stick × List Output)
  rounds s [] = some (s, [])
  rounds s (i ∷ is) =
      bind (round ch cd version i s)
        (λ (t, out). bind (rounds t is) (λ (u, outs). some (u, out ∷ outs)))

  rounds_run :
      (s : Stick) (is : List Input)
      → IsCodec cd
      → IsSafe s
      → IsCoherent s
      → (t : Stick) × (outs : List Output) × (rounds s is ≡ some (t, outs))
        × IsSafe t
        × IsCoherent t
  unfolding rounds
  rounds_run s [] laws a b = (s, [], refl, a, b)
  rounds_run s (i ∷ is) laws a b =
      let (t, out, e, a') = round-IsSafe ch cd version i s laws a in
      let b' = round-IsCoherent ch cd version i s b e in
      let (u, outs, f, a'', b'') = rounds_run t is laws a' b' in
      (u, out ∷ outs, rw (e, f), a'', b'')

  -- With a lawful codec for the stick's messages, the loop runs from power-on through any inputs of
  -- its rounds with no index out of range, and afterwards the stick is safe and coherent: the page
  -- exists, and a connected stick has a session, a snapshot and the time of its last update.
  pub boot_runs :
      (start : Instant) (net : Net) (is : List Input)
      → IsCodec cd
      → (t : Stick) × (outs : List Output) × (rounds (new_stick version start net) is
          ≡ some (t, outs))
        × IsSafe t
        × IsCoherent t
  boot_runs start net is laws =
      rounds_run _ is laws (new_stick-IsSafe version start net)
        (new_stick-IsCoherent version start net)
