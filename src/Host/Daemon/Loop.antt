-- ===== src/Host/Daemon/Loop.antt =====
-- host/src/main.rs: the parts of a turn of the daemon's loop, and the loop.
use servatory.Prelude.{
  ℕ, ◌+◌, ◌-◌, Bool, true, false, not, ◌&&◌, Option, none, some, List, [], ◌∷◌, leb, ◌==◌,
  if◌then◌else◌, Result, ok, err, and_then, bind, length,
}
use servatory.Prelude.Time.{Instant, secs}
use servatory.Protocol.Health.{SoftwareVersion, HealthReport}
use servatory.Protocol.Display.{DisplayConfig}
use servatory.Protocol.Network.{NetworkConfig}
use servatory.Protocol.Snapshot.{HealthSnapshot, set_incidents}
use servatory.Protocol.Equality.{same, DisplayConfig-discrete, NetworkConfig-discrete}
use servatory.Protocol.Message.{
  HostMessage, DeviceMessage, HandshakeNonce, ProtocolError, shutdown_requested, health_snapshot,
}
use servatory.Protocol.Frame.{Codec, decode_device, max_device_frame_len}
use servatory.Protocol.Decoder.{Event, new_decoder, push}
use servatory.Host.Shutdown.{World, Outcome, Env, io, write_host_message, handle}
use servatory.Host.Config.{Config, ConfigError}
use servatory.Host.Config.Health.{Floats}
use servatory.Host.Config.Evaluate.{evaluate_health}
use servatory.Host.Config.Pages
use servatory.Host.Config.Pages.{div_ceil}
use servatory.Host.Daemon.{
  Daemon, Read, ReadByte, Step, Turn, guest_page_count, log_health_status_change, new_daemon,
  on_error, on_hello, open_port, then_do, written, bytes, goes_on, lost, stops, refuses, timed_out,
  broken,
}

module _ (env : Env) (cd : Codec DeviceMessage) (fl : Floats) (c : Config)
    (version : SoftwareVersion) where
  unfoldable pub say_hello : Turn → Daemon → World → Step
  say_hello t d w =
      if not d.handshake_established && leb d.next_hello t.hello_check
      then written (write_host_message env (HostMessage.hello version d.handshake_nonce) w) d
          (λ w'. (w', goes_on (record d { next_hello = t.hello_sent + secs 1 })))
      else (w, goes_on d)

  -- The handshake's time is reported once.
  abbrev pub watch_handshake : Turn → Daemon → Daemon
  watch_handshake t d = record d {
    handshake_timeout_logged =
        if not d.handshake_established
          && not d.handshake_timeout_logged
          && leb (secs 5) (t.timeout_check - d.handshake_started)
        then true
        else d.handshake_timeout_logged;
  }

  unfoldable pub watch_after : Turn → Step → Step
  watch_after t (w, goes_on d) = (w, goes_on (watch_handshake t d))
  watch_after t (w, lost d e) = (w, lost (watch_handshake t d) e)
  watch_after t (w, stops d) = (w, stops (watch_handshake t d))
  watch_after t (w, refuses d e) = (w, refuses (watch_handshake t d) e)

  unfoldable pub send_manifests : Daemon → World → Step
  send_manifests d w =
      if d.handshake_established && d.manifest_pending
      then written (write_host_message env (HostMessage.display_config d.display_config) w) d (λ w'.
        written (write_host_message env (HostMessage.network_config d.network_config) w') d
          (λ w''. (w'', goes_on (record d { manifest_pending = false }))))
      else (w, goes_on d)

  -- The manifests for other pages, each sent if it differs from the one before.
  unfoldable pub send_display : DisplayConfig → Daemon → World → Step
  send_display next d w =
      if same DisplayConfig-discrete next d.display_config
      then (w, goes_on d)
      else written (write_host_message env (HostMessage.display_config next) w) d
          (λ w'. (w', goes_on (record d { display_config = next })))

  unfoldable pub send_network : NetworkConfig → Daemon → World → Step
  send_network next d w =
      if same NetworkConfig-discrete next d.network_config
      then (w, goes_on d)
      else written (write_host_message env (HostMessage.network_config next) w) d
          (λ w'. (w', goes_on (record d { network_config = next })))

  -- The part of the update that the number of guests asks for.
  unfoldable pub refresh_pages : (guest_count : ℕ) → Daemon → World → Option Step
  unfolding send_display send_network
  refresh_pages guest_count d w =
      if guest_page_count guest_count == d.configured_guest_pages
      then some (w, goes_on d)
      else elim (Pages.display_config c version guest_count) [
        | err e ↦ some (w, refuses d e)
        | ok display ↦ elim (Pages.network_config c guest_count) [
          | err e ↦ some (w, refuses d e)
          | ok network ↦ then_do (send_display display d w) λ d1 w1.
              then_do (send_network network d1 w1) λ d2 w2.
                some (
                  w2,
                  goes_on (record d2 { configured_guest_pages = guest_page_count guest_count }),
                )
        ]
      ]

  -- The report is kept, and the snapshot sent if the line still stands.
  unfoldable pub report_health : Turn → HealthReport → HealthSnapshot → Step → Step
  report_health t status snapshot (w, goes_on d) =
      let d' = record d {
        last_health_status = log_health_status_change d.last_health_status status;
      } in
      written (write_host_message env (health_snapshot snapshot) w) d'
        (λ w'. (w', goes_on (record d' { next_update = t.update_sent + c.update_interval })))
  report_health t status snapshot (w, lost d e) = (
    w,
    lost (record d { last_health_status = log_health_status_change d.last_health_status status }) e,
  )
  report_health t status snapshot (w, stops d) = (w, stops d)
  report_health t status snapshot (w, refuses d e) = (w, refuses d e)

  unfoldable pub update_health : Turn → Daemon → World → Option Step
  update_health t d w =
      if d.handshake_established && leb d.next_update t.update_check
      then elim t.health [
        | none ↦ some (w, goes_on d)
        | some snapshot ↦ bind (refresh_pages (length snapshot.guests.guests) d w) λ step.
            bind (evaluate_health fl c snapshot) λ (status, incidents).
              some (report_health t status (set_incidents status incidents snapshot) step)
      ]
      else some (w, goes_on d)

  -- What the answer of the handler makes of the turn.
  abbrev pub handled : Daemon → Outcome Bool → Step
  handled d (w, ok true) = (w, stops d)
  handled d (w, ok false) = (w, goes_on d)
  handled d (w, err e) = (w, lost d e)

  -- A message from the stick.
  unfoldable pub on_message : ReadByte → DeviceMessage → Daemon → World → Step
  unfolding on_hello
  on_message b (DeviceMessage.hello firmware ack) d w = (w, goes_on (on_hello ack b d))
  on_message b shutdown_requested d w =
      if d.handshake_established
      then handled d (handle env c.shutdown.enabled shutdown_requested w)
      else (w, goes_on d)

  unfoldable pub on_frame : ReadByte → Result DeviceMessage ProtocolError → Daemon → World → Step
  unfolding on_message on_error
  on_frame b (ok m) d w = on_message b m d w
  on_frame b (err e) d w = (w, goes_on (on_error e d))

  unfoldable pub on_event : ReadByte → Option Event → Daemon → World → Step
  unfolding on_frame
  on_event b none d w = (w, goes_on d)
  on_event b (some event) d w = on_frame b (and_then event (decode_device cd)) d w

  -- One byte. Before the first delimiter nothing is decoded.
  unfoldable pub receive : ReadByte → Daemon → World → Option Step
  unfolding on_event
  receive b d w =
      if d.input_synchronized
      then bind (push max_device_frame_len d.decoder b.byte)
          (λ (decoder, event). some (on_event b event (record d { decoder = decoder }) w))
      else if b.byte == 0
      then some (
        w,
        goes_on
            (record d { input_synchronized = true; decoder = new_decoder max_device_frame_len }),
      )
      else some (w, goes_on d)

  unfoldable pub receive_all : List ReadByte → Daemon → World → Option Step
  receive_all [] d w = some (w, goes_on d)
  receive_all (b ∷ bs) d w = bind (receive b d w) (λ step. then_do step (receive_all bs))

  unfoldable pub read_port : Read → Daemon → World → Option Step
  unfolding receive_all
  read_port (bytes bs) d w = receive_all bs d w
  read_port timed_out d w = some (w, goes_on d)
  read_port broken d w = some (w, lost d io)

  -- The end of a turn: a lost line closes the port.
  unfoldable pub close_port : Step → Step
  close_port (w, lost d e) = (
    w,
    goes_on (record d {
      port = false;
      decoder = new_decoder max_device_frame_len;
      waiting_logged = true;
    }),
  )
  close_port step = step

  -- The turn with an open port.
  unfoldable pub serve : Turn → Daemon → World → Option Step
  unfolding watch_after close_port
  serve t d w =
      bind
        (then_do (watch_after t (say_hello t d w)) λ d1 w1.
          then_do (send_manifests d1 w1)
            λ d2 w2. bind (update_health t d2 w2) (λ step. then_do step (read_port t.read)))
        (λ step. some (close_port step))

  unfoldable pub turn : Turn → Daemon → World → Option Step
  turn t d w =
      if d.port
      then serve t d w
      else if t.opens
      then serve t (open_port t d) w
      else some (w, goes_on (record d { waiting_logged = true }))

  unfoldable pub turns : List Turn → Daemon → World → Option Step
  turns [] d w = some (w, goes_on d)
  turns (t ∷ ts) d w = bind (turn t d w) (λ step. then_do step (turns ts))

  unfoldable pub start :
      HandshakeNonce → (update hello handshake : Instant) → Result Daemon ConfigError
  start nonce update hello handshake = and_then (Pages.display_config c version 0) λ display.
      and_then (Pages.network_config c 0)
        λ network. ok (new_daemon display network nonce update hello handshake)
