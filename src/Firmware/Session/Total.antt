-- ===== src/Firmware/Session/Total.antt =====
-- firmware/src/main.rs: a round of the main loop never indexes out of range.
use servatory.Prelude.{
  ℕ, ◌-◌, ◌≡◌, refl, ap, ◌∙◌, Bool, true, false, not, ◌&&◌, Option, none, some, List, [], ◌∷◌,
  arith, leb, if◌then◌else◌, is_none_or, Result, ok, err,
}
use servatory.Prelude.Time.{Instant, millis}
use servatory.Protocol.Health.{SoftwareVersion}
use servatory.Protocol.Frame.{Codec, IsCodec, decode_host, max_host_frame_len}
use servatory.Protocol.Message.{HostMessage, DeviceMessage, ProtocolError}
use servatory.Protocol.Decoder.{Event}
use servatory.Protocol.Decoder.Spec.{event_at, after}
use servatory.Protocol.Decoder.Refine.{Tracks, push-Steps}
use servatory.Firmware.UsbTx.{enqueue, device_hello}
use servatory.Firmware.UsbTx.Stream.{IsValid, enqueue-IsValid, poll-Sends}
use servatory.Firmware.Session.{Stick, is_connected, is_powering_off, handle}
use servatory.Firmware.Button.{ButtonAction, next_screen, shutdown_requested, update}
use servatory.Firmware.Session.Press.{press}
use servatory.Firmware.Session.Loop.{
  hello_interval, Input, Output, timers, round, greet, watch_activity, deliver, receive_byte,
  receive_all, expire, watch_usb, watch_reports, spin,
}

-- The transmitter is valid and the decoder stands for a piece of the stream.
pub record IsSafe (s : Stick) : Type 0 where
  pub sending : IsValid s.usb_tx
  pub receiving : (p : List ℕ) × Tracks max_host_frame_len s.decoder p

-- The pieces of the code's tests that decide what is queued.
abbrev is_request : Option ButtonAction → Bool
is_request none = false
is_request (some next_screen) = false
is_request (some shutdown_requested) = true

abbrev pub requests_shutdown : Instant → Bool → Stick → Bool
requests_shutdown now pressed s =
    is_connected s.daemon
    && is_request (update s.button pressed now (millis s.config.shutdown_hold_ms)).1

abbrev is_greeting : Instant → Stick → Bool
is_greeting now s =
    not (is_connected s.daemon)
    && not (is_powering_off s.daemon)
    && is_none_or s.last_hello (λ sent. leb hello_interval (now - sent))

-- A step that leaves the decoder alone and queues one message at most.
pub data Queues (s t : Stick) : Type 0 where
  same : t.decoder ≡ s.decoder → t.usb_tx ≡ s.usb_tx → Queues s t
  one : (m : DeviceMessage) → t.decoder ≡ s.decoder → t.usb_tx ≡ enqueue s.usb_tx m → Queues s t

Queues-IsSafe : {s t : Stick} → Queues s t → IsSafe s → IsSafe t
Queues-IsSafe {s} {t} (same d q) v = record {
  sending = rw q v.sending;
  receiving = rw d v.receiving;
}
Queues-IsSafe {s} {t} (one m d q) v = record {
  sending = rw q (enqueue-IsValid s.usb_tx m v.sending);
  receiving = rw d v.receiving;
}

pub handle-Queues :
    (version : SoftwareVersion) (now clock : Instant) (r : Result HostMessage ProtocolError)
    (s : Stick)
    → Queues s (handle version now clock r s)
unfolding handle
handle-Queues version now clock (ok (HostMessage.hello v nonce)) s =
    one (device_hello version (some nonce)) refl refl
handle-Queues version now clock (ok m) s = same (ground arith) (ground arith)
handle-Queues version now clock (err e) s = same (ground arith) (ground arith)

Queues-if :
    {s t : Stick} (b : Bool) (m : DeviceMessage)
    → t.decoder ≡ s.decoder
    → t.usb_tx ≡ (if b then enqueue s.usb_tx m else s.usb_tx)
    → Queues s t
Queues-if true m d q = one m d q
Queues-if false m d q = same d q

greet-Queues :
    (version : SoftwareVersion) (now : Instant) (s : Stick) → Queues s (greet version now s)
unfolding greet
greet-Queues version now s =
    Queues-if (is_greeting now s) (device_hello version s.session) (ground arith) (ground arith)

-- The button's part of a round adds a shutdown request to the outgoing queue exactly when the
-- button asks for a shutdown and the stick is connected, and nothing otherwise.
pub press-usb_tx :
    (now : Instant) (pressed : Bool) (s : Stick)
    → (press now pressed s).usb_tx ≡ (
        if requests_shutdown now pressed s
        then enqueue s.usb_tx DeviceMessage.shutdown_requested
        else s.usb_tx)
unfolding press
press-usb_tx now pressed s = ground arith

press-Queues : (now : Instant) (pressed : Bool) (s : Stick) → Queues s (press now pressed s)
unfolding press
press-Queues now pressed s =
    Queues-if (requests_shutdown now pressed s) DeviceMessage.shutdown_requested (ground arith)
      (press-usb_tx now pressed s)

data Keeps (s t : Stick) : Type 0 where
  keeps : t.decoder ≡ s.decoder → t.usb_tx ≡ s.usb_tx → Keeps s t

Queues-Keeps : {s t u : Stick} → Queues s t → Keeps t u → Queues s u
Queues-Keeps (same d q) (keeps d' q') = same (d' ∙ d) (q' ∙ q)
Queues-Keeps (one m d q) (keeps d' q') = one m (d' ∙ d) (q' ∙ q)

Keeps-Queues : {s t u : Stick} → Keeps s t → Queues t u → Queues s u
Keeps-Queues (keeps d q) (same d' q') = same (d' ∙ d) (q' ∙ q)
Keeps-Queues (keeps d q) (one m d' q') = one m (d' ∙ d) (q' ∙ ap (λ tx. enqueue tx m) q)

module _ (now : Instant) (s : Stick) where
  watch_activity-Keeps : (sof : Bool) → Keeps s (watch_activity now sof s)
  unfolding watch_activity
  watch_activity-Keeps sof = keeps refl refl

  expire-Keeps : Keeps s (expire now s)
  unfolding expire
  expire-Keeps = keeps (ground arith) (ground arith)

  watch_usb-Keeps : Keeps s (watch_usb now s)
  unfolding watch_usb
  watch_usb-Keeps = keeps (ground arith) (ground arith)

  watch_reports-Keeps : Keeps s (watch_reports now s)
  unfolding watch_reports
  watch_reports-Keeps = keeps (ground arith) (ground arith)

  spin-Keeps : Keeps s (spin now s)
  unfolding spin
  spin-Keeps = keeps (ground arith) (ground arith)

timers-Queues : (now : Instant) (pressed : Bool) (s : Stick) → Queues s (timers now pressed s)
unfolding timers
timers-Queues now pressed s =
    let t = press now pressed (expire now s) in
    let u = watch_usb now t in
    let w = watch_reports now u in
    Queues-Keeps
      (Queues-Keeps
        (Queues-Keeps (Keeps-Queues (expire-Keeps now s) (press-Queues now pressed (expire now s)))
          (watch_usb-Keeps now t))
        (watch_reports-Keeps now u))
      (spin-Keeps now w)

module _ (c : Codec HostMessage) (version : SoftwareVersion) (now : Instant) where
  deliver-Queues :
      (clock : Instant) (event : Option Event) (s : Stick)
      → Queues s (deliver c version now clock event s)
  unfolding deliver
  deliver-Queues clock none s = same refl refl
  deliver-Queues clock (some (err e)) s = same refl refl
  deliver-Queues clock (some (ok frame)) s = handle-Queues version now clock (decode_host c frame) s

  receive_byte-IsSafe :
      (s : Stick) (b : ℕ × Instant)
      → IsSafe s
      → (s' : Stick) × (receive_byte c version now s b ≡ some s') × IsSafe s'
  unfolding receive_byte
  receive_byte-IsSafe s (byte, clock) v =
      let (p, r) = v.receiving in
      let (d, e, r') = push-Steps max_host_frame_len s.decoder p byte r in
      let t : Stick = record s { decoder = d } in
      let vt : IsSafe t = record {
        sending = v.sending;
        receiving = (after max_host_frame_len p byte, r');
      } in
      let event = event_at max_host_frame_len p byte in
      (deliver c version now clock event t, rw e, Queues-IsSafe (deliver-Queues clock event t) vt)

  receive_all-IsSafe :
      (s : Stick) (bs : List (ℕ × Instant))
      → IsSafe s
      → (s' : Stick) × (receive_all c version now s bs ≡ some s') × IsSafe s'
  unfolding receive_all
  receive_all-IsSafe s [] v = (s, refl, v)
  receive_all-IsSafe s (b ∷ bs) v =
      let (t, e, vt) = receive_byte-IsSafe s b v in
      let (u, f, vu) = receive_all-IsSafe t bs vt in (u, rw e f, vu)

-- From a safe state, a round ends in one, whatever the time, the bytes, the pin and the endpoint are:
-- no access to the decoder's array or to the frame buffer is out of range.
pub round-IsSafe :
    (ch : Codec HostMessage) (cd : Codec DeviceMessage) (version : SoftwareVersion) (i : Input)
    (s : Stick)
    → IsCodec cd
    → IsSafe s
    → (s' : Stick) × (out : Output) × (round ch cd version i s ≡ some (s', out)) × IsSafe s'
unfolding round
round-IsSafe ch cd version i s laws v =
    let s0 = greet version i.now (record s { render_pending = false }) in
    let s1 = watch_activity i.now i.sof s0 in
    let v0 : IsSafe s0 =
      Queues-IsSafe (greet-Queues version i.now (record s { render_pending = false }))
        (record { sending = v.sending; receiving = v.receiving }) in
    let v1 : IsSafe s1 =
      Queues-IsSafe (Keeps-Queues (watch_activity-Keeps i.now s0 i.sof) (same refl refl)) v0 in
    let (s2, e, v2) = receive_all-IsSafe ch version i.now s1 i.bytes v1 in
    let s3 = timers i.now i.pressed s2 in
    let v3 : IsSafe s3 = Queues-IsSafe (timers-Queues i.now i.pressed s2) v2 in
    let (tx, bs, f, split, valid, less) = poll-Sends cd s3.usb_tx i.room laws v3.sending in
    (
      record s3 { usb_tx = tx },
      record { sent = bs; rendered = s3.render_pending && not s3.animation_active },
      rw (e, f),
      record { sending = valid; receiving = v3.receiving },
    )
