-- ===== src/Firmware/Session/Coherent.antt =====
-- firmware/src/main.rs: what the variables of the main loop say of each other between two rounds.
use servatory.Prelude.{
  ℕ, ◌<◌, ◌≡◌, inl, inr, Bool, true, false, Option, none, some, List, [], ◌∷◌, arith, Option-cases,
  is_some, Result, ok, err,
}
use servatory.Prelude.Time.{Instant}
use servatory.Protocol.Health.{SoftwareVersion}
use servatory.Protocol.Frame.{Codec, decode_host, max_host_frame_len}
use servatory.Protocol.Message.{HostMessage, DeviceMessage, ProtocolError}
use servatory.Protocol.Decoder.{FrameDecoder, Event, push}
use servatory.Firmware.UsbTx.{poll}
use servatory.Firmware.Session.{Stick, is_connected, is_powering_off, page_count, handle}
use servatory.Firmware.Session.Press.{press}
use servatory.Firmware.Session.Loop.{
  Input, Output, timers, round, greet, watch_activity, deliver, receive_byte, receive_all, expire,
  watch_usb, watch_reports, spin,
}

-- The page exists. A connected stick has a session, a snapshot and the time of its last update, and one
-- that shows a shutdown has a session.
pub record IsCoherent (s : Stick) : Type 0 where
  pub paged : s.page < page_count s.config
  pub session : is_connected s.daemon ≡ true → is_some s.session ≡ true
  pub updated : is_connected s.daemon ≡ true → is_some s.last_update ≡ true
  pub measured : is_connected s.daemon ≡ true → is_some s.snapshot ≡ true
  pub shutdown : is_powering_off s.daemon ≡ true → is_some s.session ≡ true

-- Every message and every error keeps the state coherent.
pub handle-IsCoherent :
    (version : SoftwareVersion) (now clock : Instant) (r : Result HostMessage ProtocolError)
    (s : Stick)
    → IsCoherent s
    → IsCoherent (handle version now clock r s)
unfolding handle
handle-IsCoherent version now clock r s v = ground arith

press-IsCoherent :
    (now : Instant) (pressed : Bool) (s : Stick) → IsCoherent s → IsCoherent (press now pressed s)
unfolding press
press-IsCoherent now pressed s v = ground arith

module _ (now : Instant) (s : Stick) (v : IsCoherent s) where
  greet-IsCoherent : (version : SoftwareVersion) → IsCoherent (greet version now s)
  unfolding greet
  greet-IsCoherent version = ground arith

  watch_activity-IsCoherent : (sof : Bool) → IsCoherent (watch_activity now sof s)
  unfolding watch_activity
  watch_activity-IsCoherent sof = ground arith

  expire-IsCoherent : IsCoherent (expire now s)
  unfolding expire
  expire-IsCoherent = ground arith

  watch_usb-IsCoherent : IsCoherent (watch_usb now s)
  unfolding watch_usb
  watch_usb-IsCoherent = ground arith

  watch_reports-IsCoherent : IsCoherent (watch_reports now s)
  unfolding watch_reports
  watch_reports-IsCoherent = ground arith

  spin-IsCoherent : IsCoherent (spin now s)
  unfolding spin
  spin-IsCoherent = ground arith

timers-IsCoherent :
    (now : Instant) (pressed : Bool) (s : Stick) → IsCoherent s → IsCoherent (timers now pressed s)
unfolding timers
timers-IsCoherent now pressed s v = spin-IsCoherent now _ (
    watch_reports-IsCoherent now _
      (watch_usb-IsCoherent now _ (press-IsCoherent now pressed _ (expire-IsCoherent now s v))))

deliver-IsCoherent :
    (c : Codec HostMessage) (version : SoftwareVersion) (now clock : Instant) (event : Option Event)
    (s : Stick)
    → IsCoherent s
    → IsCoherent (deliver c version now clock event s)
unfolding deliver
deliver-IsCoherent c version now clock none s v = v
deliver-IsCoherent c version now clock (some (err e)) s v = v
deliver-IsCoherent c version now clock (some (ok frame)) s v =
    handle-IsCoherent version now clock (decode_host c frame) s v

receive_byte-IsCoherent :
    (c : Codec HostMessage) (version : SoftwareVersion) (now : Instant) (s : Stick)
    (b : ℕ × Instant) {s' : Stick}
    → IsCoherent s
    → receive_byte c version now s b ≡ some s'
    → IsCoherent s'
unfolding receive_byte
receive_byte-IsCoherent c version now s (byte, clock) {s' = s'} v e =
    elim (Option-cases (push max_host_frame_len s.decoder byte)) [
      | inl f ↦ absurd (ground (arith, f))
      | inr ((d, event), f) ↦
          let t : Stick = record s { decoder = d } in
          let same : s' ≡ deliver c version now clock event t = ground (arith, f) in
          rw same (deliver-IsCoherent c version now clock event t (with_decoder v))
    ]
  where
    with_decoder : {d : FrameDecoder} → IsCoherent s → IsCoherent (record s { decoder = d })
    with_decoder w = ground arith

receive_all-IsCoherent :
    (c : Codec HostMessage) (version : SoftwareVersion) (now : Instant) (s : Stick)
    (bs : List (ℕ × Instant)) {s' : Stick}
    → IsCoherent s
    → receive_all c version now s bs ≡ some s'
    → IsCoherent s'
unfolding receive_all
receive_all-IsCoherent c version now s [] v e = ground arith
receive_all-IsCoherent c version now s (b ∷ bs) v e =
    elim (Option-cases (receive_byte c version now s b)) [
      | inl f ↦ absurd (ground (arith, f))
      | inr (t, f) ↦
          receive_all-IsCoherent c version now t bs (receive_byte-IsCoherent c version now s b v f)
            (ground (arith, f))
    ]

-- A round keeps the state coherent.
pub round-IsCoherent :
    (ch : Codec HostMessage) (cd : Codec DeviceMessage) (version : SoftwareVersion) (i : Input)
    (s : Stick) {s' : Stick} {out : Output}
    → IsCoherent s
    → round ch cd version i s ≡ some (s', out)
    → IsCoherent s'
unfolding round
round-IsCoherent ch cd version i s {s' = s'} v e = elim (Option-cases received) [
  | inl f ↦ absurd (ground (arith, f))
  | inr (s2, f) ↦ elim (Option-cases (poll cd (timers i.now i.pressed s2).usb_tx i.room)) [
    | inl g ↦ absurd (ground (arith, f, g))
    | inr ((tx, sent), g) ↦
        let s3 = timers i.now i.pressed s2 in
        let same : s' ≡ record s3 { usb_tx = tx } = ground (arith, f, g) in
        let v3 : IsCoherent s3 =
          timers-IsCoherent i.now i.pressed s2
            (receive_all-IsCoherent ch version i.now s1 i.bytes v1 f) in
        rw same (ground (arith, v3))
  ]
]
  where
    s0 : Stick
    s0 = greet version i.now (record s { render_pending = false })

    s1 : Stick
    s1 = watch_activity i.now i.sof s0

    received : Option Stick
    received = receive_all ch version i.now s1 i.bytes

    v1 : IsCoherent s1
    v1 =
        watch_activity-IsCoherent i.now s0
          (greet-IsCoherent i.now (record s { render_pending = false }) (ground (arith, v)) version)
          i.sof
