-- ===== src/Handshake/Frames.antt =====
-- How the loop of firmware/src/main.rs and that of host/src/main.rs receive one whole frame.
use servatory.Prelude.{
  ℕ, ◌≡◌, refl, ap, subst, ◌∙◌, ◌≢◌, inl, inr, Bool, true, false, Option, none, some, List, [], ◌∷◌,
  ◌++◌, map, append-nil, append_assoc, arith, ◌==◌, if◌then◌else◌, ==_iff, Bool-cases, bind, All,
}
use servatory.Prelude.Time.{Instant}
use servatory.Protocol.Health.{SoftwareVersion}
use servatory.Protocol.Message.{HostMessage, DeviceMessage}
use servatory.Protocol.Frame.{Codec, max_host_frame_len, max_device_frame_len}
use servatory.Protocol.Decoder.{FrameDecoder, Event, push}
use servatory.Protocol.Decoder.Spec.{judge, event_at, after}
use servatory.Protocol.Decoder.Refine.{Tracks, push-Steps}
use servatory.Firmware.Session.{Stick}
use servatory.Firmware.Session.Loop as StickLoop
use servatory.Firmware.Session.Loop.{receive_byte, deliver}
use servatory.Host.Shutdown.{World, Env}
use servatory.Host.Config.{Config}
use servatory.Host.Config.Health.{Floats}
use servatory.Host.Daemon.{Daemon, ReadByte, then_do}
use servatory.Host.Daemon.Loop.{on_event, receive}
use servatory.Host.Daemon.Loop as DaemonLoop

-- A byte that is not a delimiter is gathered.
gathers :
    (n : ℕ) (d : FrameDecoder) (p : List ℕ) (b : ℕ)
    → b ≢ 0
    → Tracks n d p
    → (d' : FrameDecoder) × (push n d b ≡ some (d', none)) × Tracks n d' (p ++ b ∷ [])
gathers n d p b h r = elim (Bool-cases (b == 0)) [
  | inl z ↦ absurd (h ((==_iff b 0).0 z))
  | inr z ↦
      let (d', e, r') = push-Steps n d p b r in
      let silent : event_at n p b ≡ none = rw z refl in
      let kept : after n p b ≡ p ++ b ∷ [] = rw z refl in
      (d', e ∙ ap (λ event. some (d', event)) silent, subst (Tracks n d') kept r')
]

-- A delimiter has the piece judged.
judges :
    (n : ℕ) (d : FrameDecoder) (p : List ℕ)
    → Tracks n d p
    → (d' : FrameDecoder) × (push n d 0 ≡ some (d', some (judge n p))) × Tracks n d' []
judges n d p r = push-Steps n d p 0 r

module _ (c : Codec HostMessage) (version : SoftwareVersion) (now : Instant) where
  -- The stick reads the bytes before a delimiter, then the delimiter.
  pub stick_frame :
      (bs : List (ℕ × Instant)) (clock : Instant) (s : Stick) (p : List ℕ)
      → All (λ (b : ℕ × Instant). b.0 ≢ 0) bs
      → Tracks max_host_frame_len s.decoder p
      → (d : FrameDecoder) × (StickLoop.receive_all c version now s (bs ++ (0, clock) ∷ [])
          ≡ some (
              deliver c version now clock
                (some (judge max_host_frame_len (p ++ map (λ (b : ℕ × Instant). b.0) bs)))
                (record s { decoder = d })))
        × Tracks max_host_frame_len d []
  unfolding StickLoop.receive_all receive_byte deliver
  stick_frame [] clock s p h r =
      let (d, e, r') = judges max_host_frame_len s.decoder p r in (d, rw (e, append-nil p) refl, r')
  stick_frame ((b, at) ∷ bs) clock s p h r =
      let (d, e, r') = gathers max_host_frame_len s.decoder p b h.0 r in
      let (d', e', r'') = stick_frame bs clock (record s { decoder = d }) (p ++ b ∷ []) h.1 r' in
      (
        d',
        rw e (
            e'
            ∙ ap
                (λ q. some (
                  deliver c version now clock (some (judge max_host_frame_len q))
                    (record s { decoder = d' })))
                (append_assoc p (b ∷ []) (map (λ (b : ℕ × Instant). b.0) bs))),
        r'',
      )

module _ (env : Env) (cd : Codec DeviceMessage) (fl : Floats) (c : Config)
    (version : SoftwareVersion) where
  if_holds : {A : Type 0} (t : Bool) (x y : A) → t ≡ true → (if t then x else y) ≡ x
  if_holds true x y h = refl
  if_holds false x y h = absurd (ground arith)

  -- What follows a byte, once the input is synchronized.
  receive_all-byte :
      (b : ReadByte) (bs : List ReadByte) (d : Daemon) (w : World) (decoder : FrameDecoder)
      (event : Option Event)
      → d.input_synchronized ≡ true
      → push max_device_frame_len d.decoder b.byte ≡ some (decoder, event)
      → DaemonLoop.receive_all env cd fl c version (b ∷ bs) d w
        ≡ then_do
            (on_event env cd fl c version b event (record d { decoder = decoder }) w)
            (DaemonLoop.receive_all env cd fl c version bs)
  unfolding DaemonLoop.receive_all receive
  receive_all-byte b bs d w decoder event on e =
      ap (λ o. bind o (λ step. then_do step (DaemonLoop.receive_all env cd fl c version bs)))
        (if_holds d.input_synchronized _ _ on
          ∙ ap
              (λ o. bind o (λ (decoder, event).
                some (on_event env cd fl c version b event (record d { decoder = decoder }) w)))
              e)

  -- The daemon reads the bytes before a delimiter, then the delimiter.
  pub daemon_frame :
      (bs : List ReadByte) (last : ReadByte) (d : Daemon) (w : World) (p : List ℕ)
      → All (λ (b : ReadByte). b.byte ≢ 0) bs
      → last.byte ≡ 0
      → d.input_synchronized ≡ true
      → Tracks max_device_frame_len d.decoder p
      → (decoder : FrameDecoder) × (DaemonLoop.receive_all env cd fl c version (bs ++ last ∷ []) d w
          ≡ then_do
              (on_event env cd fl c version last
                (some (judge max_device_frame_len (p ++ map (λ (b : ReadByte). b.byte) bs)))
                (record d { decoder = decoder })
                w)
              (DaemonLoop.receive_all env cd fl c version []))
        × Tracks max_device_frame_len decoder []
  unfolding on_event then_do
  daemon_frame [] last d w p h z on r =
      let (decoder, e, r') = judges max_device_frame_len d.decoder p r in
      let pushed = ap (push max_device_frame_len d.decoder) z ∙ e in
      (decoder, receive_all-byte last [] d w _ _ on pushed ∙ rw (append-nil p) refl, r')
  daemon_frame (b ∷ bs) last d w p h z on r =
      let (decoder, e, r') = gathers max_device_frame_len d.decoder p b.byte h.0 r in
      let (decoder', e', r'') =
        daemon_frame bs last (record d { decoder = decoder }) w (p ++ b.byte ∷ []) h.1 z on r' in
      (
        decoder',
        receive_all-byte b (bs ++ last ∷ []) d w _ _ on e
            ∙ e'
            ∙ rw (append_assoc p (b.byte ∷ []) (map (λ (b : ReadByte). b.byte) bs)) refl,
        r'',
      )
