-- ===== src/Handshake/Exchange.antt =====
-- firmware/src/main.rs and host/src/main.rs: the handshake, from the bytes of the daemon's hello to
-- the daemon that has received the acknowledgement.
use servatory.Prelude.{
  ℕ, ◌+◌, ◌≤◌, ◌<◌, ◌≡◌, refl, sym, ap, subst, ◌∙◌, ◌≢◌, true, false, Option, some, List, [], ◌∷◌,
  ◌++◌, map, append-nil, arith, ok, length, All, length-append,
}
use servatory.Prelude.Time.{Instant}
use servatory.Protocol.Health.{SoftwareVersion}
use servatory.Protocol.Message.{HostMessage, DeviceMessage, HandshakeNonce}
use servatory.Protocol.Frame.{
  Codec, IsCodec, encode, decode, encode_host, encode_device, max_host_frame_len,
  max_device_frame_len,
}
use servatory.Protocol.Frame.RoundTrip.{decode-encode, decode-ok}
use servatory.Protocol.Decoder.{Event}
use servatory.Protocol.Decoder.Spec.{judge}
use servatory.Protocol.Decoder.Stream.{judge_fits}
use servatory.Protocol.Decoder.Refine.{Tracks}
use servatory.Firmware.UsbTx.{UsbTx, enqueue, device_hello}
use servatory.Firmware.UsbTx.Stream.{IsValid, enqueue-IsValid, frames, outstanding}
use servatory.Firmware.UsbTx.Queue.{outstanding-enqueue, polls, polls_drain}
use servatory.Firmware.Session.{Stick, handle}
use servatory.Firmware.Session.Loop as StickLoop
use servatory.Firmware.Session.Loop.{deliver}
use servatory.Firmware.Session.Greeting.{handle_hello}
use servatory.Host.Shutdown.{World, Env}
use servatory.Host.Config.{Config}
use servatory.Host.Config.Health.{Floats}
use servatory.Host.Daemon.{Daemon, ReadByte, Step, goes_on, then_do, on_hello}
use servatory.Host.Daemon.Loop.{on_event, on_message, on_frame}
use servatory.Host.Daemon.Loop as DaemonLoop
use servatory.Handshake.Frames.{stick_frame, daemon_frame}

-- What was read for the bytes of a frame is what was read before the delimiter, and for it.
split_last :
    {A : Type 0} (f : A → ℕ) (xs : List A) (body : List ℕ)
    → map f xs ≡ body ++ 0 ∷ []
    → (before : List A) × (last : A) × (xs ≡ before ++ last ∷ [])
      × (map f before ≡ body)
      × (f last ≡ 0)
split_last f [] [] e = absurd (ground arith)
split_last f [] (y ∷ body) e = absurd (ground arith)
split_last f (x ∷ []) [] e = ([], x, refl, refl, ground arith)
split_last f (x ∷ z ∷ xs) [] e = absurd (ground arith)
split_last f (x ∷ xs) (y ∷ body) e =
    let rest : map f xs ≡ body ++ 0 ∷ [] = ground arith in
    let (before, last, split, same, ended) = split_last f xs body rest in
    (x ∷ before, last, ap (◌∷◌ x) split, ground (arith, same), ended)

All-map :
    {A : Type 0} (f : A → ℕ) (xs : List A) → All (λ b. b ≢ 0) (map f xs) → All (λ x. f x ≢ 0) xs
All-map f [] h = tt
All-map f (x ∷ xs) h = (h.0, All-map f xs h.1)

-- A frame is a body without zeros and a delimiter; the decoder takes the body for the frame.
frame_judged :
    {M : Type 0} (c : Codec M) (m : M) (n : ℕ) (frame : List ℕ)
    → IsCodec c
    → encode c m n ≡ ok frame
    → (body : List ℕ) × (frame ≡ body ++ 0 ∷ [])
      × All (λ b. b ≢ 0) body
      × (judge n body ≡ ok frame)
      × (decode c frame ≡ ok m)
frame_judged c m n frame laws e =
    let ((body, split, nonzero), fits, back) = decode-encode c m n laws e in
    let (payload, shape, _) = decode-ok c frame back in
    let size : length body + 1 ≡ length frame =
      omega (arith, ap length split, length-append body (0 ∷ [])) in
    let long : 3 ≤ length frame = omega (arith, ap length shape) in
    (body, split, nonzero, judge_fits n body (omega arith) (omega arith) ∙ ap ok (sym split), back)

-- What the stick makes of the hello's bytes.
stick_greets :
    (ch : Codec HostMessage) (version daemon_version : SoftwareVersion) (nonce : HandshakeNonce)
    (now : Instant) (s : Stick) (hs : List (ℕ × Instant)) (frame : List ℕ)
    → IsCodec ch
    → encode_host ch (HostMessage.hello daemon_version nonce) max_host_frame_len ≡ ok frame
    → map (λ (b : ℕ × Instant). b.0) hs ≡ frame
    → Tracks max_host_frame_len s.decoder []
    → (s' : Stick) × (StickLoop.receive_all ch version now s hs ≡ some s')
      × (s'.session ≡ some nonce)
      × (s'.usb_tx ≡ enqueue s.usb_tx (device_hello version (some nonce)))
unfolding deliver
stick_greets ch version daemon_version nonce now s hs frame laws e read r =
    let (body, split, nonzero, judged, back) = frame_judged ch _ max_host_frame_len frame laws e in
    let (before, last, parts, same, ended) =
      split_last (λ (b : ℕ × Instant). b.0) hs body (read ∙ split) in
    let ends : hs ≡ before ++ (0, last.1) ∷ [] =
      parts ∙ ap (λ b. before ++ (b, last.1) ∷ []) ended in
    let whole =
      All-map (λ (b : ℕ × Instant). b.0) before (subst (All (λ b. b ≢ 0)) (sym same) nonzero) in
    let (d, run, r') = stick_frame ch version now before last.1 s [] whole r in
    let s1 : Stick = record s { decoder = d } in
    let found =
      ap (λ p. some (deliver ch version now last.1 (some (judge max_host_frame_len p)) s1)) same
      ∙ ap (λ event. some (deliver ch version now last.1 (some event) s1)) judged
      ∙ ap (λ m. some (handle version now last.1 m s1)) back in
    (
      handle version now last.1 (ok (HostMessage.hello daemon_version nonce)) s1,
      ap (StickLoop.receive_all ch version now s) ends ∙ run ∙ found,
      (handle_hello version daemon_version now last.1 nonce s1).0,
      (handle_hello version daemon_version now last.1 nonce s1).1,
    )

acknowledged :
    (d : Daemon) (b : ReadByte)
    → d.handshake_established ≡ false
    → let d' = on_hello (some d.handshake_nonce) b d in
      (d'.handshake_established ≡ true) × (d'.manifest_pending ≡ true)
unfolding on_hello
acknowledged d b off = ground arith

daemon_hears :
    (env : Env) (cd : Codec DeviceMessage) (fl : Floats) (c : Config)
    (version firmware : SoftwareVersion) (d : Daemon) (w : World) (ds : List ReadByte)
    (frame : List ℕ)
    → IsCodec cd
    → encode_device cd (device_hello firmware (some d.handshake_nonce)) max_device_frame_len
      ≡ ok frame
    → map (λ (b : ReadByte). b.byte) ds ≡ frame
    → d.input_synchronized ≡ true
    → d.handshake_established ≡ false
    → Tracks max_device_frame_len d.decoder []
    → (d' : Daemon) × (DaemonLoop.receive_all env cd fl c version ds d w ≡ some (w, goes_on d'))
      × (d'.handshake_established ≡ true)
      × (d'.manifest_pending ≡ true)
unfolding on_event on_frame on_message then_do DaemonLoop.receive_all
daemon_hears env cd fl c version firmware d w ds frame laws e read on off r =
    let (body, split, nonzero, judged, back) =
      frame_judged cd _ max_device_frame_len frame laws e in
    let (before, last, parts, same, ended) =
      split_last (λ (b : ReadByte). b.byte) ds body (read ∙ split) in
    let whole =
      All-map (λ (b : ReadByte). b.byte) before (subst (All (λ b. b ≢ 0)) (sym same) nonzero) in
    let (decoder, run, r') = daemon_frame env cd fl c version before last d w [] whole ended on r in
    let d1 : Daemon = record d { decoder = decoder } in
    let finish : Option Event → Option Step = λ event.
      then_do (on_event env cd fl c version last event d1 w)
        (DaemonLoop.receive_all env cd fl c version []) in
    let found =
      ap (λ p. finish (some (judge max_device_frame_len p))) same
      ∙ ap (λ event. finish (some event)) judged
      ∙ ap
          (λ m.
            then_do (on_frame env cd fl c version last m d1 w)
              (DaemonLoop.receive_all env cd fl c version []))
          back in
    (
      on_hello (some d.handshake_nonce) last d1,
      ap (λ bs. DaemonLoop.receive_all env cd fl c version bs d w) parts ∙ run ∙ found,
      (acknowledged d1 last off).0,
      (acknowledged d1 last off).1,
    )

-- A message that is queued while there is nothing to send.
one_outstanding :
    (cd : Codec DeviceMessage) (tx : UsbTx) (m : DeviceMessage) (frame : List ℕ)
    → tx.queue ≡ []
    → outstanding cd tx ≡ []
    → encode_device cd m max_device_frame_len ≡ ok frame
    → outstanding cd (enqueue tx m) ≡ frame
unfolding frames
one_outstanding cd tx m frame idle sent e =
    outstanding-enqueue cd tx m (omega (arith, ap length idle))
    ∙ rw sent (ground (arith, e, append-nil frame))

one_queued : (tx : UsbTx) (m : DeviceMessage) → tx.queue ≡ [] → length (enqueue tx m).queue ≡ 1
unfolding enqueue
one_queued tx m idle = ground arith

-- One exchange of the handshake, byte by byte, with lawful codecs. The stick, with nothing to send and
-- its decoder behind a delimiter, reads the frame of the daemon's hello: it takes over the daemon's
-- nonce as its session, and in enough polls at each of which the line takes a byte it sends exactly
-- the frame of the acknowledgement. The daemon, without a handshake and its decoder behind a
-- delimiter, reads those bytes: it writes nothing, has a handshake, and will send its manifests.
pub handshake_completes :
    (ch : Codec HostMessage) (cd : Codec DeviceMessage) (env : Env) (fl : Floats) (c : Config)
    (version firmware : SoftwareVersion) (s : Stick) (d : Daemon) (w : World) (now : Instant)
    (hs : List (ℕ × Instant)) (rooms : List ℕ) (ds : List ReadByte) (hello_frame ack_frame : List ℕ)
    → IsCodec ch
    → IsCodec cd
    → IsValid s.usb_tx
    → s.usb_tx.queue ≡ []
    → outstanding cd s.usb_tx ≡ []
    → Tracks max_host_frame_len s.decoder []
    → Tracks max_device_frame_len d.decoder []
    → d.input_synchronized ≡ true
    → d.handshake_established ≡ false
    → encode_host ch (HostMessage.hello version d.handshake_nonce) max_host_frame_len
      ≡ ok hello_frame
    → encode_device cd (device_hello firmware (some d.handshake_nonce)) max_device_frame_len
      ≡ ok ack_frame
    → map (λ (b : ℕ × Instant). b.0) hs ≡ hello_frame
    → All (λ room. 0 < room) rooms
    → length ack_frame < length rooms
    → map (λ (b : ReadByte). b.byte) ds ≡ ack_frame
    → (s' : Stick) × (tx : UsbTx) × (d' : Daemon) × (StickLoop.receive_all ch firmware now s hs
        ≡ some s')
      × (s'.session ≡ some d.handshake_nonce)
      × (polls cd s'.usb_tx rooms ≡ some (tx, ack_frame))
      × (DaemonLoop.receive_all env cd fl c version ds d w ≡ some (w, goes_on d'))
      × (d'.handshake_established ≡ true)
      × (d'.manifest_pending ≡ true)
handshake_completes ch cd env fl c version firmware s d w now hs rooms ds hello_frame ack_frame
      lawful_host lawful_device valid idle sent tracks_s tracks_d on off hello ack read takes enough
      heard =
    let ack_message = device_hello firmware (some d.handshake_nonce) in
    let (s', received, session, queued) =
      stick_greets ch firmware version d.handshake_nonce now s hs hello_frame lawful_host hello read
        tracks_s in
    let waiting : outstanding cd s'.usb_tx ≡ ack_frame =
      ap (outstanding cd) queued
      ∙ one_outstanding cd s.usb_tx ack_message ack_frame idle sent ack in
    let queue : length s'.usb_tx.queue ≡ 1 =
      ap (λ tx. length tx.queue) queued ∙ one_queued s.usb_tx ack_message idle in
    let (tx, drained, empty) =
      polls_drain cd s'.usb_tx rooms lawful_device
        (subst IsValid (sym queued) (enqueue-IsValid s.usb_tx ack_message valid)) takes
        (omega (arith, ap length waiting, queue, enough)) in
    let (d', done, established, pending) =
      daemon_hears env cd fl c version firmware d w ds ack_frame lawful_device ack heard on off
        tracks_d in
    (
      s',
      tx,
      d',
      received,
      session,
      drained ∙ ap (λ bs. some (tx, bs)) waiting,
      done,
      established,
      pending,
    )
