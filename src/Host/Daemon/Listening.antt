-- ===== src/Host/Daemon/Listening.antt =====
-- host/src/main.rs: without an acknowledgement nothing comes of what the daemon reads.
use servatory.Prelude.{
  ◌≡◌, refl, ◌∙◌, inl, inr, Bool, true, false, Option, none, some, List, [], ◌∷◌, ◌++◌, arith, ◌==◌,
  if◌then◌else◌, Bool-cases, Option-cases, Result, ok, err, and_then, bind, All, All-split,
}
use servatory.Protocol.Health.{SoftwareVersion}
use servatory.Protocol.Message.{DeviceMessage, HandshakeNonce, shutdown_requested, ProtocolError}
use servatory.Protocol.Frame.{Codec, decode_device, max_device_frame_len}
use servatory.Protocol.Decoder.{FrameDecoder, Event, new_decoder, push}
use servatory.Host.Shutdown.{Effect, World, Env}
use servatory.Host.Config.{Config}
use servatory.Host.Config.Health.{Floats}
use servatory.Host.Daemon.{
  Daemon, Step, goes_on, lost, stops, refuses, then_do, ReadByte, acknowledges, on_hello, on_error,
}
use servatory.Host.Daemon.Loop.{on_message, on_frame, on_event, receive, receive_all}

-- Whether a message acknowledges the session.
abbrev pub is_acknowledgement : HandshakeNonce → DeviceMessage → Bool
is_acknowledgement nonce (DeviceMessage.hello firmware ack) = acknowledges ack nonce
is_acknowledgement nonce shutdown_requested = false

abbrev pub decoded_of : Result DeviceMessage ProtocolError → List DeviceMessage
decoded_of (ok m) = m ∷ []
decoded_of (err e) = []

module _ (cd : Codec DeviceMessage) where
  abbrev pub message_of : Option Event → List DeviceMessage
  message_of none = []
  message_of (some event) = decoded_of (and_then event (decode_device cd))

  -- The messages in what is read, by a decoder that waits for the first delimiter if it is not
  -- synchronised.
  unfoldable pub messages :
      FrameDecoder → (synchronized : Bool) → List ReadByte → List DeviceMessage
  messages decoder synchronized [] = []
  messages decoder true (b ∷ bs) = elim (push max_device_frame_len decoder b.byte) [
    | none ↦ []
    | some (decoder', event) ↦ message_of event ++ messages decoder' true bs
  ]
  messages decoder false (b ∷ bs) =
      let first = messages (new_decoder max_device_frame_len) true bs in
      let rest = messages decoder false bs in if b.byte == 0 then first else rest

-- No session, and nothing but what is in the log.
abbrev pub Unheard : HandshakeNonce → Daemon → List Effect → World → Type 0
Unheard nonce d l w = (d.handshake_established ≡ false) × (d.handshake_nonce ≡ nonce) × (w.log ≡ l)

-- Without an acknowledgement the log stays as it is, no handshake comes about, and the daemon
-- does not stop.
abbrev pub Waits : List Effect → Option Step → Type 0
Waits l none = Unit
Waits l (some (w, goes_on d)) = (d.handshake_established ≡ false) × (w.log ≡ l)
Waits l (some (w, lost d e)) = (d.handshake_established ≡ false) × (w.log ≡ l)
Waits l (some (w, stops d)) = ⊥
Waits l (some (w, refuses d e)) = ⊥

module _ (env : Env) (cd : Codec DeviceMessage) (fl : Floats) (c : Config)
    (version : SoftwareVersion) where
  -- Nothing happens but in the variables that are not looked at.
  record Same (d d' : Daemon) : Type 0 where
    established : d'.handshake_established ≡ false
    nonce : d'.handshake_nonce ≡ d.handshake_nonce
    decoder : d'.decoder ≡ d.decoder
    synchronized : d'.input_synchronized ≡ d.input_synchronized

  on_hello-Same :
      (ack : Option HandshakeNonce) (b : ReadByte) (d : Daemon)
      → d.handshake_established ≡ false
      → acknowledges ack d.handshake_nonce ≡ false
      → Same d (on_hello ack b d)
  unfolding on_hello
  on_hello-Same ack b d h a = ground arith

  on_error-Same :
      (e : ProtocolError) (d : Daemon) → d.handshake_established ≡ false → Same d (on_error e d)
  unfolding on_error
  on_error-Same e d h = ground arith

  on_frame-Same :
      (b : ReadByte) (r : Result DeviceMessage ProtocolError) (d : Daemon) (w : World)
      → d.handshake_established ≡ false
      → All (λ m. is_acknowledgement d.handshake_nonce m ≡ false) (decoded_of r)
      → (d' : Daemon) × (on_frame env cd fl c version b r d w ≡ (w, goes_on d')) × Same d d'
  unfolding on_frame on_message
  on_frame-Same b (ok (DeviceMessage.hello v ack)) d w h a =
      (on_hello ack b d, refl, on_hello-Same ack b d h a.0)
  on_frame-Same b (ok shutdown_requested) d w h a = (d, ground arith, ground arith)
  on_frame-Same b (err e) d w h a = (on_error e d, refl, on_error-Same e d h)

  on_event-Same :
      (b : ReadByte) (event : Option Event) (d : Daemon) (w : World)
      → d.handshake_established ≡ false
      → All (λ m. is_acknowledgement d.handshake_nonce m ≡ false) (message_of cd event)
      → (d' : Daemon) × (on_event env cd fl c version b event d w ≡ (w, goes_on d')) × Same d d'
  unfolding on_event
  on_event-Same b none d w h a = (d, refl, ground arith)
  on_event-Same b (some event) d w h a = on_frame-Same b _ d w h a

  receive-synchronized :
      (b : ReadByte) (d : Daemon) (w : World)
      → d.input_synchronized ≡ true
      → receive env cd fl c version b d w
        ≡ bind (push max_device_frame_len d.decoder b.byte) (λ (decoder, event).
          some (on_event env cd fl c version b event (record d { decoder = decoder }) w))
  unfolding receive
  receive-synchronized b d w e = simp e

  receive-unsynchronized :
      (b : ReadByte) (d : Daemon) (w : World)
      → d.input_synchronized ≡ false
      → receive env cd fl c version b d w ≡ (
          if b.byte == 0
          then some (
            w,
            goes_on (record d {
              input_synchronized = true;
              decoder = new_decoder max_device_frame_len;
            }),
          )
          else some (w, goes_on d))
  unfolding receive
  receive-unsynchronized b d w e = simp e

  pub receive_all-Waits :
      (bs : List ReadByte) (d : Daemon) (w : World) (nonce : HandshakeNonce)
      (decoder : FrameDecoder) (s : Bool)
      → d.handshake_established ≡ false
      → d.handshake_nonce ≡ nonce
      → d.decoder ≡ decoder
      → d.input_synchronized ≡ s
      → All (λ m. is_acknowledgement nonce m ≡ false) (messages cd decoder s bs)
      → Waits w.log (receive_all env cd fl c version bs d w)
  unfolding receive_all messages then_do
  receive_all-Waits [] d w nonce decoder s h hn hd hs a = (h, refl)
  receive_all-Waits (b ∷ bs) d w nonce decoder true h hn hd hs a =
      elim (Option-cases (push max_device_frame_len decoder b.byte)) [
        | inl e ↦ rw (receive-synchronized b d w hs, hd, e) tt
        | inr ((decoder', event), e) ↦
            let heard : messages cd decoder true (b ∷ bs)
                ≡ message_of cd event ++ messages cd decoder' true bs =
              rw (messages, e) in
            let (now, later) = All-split _ (message_of cd event) _ (rw heard at a) in
            let (d', f, kept) =
              on_event-Same b event (record d { decoder = decoder' }) w h (rw hn now) in
            rw (receive-synchronized b d w hs, hd, e, f)
              (receive_all-Waits bs d' w nonce decoder' true kept.established (kept.nonce ∙ hn)
                kept.decoder (kept.synchronized ∙ hs) later)
      ]
  receive_all-Waits (b ∷ bs) d w nonce decoder false h hn hd hs a =
      elim (Bool-cases (b.byte == 0)) [
        | inl z ↦
            let heard : messages cd decoder false (b ∷ bs)
                ≡ messages cd (new_decoder max_device_frame_len) true bs =
              rw (messages, z) in
            rw (receive-unsynchronized b d w hs, z)
              (receive_all-Waits bs
                (record d { input_synchronized = true; decoder = new_decoder max_device_frame_len })
                w nonce _ true h hn refl refl (rw heard at a))
        | inr z ↦
            let heard : messages cd decoder false (b ∷ bs) ≡ messages cd decoder false bs =
              rw (messages, z) in
            rw (receive-unsynchronized b d w hs, z)
              (receive_all-Waits bs d w nonce decoder false h hn hd hs (rw heard at a))
      ]
