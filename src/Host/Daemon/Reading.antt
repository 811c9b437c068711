-- ===== src/Host/Daemon/Reading.antt =====
-- host/src/main.rs: reading the port keeps the manifests in step with the snapshots.
use servatory.Prelude.{
  ℕ, Bool, true, false, Option, none, some, List, [], ◌∷◌, ◌==◌, if◌then◌else◌, Result, ok, err,
  bind,
}
use servatory.Protocol.Health.{SoftwareVersion}
use servatory.Protocol.Message.{
  DeviceMessage, HandshakeNonce, shutdown_requested, ProtocolError, unsupported_version,
}
use servatory.Protocol.Frame.{Codec, max_device_frame_len}
use servatory.Protocol.Decoder.{FrameDecoder, Event, push}
use servatory.Host.Shutdown.{Effect, World, Outcome, Env}
use servatory.Host.Shutdown.Log.{Adds}
use servatory.Host.Shutdown.Reports.{handle-Adds}
use servatory.Host.Config.{Config}
use servatory.Host.Config.Health.{Floats}
use servatory.Host.Daemon.{
  Daemon, ReadByte, Read, acknowledges, on_hello, on_error, timed_out, broken,
}
use servatory.Host.Daemon.Loop.{
  handled, on_message, on_frame, on_event, receive, receive_all, read_port,
}
use servatory.Host.Daemon.Log.{Ends, EndsAny, then_do-Ends, bind-Ends, if-Ends, if-EndsAny}
use servatory.Host.Daemon.Manifests.{Inv, Kept-reports, Kept-pending}

module _ (c : Config) (version : SoftwareVersion) (env : Env) (cd : Codec DeviceMessage)
    (fl : Floats) where
  abbrev Keeps : Daemon → List Effect → Type 0
  Keeps = Inv c version env

  on_hello-Inv :
      (ack : Option HandshakeNonce) (b : ReadByte) (d : Daemon) (l : List Effect)
      → Keeps d l
      → Keeps (on_hello ack b d) l
  unfolding on_hello
  on_hello-Inv ack b d l v =
      if_keeps (acknowledges ack d.handshake_nonce) _ _
        (if_keeps d.handshake_established _ _ v (Kept-pending c version env v))
        (if_keeps d.handshake_established _ _ (Kept-pending c version env v) v)
    where
      if_keeps : (t : Bool) (x y : Daemon) → Keeps x l → Keeps y l → Keeps (if t then x else y) l
      if_keeps true x y h k = h
      if_keeps false x y h k = k

  handled-Inv :
      (d : Daemon) (l : List Effect) (n : ℕ) (out : Outcome Bool)
      → Keeps d l
      → Adds n l out.0.log
      → Ends Keeps Keeps (handled env cd fl c version d out)
  handled-Inv d l n (w, ok true) v x = rw x.log (Kept-reports c version env x.more x.reports v)
  handled-Inv d l n (w, ok false) v x = rw x.log (Kept-reports c version env x.more x.reports v)
  handled-Inv d l n (w, err e) v x = rw x.log (Kept-reports c version env x.more x.reports v)

  on_message-Inv :
      (b : ReadByte) (m : DeviceMessage) (d : Daemon) (w : World)
      → Keeps d w.log
      → Ends Keeps Keeps (on_message env cd fl c version b m d w)
  unfolding on_message
  on_message-Inv b (DeviceMessage.hello f ack) d w v = on_hello-Inv ack b d w.log v
  on_message-Inv b shutdown_requested d w v =
      if-Ends Keeps Keeps d.handshake_established _ _
        (handled-Inv d w.log 1 _ v (handle-Adds env c.shutdown.enabled shutdown_requested w)) v

  on_error-Inv :
      (e : ProtocolError) (d : Daemon) (l : List Effect) → Keeps d l → Keeps (on_error e d) l
  unfolding on_error
  on_error-Inv (unsupported_version r) d l v = v
  on_error-Inv ProtocolError.empty_frame d l v = v
  on_error-Inv ProtocolError.frame_too_long d l v = v
  on_error-Inv ProtocolError.serialize d l v = v
  on_error-Inv ProtocolError.deserialize d l v = v

  on_frame-Inv :
      (b : ReadByte) (r : Result DeviceMessage ProtocolError) (d : Daemon) (w : World)
      → Keeps d w.log
      → Ends Keeps Keeps (on_frame env cd fl c version b r d w)
  unfolding on_frame
  on_frame-Inv b (ok m) d w v = on_message-Inv b m d w v
  on_frame-Inv b (err e) d w v = on_error-Inv e d w.log v

  on_event-Inv :
      (b : ReadByte) (event : Option Event) (d : Daemon) (w : World)
      → Keeps d w.log
      → Ends Keeps Keeps (on_event env cd fl c version b event d w)
  unfolding on_event
  on_event-Inv b none d w v = v
  on_event-Inv b (some event) d w v = on_frame-Inv b _ d w v

  receive-Inv :
      (b : ReadByte) (d : Daemon) (w : World)
      → Keeps d w.log
      → EndsAny Keeps Keeps (receive env cd fl c version b d w)
  unfolding receive
  receive-Inv b d w v =
      if-EndsAny Keeps Keeps d.input_synchronized _ _
        (pushed (push max_device_frame_len d.decoder b.byte))
        (if-EndsAny Keeps Keeps (b.byte == 0) _ _ v v)
    where
      pushed :
          (p : Option (FrameDecoder × Option Event))
          → EndsAny Keeps Keeps (
              bind p (λ (decoder, event).
                some (on_event env cd fl c version b event (record d { decoder = decoder }) w)))
      pushed none = tt
      pushed (some (decoder, event)) = on_event-Inv b event (record d { decoder = decoder }) w v

  receive_all-Inv :
      (bs : List ReadByte) (d : Daemon) (w : World)
      → Keeps d w.log
      → EndsAny Keeps Keeps (receive_all env cd fl c version bs d w)
  unfolding receive_all
  receive_all-Inv [] d w v = v
  receive_all-Inv (b ∷ bs) d w v =
      bind-Ends Keeps Keeps Keeps Keeps (receive env cd fl c version b d w) _ (receive-Inv b d w v)
        (λ s h. then_do-Ends Keeps Keeps Keeps s _ h (receive_all-Inv bs))

  pub read_port-Inv :
      (r : Read) (d : Daemon) (w : World)
      → Keeps d w.log
      → EndsAny Keeps Keeps (read_port env cd fl c version r d w)
  unfolding read_port
  read_port-Inv (Read.bytes bs) d w v = receive_all-Inv bs d w v
  read_port-Inv timed_out d w v = v
  read_port-Inv broken d w v = v
