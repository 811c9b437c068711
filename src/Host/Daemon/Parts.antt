-- ===== src/Host/Daemon/Parts.antt =====
-- host/src/main.rs: no part of a turn that leaves the configuration alone panics.
use servatory.Prelude.{
  ℕ, Bool, true, false, not, ◌&&◌, Option, none, some, List, [], ◌∷◌, leb, ◌==◌, if◌then◌else◌,
  Result, ok, err, bind,
}
use servatory.Protocol.Health.{SoftwareVersion}
use servatory.Protocol.Display.{DisplayConfig}
use servatory.Protocol.Network.{NetworkConfig}
use servatory.Protocol.Equality.{same, DisplayConfig-discrete, NetworkConfig-discrete}
use servatory.Protocol.Message.{
  HostMessage, DeviceMessage, shutdown_requested, ProtocolError, unsupported_version,
}
use servatory.Protocol.Frame.{Codec, max_device_frame_len}
use servatory.Protocol.Decoder.{Event}
use servatory.Protocol.Decoder.Refine.{Tracks, push-Steps, new-Tracks}
use servatory.Host.Shutdown.{World, Outcome, Env, handle, write_host_message}
use servatory.Host.Config.{Config}
use servatory.Host.Config.Health.{Floats}
use servatory.Host.Daemon.{
  Daemon, Step, goes_on, lost, stops, refuses, then_do, written, Turn, ReadByte, Read, acknowledges,
  on_hello, on_error,
}
use servatory.Host.Daemon.Loop.{
  on_message, on_frame, on_event, receive, receive_all, read_port, say_hello, watch_after,
  send_manifests, send_display, send_network, close_port, handled,
}

-- The decoder stands for a piece of a stream.
abbrev pub IsReady : Daemon → Type 0
IsReady d = (p : List ℕ) × Tracks max_device_frame_len d.decoder p

-- The part has not panicked, nor ended `main` with an error.
abbrev pub WorksStep : Step → Type 0
WorksStep (w, goes_on d) = IsReady d
WorksStep (w, lost d e) = IsReady d
WorksStep (w, stops d) = Unit
WorksStep (w, refuses d e) = ⊥

abbrev pub Works : Option Step → Type 0
Works none = ⊥
Works (some s) = WorksStep s

pub then_do-Works :
    (s : Step) (f : Daemon → World → Option Step)
    → WorksStep s
    → ((d : Daemon) (w : World) → IsReady d → Works (f d w))
    → Works (then_do s f)
unfolding then_do
then_do-Works (w, goes_on d) f h k = k d w h
then_do-Works (w, lost d e) f h k = h
then_do-Works (w, stops d) f h k = tt
then_do-Works (w, refuses d e) f h k = absurd h

pub bind-Works :
    (o : Option Step) (f : Step → Option Step)
    → Works o
    → ((s : Step) → WorksStep s → Works (f s))
    → Works (bind o f)
bind-Works none f h k = absurd h
bind-Works (some s) f h k = k s h

pub if-Works : (b : Bool) (x y : Option Step) → Works x → Works y → Works (if b then x else y)
if-Works true x y h k = h
if-Works false x y h k = k

pub if-WorksStep :
    (b : Bool) (x y : Step) → WorksStep x → WorksStep y → WorksStep (if b then x else y)
if-WorksStep true x y h k = h
if-WorksStep false x y h k = k

pub written-Works :
    (out : Outcome Unit) (d : Daemon) (f : World → Step)
    → IsReady d
    → ((w : World) → WorksStep (f w))
    → WorksStep (written out d f)
written-Works (w, ok u) d f h k = k w
written-Works (w, err e) d f h k = h

pub if_IsReady : (t : Bool) (x y : Daemon) → IsReady x → IsReady y → IsReady (if t then x else y)
if_IsReady true x y h k = h
if_IsReady false x y h k = k

module _ (env : Env) (cd : Codec DeviceMessage) (fl : Floats) (c : Config)
    (version : SoftwareVersion) where
  pub say_hello-Works :
      (t : Turn) (d : Daemon) (w : World)
      → IsReady d
      → WorksStep (say_hello env cd fl c version t d w)
  unfolding say_hello
  say_hello-Works t d w h =
      if-WorksStep (not d.handshake_established && leb d.next_hello t.hello_check) _ _
        (written-Works (write_host_message env (HostMessage.hello version d.handshake_nonce) w) d _
          h (λ w'. h))
        h

  pub watch_after-Works :
      (t : Turn) (s : Step) → WorksStep s → WorksStep (watch_after env cd fl c version t s)
  unfolding watch_after
  watch_after-Works t (w, goes_on d) v = v
  watch_after-Works t (w, lost d e) v = v
  watch_after-Works t (w, stops d) v = tt
  watch_after-Works t (w, refuses d e) v = v

  pub send_manifests-Works :
      (d : Daemon) (w : World) → IsReady d → WorksStep (send_manifests env cd fl c version d w)
  unfolding send_manifests
  send_manifests-Works d w h =
      if-WorksStep (d.handshake_established && d.manifest_pending) _ _
        (written-Works (write_host_message env (HostMessage.display_config d.display_config) w) d _
          h
          (λ w'.
            written-Works (write_host_message env (HostMessage.network_config d.network_config) w')
              d _ h (λ w''. h)))
        h

  pub send_display-Works :
      (next : DisplayConfig) (d : Daemon) (w : World)
      → IsReady d
      → WorksStep (send_display env cd fl c version next d w)
  unfolding send_display
  send_display-Works next d w h =
      if-WorksStep (same DisplayConfig-discrete next d.display_config) _ _ h
        (written-Works (write_host_message env (HostMessage.display_config next) w) d _ h (λ w'. h))

  pub send_network-Works :
      (next : NetworkConfig) (d : Daemon) (w : World)
      → IsReady d
      → WorksStep (send_network env cd fl c version next d w)
  unfolding send_network
  send_network-Works next d w h =
      if-WorksStep (same NetworkConfig-discrete next d.network_config) _ _ h
        (written-Works (write_host_message env (HostMessage.network_config next) w) d _ h (λ w'. h))

  pub on_message-Works :
      (b : ReadByte) (m : DeviceMessage) (d : Daemon) (w : World)
      → IsReady d
      → WorksStep (on_message env cd fl c version b m d w)
  unfolding on_message on_hello
  on_message-Works b (DeviceMessage.hello f ack) d w h =
      if_IsReady (acknowledges ack d.handshake_nonce) _ _
        (if_IsReady d.handshake_established _ _ h h) (if_IsReady d.handshake_established _ _ h h)
  on_message-Works b shutdown_requested d w h =
      if-WorksStep d.handshake_established _ _
        (handled_works (handle env c.shutdown.enabled shutdown_requested w)) h
    where
      handled_works : (out : Outcome Bool) → WorksStep (handled env cd fl c version d out)
      handled_works (w', ok true) = tt
      handled_works (w', ok false) = h
      handled_works (w', err e) = h

  pub on_frame-Works :
      (b : ReadByte) (r : Result DeviceMessage ProtocolError) (d : Daemon) (w : World)
      → IsReady d
      → WorksStep (on_frame env cd fl c version b r d w)
  unfolding on_frame on_error
  on_frame-Works b (ok m) d w h = on_message-Works b m d w h
  on_frame-Works b (err (unsupported_version r)) d w h = h
  on_frame-Works b (err ProtocolError.empty_frame) d w h = h
  on_frame-Works b (err ProtocolError.frame_too_long) d w h = h
  on_frame-Works b (err ProtocolError.serialize) d w h = h
  on_frame-Works b (err ProtocolError.deserialize) d w h = h

  pub on_event-Works :
      (b : ReadByte) (event : Option Event) (d : Daemon) (w : World)
      → IsReady d
      → WorksStep (on_event env cd fl c version b event d w)
  unfolding on_event
  on_event-Works b none d w h = h
  on_event-Works b (some event) d w h = on_frame-Works b _ d w h

  pub receive-Works :
      (b : ReadByte) (d : Daemon) (w : World)
      → IsReady d
      → Works (receive env cd fl c version b d w)
  unfolding receive
  receive-Works b d w (p, h) =
      let (decoder, e, h') = push-Steps max_device_frame_len d.decoder p b.byte h in
      if-Works d.input_synchronized _ _
        (rw e (on_event-Works b _ (record d { decoder = decoder }) w (_, h')))
        (if-Works (b.byte == 0) _ _ ([], new-Tracks max_device_frame_len) (p, h))

  pub receive_all-Works :
      (bs : List ReadByte) (d : Daemon) (w : World)
      → IsReady d
      → Works (receive_all env cd fl c version bs d w)
  unfolding receive_all
  receive_all-Works [] d w h = h
  receive_all-Works (b ∷ bs) d w h =
      bind-Works (receive env cd fl c version b d w) _ (receive-Works b d w h)
        (λ s k. then_do-Works s _ k (receive_all-Works bs))

  pub read_port-Works :
      (r : Read) (d : Daemon) (w : World) → IsReady d → Works (read_port env cd fl c version r d w)
  unfolding read_port
  read_port-Works (Read.bytes bs) d w h = receive_all-Works bs d w h
  read_port-Works Read.timed_out d w h = h
  read_port-Works Read.broken d w h = h

  pub close_port-Works : (s : Step) → WorksStep s → WorksStep (close_port env cd fl c version s)
  unfolding close_port
  close_port-Works (w, goes_on d) v = v
  close_port-Works (w, lost d e) v = ([], new-Tracks max_device_frame_len)
  close_port-Works (w, stops d) v = tt
  close_port-Works (w, refuses d e) v = v
