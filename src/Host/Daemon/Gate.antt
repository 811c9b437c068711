-- ===== src/Host/Daemon/Gate.antt =====
-- host/src/main.rs: what a daemon does as long as the stick has not acknowledged its nonce.
use servatory.Prelude.{
  subst, ◌+◌, ◌≡◌, refl, ◌⊎◌, inl, inr, true, false, not, ◌&&◌, Option, none, some, List, [], ◌∷◌,
  ◌++◌, leb, Bool-cases, bind, All,
}
use servatory.Prelude.Time.{secs}
use servatory.Protocol.Health.{SoftwareVersion}
use servatory.Protocol.Message.{HostMessage, DeviceMessage}
use servatory.Protocol.Frame.{Codec}
use servatory.Host.Shutdown.{Effect, sent, World, Outcome, Env}
use servatory.Host.Config.{Config}
use servatory.Host.Config.Health.{Floats}
use servatory.Host.Daemon.{
  Daemon, Step, goes_on, lost, stops, refuses, then_do, written, Turn, ReadByte, Read, open_port,
}
use servatory.Host.Daemon.Loop.{
  read_port, say_hello, watch_after, watch_handshake, send_manifests, update_health, close_port,
  serve, turn,
}
use servatory.Host.Daemon.Log.{Writes, went, failed, write_host_message-Writes}
use servatory.Host.Daemon.Listening.{is_acknowledgement, messages, Waits, receive_all-Waits}

module _ (env : Env) (cd : Codec DeviceMessage) (fl : Floats) (c : Config)
    (version : SoftwareVersion) where
  send_manifests_idle :
      (d : Daemon) (w : World)
      → d.handshake_established ≡ false
      → send_manifests env cd fl c version d w ≡ (w, goes_on d)
  unfolding send_manifests
  send_manifests_idle d w h = simp h

  update_health_idle :
      (t : Turn) (d : Daemon) (w : World)
      → d.handshake_established ≡ false
      → update_health env cd fl c version t d w ≡ some (w, goes_on d)
  unfolding update_health
  update_health_idle t d w h = simp h

  -- The bytes that are read, if any.
  abbrev pub bytes_of : Read → List ReadByte
  bytes_of (Read.bytes bs) = bs
  bytes_of Read.timed_out = []
  bytes_of Read.broken = []

  -- What is read, with no acknowledgement of the daemon's nonce in it.
  abbrev pub Unacknowledged : Daemon → Read → Type 0
  Unacknowledged d r =
      All (λ m. is_acknowledgement d.handshake_nonce m ≡ false)
        (messages cd d.decoder d.input_synchronized (bytes_of r))

  read_port-Waits :
      (r : Read) (d : Daemon) (w : World)
      → d.handshake_established ≡ false
      → Unacknowledged d r
      → Waits w.log (read_port env cd fl c version r d w)
  unfolding read_port
  read_port-Waits (Read.bytes bs) d w h a =
      receive_all-Waits env cd fl c version bs d w d.handshake_nonce d.decoder d.input_synchronized
        h refl refl refl a
  read_port-Waits Read.timed_out d w h a = (h, refl)
  read_port-Waits Read.broken d w h a = (h, refl)

  close_port-Waits :
      (l : List Effect) (o : Option Step)
      → Waits l o
      → Waits l (bind o (λ step. some (close_port env cd fl c version step)))
  unfolding close_port
  close_port-Waits l none v = tt
  close_port-Waits l (some (w, goes_on d)) v = v
  close_port-Waits l (some (w, lost d e)) v = v
  close_port-Waits l (some (w, stops d)) v = absurd v
  close_port-Waits l (some (w, refuses d e)) v = absurd v

  -- The turn behind the hello.
  abbrev after_hello : Turn → Step → Option Step
  after_hello t s =
      bind
        (then_do (watch_after env cd fl c version t s) λ d1 w1.
          then_do (send_manifests env cd fl c version d1 w1) λ d2 w2.
            bind (update_health env cd fl c version t d2 w2)
              (λ step. then_do step (read_port env cd fl c version t.read)))
        (λ step. some (close_port env cd fl c version step))

  after_hello-Waits :
      (t : Turn) (d : Daemon) (w : World)
      → d.handshake_established ≡ false
      → Unacknowledged d t.read
      → Waits w.log (after_hello t (w, goes_on d))
  unfolding watch_after then_do
  after_hello-Waits t d w h a =
      let d1 = watch_handshake env cd fl c version t d in
      rw (send_manifests_idle d1 w h, update_health_idle t d1 w h)
        (close_port-Waits w.log _ (read_port-Waits t.read d1 w h a))

  -- What was waited for, with a hello or without.
  abbrev pub WaitsOrGreets : Daemon → World → Option Step → Type 0
  WaitsOrGreets d w o =
      Waits w.log o ⊎ Waits (w.log ++ sent (HostMessage.hello version d.handshake_nonce) ∷ []) o

  greeted :
      (t : Turn) (d : Daemon) (w : World) (out : Outcome Unit)
      → d.handshake_established ≡ false
      → Unacknowledged d t.read
      → Writes (HostMessage.hello version d.handshake_nonce) w.log out
      → WaitsOrGreets d w (
          after_hello t
            (written out d (λ w'. (w', goes_on (record d { next_hello = t.hello_sent + secs 1 })))))
  unfolding watch_after then_do close_port
  greeted t d w out h a (went w' e) =
      let greeting = record d { next_hello = t.hello_sent + secs 1 } in
      inr (
        subst (λ l. Waits l (after_hello t (w', goes_on greeting))) e
          (after_hello-Waits t greeting w' h a))
  greeted t d w out h a (failed w' x e) = inl (h, e)

  serve-Waits :
      (t : Turn) (d : Daemon) (w : World)
      → d.handshake_established ≡ false
      → Unacknowledged d t.read
      → WaitsOrGreets d w (serve env cd fl c version t d w)
  unfolding serve say_hello
  serve-Waits t d w h a =
      elim (Bool-cases (not d.handshake_established && leb d.next_hello t.hello_check)) [
        | inr no_hello ↦ rw no_hello (inl (after_hello-Waits t d w h a))
        | inl said ↦ rw said (greeted t d w _ h a (write_host_message-Writes env _ w))
      ]

  -- The variables with which a turn serves its port: the port was open, or is opened.
  pub data Serves (t : Turn) (d : Daemon) : Daemon → Type 0 where
    already : d.port ≡ true → Serves t d d
    opened : d.port ≡ false → t.opens ≡ true → Serves t d (open_port t d)

  -- In a turn that serves a port without a handshake, and with no acknowledgement of the port's nonce
  -- in what is read, whatever else is in it: the daemon writes its hello at most, neither powers off
  -- nor stops nor leaves with an error, and has no handshake afterwards.
  pub turn-Waits :
      (t : Turn) (d o : Daemon) (w : World)
      → Serves t d o
      → o.handshake_established ≡ false
      → Unacknowledged o t.read
      → WaitsOrGreets o w (turn env cd fl c version t d w)
  unfolding turn
  turn-Waits t d o w (already p) h a =
      let same : turn env cd fl c version t d w ≡ serve env cd fl c version t d w =
        simp (turn, p) in
      rw same (serve-Waits t d w h a)
  turn-Waits t d o w (opened p q) h a =
      let same : turn env cd fl c version t d w ≡ serve env cd fl c version t (open_port t d) w =
        simp (turn, p, q) in
      rw same (serve-Waits t (open_port t d) w h a)
