-- ===== src/Host/Daemon/Opening.antt =====
-- host/src/main.rs: the parts of a turn before the update keep the manifests in step with the snapshots.
use servatory.Prelude.{refl, inl, inr, not, ◌&&◌, List, arith, leb, Bool-cases}
use servatory.Protocol.Health.{SoftwareVersion}
use servatory.Protocol.Message.{HostMessage, DeviceMessage}
use servatory.Protocol.Frame.{Codec}
use servatory.Host.Shutdown.{Effect, sent, World, Env}
use servatory.Host.Config.{Config}
use servatory.Host.Config.Health.{Floats}
use servatory.Host.Daemon.{Daemon, Step, goes_on, lost, stops, refuses, Turn}
use servatory.Host.Daemon.Loop.{say_hello, watch_after, send_manifests}
use servatory.Host.Daemon.Log.{written-Ends, write_host_message-Writes, Ends}
use servatory.Host.Daemon.Manifests.{Inv, Ready, Kept-message, Kept-unsent, Kept-sent}

module _ (c : Config) (version : SoftwareVersion) (env : Env) (cd : Codec DeviceMessage)
    (fl : Floats) where
  abbrev Keeps : Daemon → List Effect → Type 0
  Keeps = Inv c version env

  abbrev Readies : Daemon → List Effect → Type 0
  Readies = Ready c version env

  pub say_hello-Inv :
      (t : Turn) (d : Daemon) (w : World)
      → Keeps d w.log
      → Ends Keeps Keeps (say_hello env cd fl c version t d w)
  unfolding say_hello
  say_hello-Inv t d w v =
      elim (Bool-cases (not d.handshake_established && leb d.next_hello t.hello_check)) [
        | inr e ↦ rw e v
        | inl e ↦ rw e (
            written-Ends Keeps Keeps _ w.log d _ (write_host_message-Writes env _ w) v
              (λ w' g. rw g (Kept-message c version env _ refl refl tt v)))
      ]

  pub watch_after-Inv :
      (t : Turn) (s : Step)
      → Ends Keeps Keeps s
      → Ends Keeps Keeps (watch_after env cd fl c version t s)
  unfolding watch_after
  watch_after-Inv t (w, goes_on d) v = v
  watch_after-Inv t (w, lost d e) v = v
  watch_after-Inv t (w, stops d) v = v
  watch_after-Inv t (w, refuses d e) v = v

  pub send_manifests-Ready :
      (d : Daemon) (w : World)
      → Keeps d w.log
      → Ends Readies Keeps (send_manifests env cd fl c version d w)
  unfolding send_manifests
  send_manifests-Ready d w v = elim (Bool-cases (d.handshake_established && d.manifest_pending)) [
    | inr e ↦ rw e (v, e)
    | inl e ↦ rw e (
        written-Ends Readies Keeps _ w.log d _ (write_host_message-Writes env _ w) v λ w' g.
          written-Ends Readies Keeps _ w'.log d _ (write_host_message-Writes env _ w')
            (rw g (
              Kept-unsent c version env (sent (HostMessage.display_config d.display_config))
                (ground arith) tt v))
            (λ w'' g'. (rw (g', g) (Kept-sent c version env _ v), ground arith)))
  ]
