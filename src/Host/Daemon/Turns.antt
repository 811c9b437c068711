-- ===== src/Host/Daemon/Turns.antt =====
-- host/src/main.rs: every snapshot finds its manifests, over any number of turns.
use servatory.Prelude.{ℕ, ◌≡◌, refl, Option, none, some, List, [], ◌∷◌, arith, Result, ok, err}
use servatory.Protocol.Health.{SoftwareVersion}
use servatory.Protocol.Message.{DeviceMessage, HandshakeNonce}
use servatory.Protocol.Frame.{Codec}
use servatory.Host.Shutdown.{Effect, World, Env}
use servatory.Host.Config.{Config, ConfigError}
use servatory.Host.Config.Health.{Floats}
use servatory.Host.Daemon.{Daemon, Step, goes_on, lost, stops, refuses, Turn, open_port}
use servatory.Host.Daemon.Loop.{update_health, close_port, serve, turn, turns, start}
use servatory.Host.Daemon.Log.{Ends, EndsAny, then_do-Ends, bind-Ends, if-EndsAny}
use servatory.Host.Daemon.Manifests.{Matched, Inv, Ready, Kept-pending}
use servatory.Host.Daemon.Opening.{say_hello-Inv, watch_after-Inv, send_manifests-Ready}
use servatory.Host.Daemon.Updating.{update_health-Inv}
use servatory.Host.Daemon.Reading.{read_port-Inv}

module _ (c : Config) (version : SoftwareVersion) (env : Env) (cd : Codec DeviceMessage)
    (fl : Floats) where
  abbrev Keeps : Daemon → List Effect → Type 0
  Keeps = Inv c version env

  abbrev Readies : Daemon → List Effect → Type 0
  Readies = Ready c version env

  close_port-Inv :
      (s : Step) → Ends Keeps Keeps s → Ends Keeps Keeps (close_port env cd fl c version s)
  unfolding close_port
  close_port-Inv (w, goes_on d) v = v
  close_port-Inv (w, lost d e) v = v
  close_port-Inv (w, stops d) v = v
  close_port-Inv (w, refuses d e) v = v

  start-Inv :
      (nonce : HandshakeNonce) (update hello handshake : ℕ) (d : Daemon)
      → start env cd fl c version nonce update hello handshake ≡ ok d
      → Keeps d []
  unfolding start
  start-Inv nonce update hello handshake d h = record {
    matched = tt;
    in_sync = ground arith;
    guest_count = 0;
    counted = ground arith;
    shown = ground arith;
  }

  abbrev pub log_of : Option Step → List Effect
  log_of none = []
  log_of (some s) = s.0.log

  -- The log of the turns, if the loop starts.
  abbrev pub log_after :
      Result Daemon ConfigError → List Turn → (calls : ℕ) → List (Option ℕ) → List Effect
  log_after (err e) ts calls counts = []
  log_after (ok d) ts calls counts =
      log_of (turns env cd fl c version ts d (record { log = []; calls = calls; counts = counts }))

  serve-Inv :
      (t : Turn) (d : Daemon) (w : World)
      → Keeps d w.log
      → EndsAny Keeps Keeps (serve env cd fl c version t d w)
  unfolding serve
  serve-Inv t d w v =
      bind-Ends Keeps Keeps Keeps Keeps _ _
        (then_do-Ends Keeps Keeps Keeps _ _
          (watch_after-Inv c version env cd fl t _ (say_hello-Inv c version env cd fl t d w v))
          λ d1 w1 v1.
            then_do-Ends Readies Keeps Keeps _ _ (send_manifests-Ready c version env cd fl d1 w1 v1)
              λ d2 w2 v2.
                bind-Ends Keeps Keeps Keeps Keeps (update_health env cd fl c version t d2 w2) _
                  (update_health-Inv c version env cd fl t d2 w2 v2)
                  (λ s h.
                    then_do-Ends Keeps Keeps Keeps s _ h
                      (read_port-Inv c version env cd fl t.read)))
        close_port-Inv

  turn-Inv :
      (t : Turn) (d : Daemon) (w : World)
      → Keeps d w.log
      → EndsAny Keeps Keeps (turn env cd fl c version t d w)
  unfolding turn
  turn-Inv t d w v = if-EndsAny Keeps Keeps d.port _ _ (serve-Inv t d w v) (
      if-EndsAny Keeps Keeps t.opens _ _
        (serve-Inv t (open_port t d) w (Kept-pending c version env v)) v)

  turns-Inv :
      (ts : List Turn) (d : Daemon) (w : World)
      → Keeps d w.log
      → EndsAny Keeps Keeps (turns env cd fl c version ts d w)
  unfolding turns
  turns-Inv [] d w v = v
  turns-Inv (t ∷ ts) d w v =
      bind-Ends Keeps Keeps Keeps Keeps (turn env cd fl c version t d w) _ (turn-Inv t d w v)
        (λ s h. then_do-Ends Keeps Keeps Keeps s _ h (turns-Inv ts))

  Ends-Matched :
      (o : Option Step) → EndsAny Keeps Keeps o → Matched c version env none none (log_of o)
  Ends-Matched none v = tt
  Ends-Matched (some (w, goes_on d)) v = v.matched
  Ends-Matched (some (w, lost d e)) v = v.matched
  Ends-Matched (some (w, stops d)) v = v.matched
  Ends-Matched (some (w, refuses d e)) v = v.matched

  -- Whatever the port, the stick, the guests and the system do over any number of turns, and whichever
  -- writes fail: before each health snapshot that the daemon wrote it wrote a display and a network
  -- manifest. The last network manifest before it is the one that the configuration gives for that
  -- snapshot's number of guests. So is the last display manifest; or else it is the one that the
  -- configuration gives for another number of guests, whose network manifest is a different one
  -- that a write refuses.
  pub turns-Matched :
      (nonce : HandshakeNonce) (update hello handshake : ℕ) (ts : List Turn) (calls : ℕ)
      (counts : List (Option ℕ))
      → Matched c version env none none
          (log_after (start env cd fl c version nonce update hello handshake) ts calls counts)
  turns-Matched nonce update hello handshake ts calls counts =
      started (start env cd fl c version nonce update hello handshake) refl
    where
      started :
          (r : Result Daemon ConfigError)
          → start env cd fl c version nonce update hello handshake ≡ r
          → Matched c version env none none (log_after r ts calls counts)
      started (err x) e = tt
      started (ok d) e = Ends-Matched _ (
          turns-Inv ts d (record { log = []; calls = calls; counts = counts })
            (start-Inv nonce update hello handshake d e))
