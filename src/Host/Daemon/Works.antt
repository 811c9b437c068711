-- ===== src/Host/Daemon/Works.antt =====
-- host/src/main.rs: a daemon with a valid configuration neither panics nor gives up.
use servatory.Prelude.{
  ℕ, ◌≤◌, ◌≡◌, refl, true, ◌&&◌, Option, none, some, List, [], ◌∷◌, arith, leb, ◌==◌, Result, ok,
  err, bind, is_ok, length, All,
}
use servatory.Prelude.Words.{u32_max}
use servatory.Protocol.Health.{SoftwareVersion, HealthReport, Incident}
use servatory.Protocol.Snapshot.{HealthSnapshot, set_incidents}
use servatory.Protocol.Message.{HostMessage, DeviceMessage, HandshakeNonce}
use servatory.Protocol.Frame.{Codec, max_device_frame_len}
use servatory.Protocol.Decoder.Refine.{new-Tracks}
use servatory.Host.Shutdown.{World, Env, write_host_message}
use servatory.Host.Config.{Config}
use servatory.Host.Config.Health.{Floats}
use servatory.Host.Config.Evaluate.{evaluate_health}
use servatory.Host.Config.Pages
use servatory.Host.Config.Pages.Total.{manifests-total}
use servatory.Host.Config.Validate.{validate}
use servatory.Host.Config.Validate.Rules.{validate-evaluates, validate-manifests}
use servatory.Host.Daemon.{
  Daemon, Step, goes_on, lost, stops, refuses, then_do, Turn, guest_page_count, open_port,
  new_daemon,
}
use servatory.Host.Daemon.Loop.{
  read_port, say_hello, watch_after, send_manifests, send_display, send_network, refresh_pages,
  report_health, update_health, serve, turn, turns, start,
}
use servatory.Host.Daemon.Parts.{
  IsReady, Works, WorksStep, bind-Works, close_port-Works, if-Works, read_port-Works,
  say_hello-Works, send_display-Works, send_manifests-Works, send_network-Works, then_do-Works,
  watch_after-Works, written-Works,
}

-- Fewer guests than a `u32` can count.
abbrev pub Few : Option HealthSnapshot → Type 0
Few none = Unit
Few (some s) = length s.guests.guests ≤ u32_max

ok_of : {A E : Type 0} (r : Result A E) → is_ok r ≡ true → (a : A) × (r ≡ ok a)
ok_of (ok a) h = (a, refl)
ok_of (err e) h = absurd (ground arith)

module _ (env : Env) (cd : Codec DeviceMessage) (fl : Floats) (c : Config)
    (version : SoftwareVersion) where
  -- The manifests can be made, and the rules evaluated.
  module _ (valid_display : is_ok (Pages.display_config c version 0) ≡ true)
      (valid_network : is_ok (Pages.network_config c 0) ≡ true)
      (evaluates : (s : HealthSnapshot)
        → (r : HealthReport) × (is : List Incident) × (evaluate_health fl c s ≡ some (r, is))) where
    refresh_pages-Works :
        (n : ℕ) (d : Daemon) (w : World)
        → n ≤ u32_max
        → IsReady d
        → Works (refresh_pages env cd fl c version n d w)
    unfolding refresh_pages
    refresh_pages-Works n d w few h =
        let both = manifests-total c n few version valid_display valid_network in
        let (display, f) = ok_of _ both.0 in
        let (network, g) = ok_of _ both.1 in
        if-Works (guest_page_count n == d.configured_guest_pages) _ _ h (
          rw (f, g)
            (then_do-Works (send_display env cd fl c version display d w) _
              (send_display-Works env cd fl c version display d w h)
              λ d1 w1 h1.
                then_do-Works (send_network env cd fl c version network d1 w1) _
                  (send_network-Works env cd fl c version network d1 w1 h1) (λ d2 w2 h2. h2)))

    report_health-Works :
        (t : Turn) (status : HealthReport) (s : HealthSnapshot) (step : Step)
        → WorksStep step
        → WorksStep (report_health env cd fl c version t status s step)
    unfolding report_health
    report_health-Works t status s (w, goes_on d) v =
        written-Works (write_host_message env (HostMessage.health_snapshot s) w) _ _ v (λ w'. v)
    report_health-Works t status s (w, lost d e) v = v
    report_health-Works t status s (w, stops d) v = tt
    report_health-Works t status s (w, refuses d e) v = v

    update_health-Works :
        (t : Turn) (d : Daemon) (w : World)
        → Few t.health
        → IsReady d
        → Works (update_health env cd fl c version t d w)
    unfolding update_health
    update_health-Works t d w few h =
        if-Works (d.handshake_established && leb d.next_update t.update_check) _ _
          (updated t.health few) h
      where
        updated :
            (o : Option HealthSnapshot)
            → Few o
            → Works (elim o [
              | none ↦ some (w, goes_on d)
              | some snapshot ↦
                  bind
                    (refresh_pages env cd fl c version (length snapshot.guests.guests) d w)
                    λ step. bind (evaluate_health fl c snapshot) λ (status, incidents). some (
                      report_health env cd fl c version t status
                        (set_incidents status incidents snapshot)
                        step)
            ])
        updated none few = h
        updated (some s) few =
            let (status, incidents, e) = evaluates s in
            bind-Works (refresh_pages env cd fl c version (length s.guests.guests) d w) _
              (refresh_pages-Works (length s.guests.guests) d w few h)
              (λ step k.
                rw e (report_health-Works t status (set_incidents status incidents s) step k))

    serve-Works :
        (t : Turn) (d : Daemon) (w : World)
        → Few t.health
        → IsReady d
        → Works (serve env cd fl c version t d w)
    unfolding serve
    serve-Works t d w few h =
        bind-Works
          (then_do (watch_after env cd fl c version t (say_hello env cd fl c version t d w))
            λ d1 w1. then_do (send_manifests env cd fl c version d1 w1) λ d2 w2.
              bind (update_health env cd fl c version t d2 w2)
                (λ step. then_do step (read_port env cd fl c version t.read)))
          _
          (then_do-Works (watch_after env cd fl c version t (say_hello env cd fl c version t d w)) _
            (watch_after-Works env cd fl c version t _
              (say_hello-Works env cd fl c version t d w h))
            λ d1 w1 h1.
              then_do-Works (send_manifests env cd fl c version d1 w1) _
                (send_manifests-Works env cd fl c version d1 w1 h1)
                λ d2 w2 h2.
                  bind-Works (update_health env cd fl c version t d2 w2) _
                    (update_health-Works t d2 w2 few h2)
                    (λ s k. then_do-Works s _ k (read_port-Works env cd fl c version t.read)))
          (close_port-Works env cd fl c version)

    turn-Works :
        (t : Turn) (d : Daemon) (w : World)
        → Few t.health
        → IsReady d
        → Works (turn env cd fl c version t d w)
    unfolding turn
    turn-Works t d w few h = if-Works d.port _ _ (serve-Works t d w few h) (
        if-Works t.opens _ _
          (serve-Works t (open_port t d) w few ([], new-Tracks max_device_frame_len)) h)

    turns-Works :
        (ts : List Turn) (d : Daemon) (w : World)
        → All (λ (t : Turn). Few t.health) ts
        → IsReady d
        → Works (turns env cd fl c version ts d w)
    unfolding turns
    turns-Works [] d w few h = h
    turns-Works (t ∷ ts) d w few h =
        bind-Works (turn env cd fl c version t d w) _ (turn-Works t d w few.0 h)
          (λ s k. then_do-Works s _ k (λ d' w' h'. turns-Works ts d' w' few.1 h'))

  -- With a configuration that `validate` accepts, the loop can be started, and over any number of
  -- turns and whatever it reads, as long as no snapshot has 2^32 guests, it neither panics nor leaves
  -- `main` with an error: it goes on, or stops for a shutdown.
  pub turns_work :
      (codec : Codec HostMessage) (ts : List Turn) (w : World) (nonce : HandshakeNonce)
      (update hello handshake : ℕ)
      → is_ok (validate c codec version) ≡ true
      → All (λ (t : Turn). Few t.health) ts
      → (d : Daemon) × (start env cd fl c version nonce update hello handshake ≡ ok d)
        × Works (turns env cd fl c version ts d w)
  unfolding start
  turns_work codec ts w nonce update hello handshake valid few =
      let (shown, served) = validate-manifests codec version c valid in
      let (display, f) = ok_of _ shown in
      let (network, g) = ok_of _ served in
      (
        new_daemon display network nonce update hello handshake,
        rw (f, g),
        turns-Works shown served ((validate-evaluates codec version c valid).1 fl) ts _ w few
            ([], new-Tracks max_device_frame_len),
      )
