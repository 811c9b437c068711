-- ===== src/Host/Tests.antt =====
-- host/src: the theorems at concrete inputs.
use servatory.Prelude.{
  ◌≡◌, refl, true, false, none, some, List, [], ◌∷◌, arith, ltb, if◌then◌else◌, ok,
}
use servatory.Prelude.Text.{codes}
use servatory.Prelude.Time.{secs}
use servatory.Protocol.Frame.{Codec, encode}
use servatory.Protocol.Snapshot.{checking, failed, UpsSnapshot, online, unavailable}
use servatory.Protocol.Message.{
  HostMessage, shutdown_accepted, shutdown_progress, shutdown_requested, ShutdownPhase,
  preparing_guests, stopping_guests,
}
use servatory.Host.Probe.{
  ProbeState, ConnectivityProbe, new_configured, prepare_probe, watch_link, record_result,
  poll_probe,
}
use servatory.Host.Probe.Threads.{Steps, done, next, poll, IsValid, Steps-IsValid}
use servatory.Host.Probe.Stale.{polls, changes, record_result-stale}
use servatory.Host.Probe.Status.{failures, failures-status}
use servatory.Host.Ups.{UpsCollector, new_collector, no_reading, collect}
use servatory.Host.Ups.Outage.{shown_after, collect-outage}
use servatory.Host.Shutdown.{and_do, Effect, sent, poweroff_called, Env, send, handle}
use servatory.Host.Shutdown.Log.{poweroffs}
use servatory.Host.Shutdown.Order.{handle-poweroffs}
use servatory.Host.Shutdown.Success.{IsReliable, handle-orderly}

abbrev first_state : ProbeState
first_state = new_configured 0 (secs 30) (secs 3) (secs 5) 2

abbrev first_probe : ConnectivityProbe
first_probe = record { state = first_state; running = [] }

abbrev polled : ConnectivityProbe
polled = poll_probe (secs 1) (secs 1) false true first_probe

polled-Steps : Steps first_probe polled
polled-Steps = next (done first_probe) (poll (secs 1) (secs 1) false true first_probe)

Steps-IsValid_example : IsValid polled
Steps-IsValid_example = Steps-IsValid 0 (secs 30) (secs 3) (secs 5) 2 polled-Steps

record_result-stale_example :
    record_result 0 true (secs 9) (polls ((secs 1, true) ∷ (secs 2, false) ∷ []) first_state)
    ≡ record (polls ((secs 1, true) ∷ (secs 2, false) ∷ []) first_state) { in_flight = false }
unfolding prepare_probe polls changes
record_result-stale_example =
    record_result-stale ((secs 1, true) ∷ (secs 2, false) ∷ []) first_state true (secs 9)
      (omega arith) (omega arith) (omega arith)

failures-status_example :
    let up = watch_link (secs 1) true first_state in
    let retried = failures (secs 4 ∷ []) up in
    (up.status ≡ checking)
    × (up.next_probe ≡ secs 4)
    × (retried.status ≡ checking)
    × (retried.next_probe ≡ secs 9)
    × ((failures (secs 9 ∷ secs 39 ∷ []) retried).status ≡ failed)
failures-status_example =
    failures-status (secs 1) (secs 4) (secs 9 ∷ secs 39 ∷ []) first_state refl (omega arith)

abbrev short_codec : Codec HostMessage
short_codec = record {
  to_slice_cobs = λ m n. if ltb n 2 then none else some (1 ∷ 0 ∷ []);
  from_bytes_cobs = λ bytes. none;
  decode_in_place = λ bytes. none;
}

abbrev calm : Env
calm = record { codec = short_codec; succeeds = λ i. true; systemctl = some true }

calm-IsReliable : IsReliable calm
unfolding encode
calm-IsReliable = record { writes = λ i. refl; fits = λ m h. refl }

handle-orderly_example :
    let out =
      handle calm true shutdown_requested
        (record { log = []; calls = 0; counts = some 2 ∷ some 1 ∷ some 0 ∷ [] }) in
    (out.1 ≡ ok true)
    × (out.0.log
        ≡ sent shutdown_accepted
          ∷ sent (shutdown_progress preparing_guests 0 0)
          ∷ sent (shutdown_progress stopping_guests 2 2)
          ∷ poweroff_called
          ∷ sent (shutdown_progress stopping_guests 2 1)
          ∷ sent (shutdown_progress stopping_guests 2 0)
          ∷ sent (shutdown_progress ShutdownPhase.guests_stopped 2 0)
          ∷ sent (shutdown_progress ShutdownPhase.powering_off 2 0)
          ∷ [])
handle-orderly_example = handle-orderly calm calm-IsReliable 2 (1 ∷ []) [] 0 refl (omega arith, tt)

handle-poweroffs_example :
    (true ≡ true)
    × (shutdown_requested ≡ shutdown_requested)
    × (rest : List Effect) × ((handle calm true shutdown_requested
          (record { log = []; calls = 0; counts = [] })).0.log
        ≡ sent shutdown_accepted ∷ sent (shutdown_progress preparing_guests 0 0) ∷ rest)
    × (poweroffs rest ≡ 1)
unfolding handle send encode and_do
handle-poweroffs_example = handle-poweroffs calm true shutdown_requested 0 [] (omega arith)

abbrev ups : UpsCollector
ups = new_collector (some (codes "ups@localhost")) 3

abbrev on_line : UpsSnapshot
on_line = record {
  status = online;
  battery_percent = some 100;
  load_percent = some 12;
  runtime_seconds = some 1800;
  estimated_watts = none;
  stale = false;
}

collect-outage_example :
    ((collect (none ∷ some on_line ∷ []) ups).1 ≡ on_line)
    × (shown_after 2 (collect (none ∷ some on_line ∷ []) ups).0
        ≡ record on_line { stale = true; status = unavailable })
    × (shown_after 2 (new_collector (some (codes "ups@localhost")) 3)
        ≡ record no_reading { status = unavailable })
collect-outage_example =
    collect-outage ups (codes "ups@localhost") (none ∷ some on_line ∷ []) on_line 2 refl
      (omega arith) refl
