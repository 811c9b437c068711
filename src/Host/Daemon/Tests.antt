-- ===== src/Host/Daemon/Tests.antt =====
-- host/src/main.rs: the daemon at concrete turns.
use servatory.Prelude.{
  ℕ, ◌≡◌, refl, true, false, Option, none, some, List, [], ◌∷◌, map, arith, ◌==◌, if◌then◌else◌, ok,
}
use servatory.Prelude.Text.{text_eq}
use servatory.Prelude.Time.{secs}
use servatory.Protocol.Display.{unknown_version, default_display_config, new_display_config}
use servatory.Protocol.Network.{NotificationPriority}
use servatory.Protocol.Snapshot.{HealthSnapshot}
use servatory.Protocol.Message.{HostMessage, DeviceMessage, HandshakeNonce, shutdown_requested}
use servatory.Protocol.Frame.{Codec, encode, decode}
use servatory.Protocol.Examples.{no_version}
use servatory.Host.Shutdown.{Effect, sent, Env, write_host_message}
use servatory.Host.Config.Examples.{small, offline_host, floats, short_codec, small_valid}
use servatory.Protocol.Decoder.{push}
use servatory.Host.Config.Pages.{
  display_config, network_config, guest_pages, compile_pages_for, view_pages, pages_of,
}
use servatory.Host.Config.Evaluate.{evaluate_health, incidents_of, new_incident, pick}
use servatory.Host.Config.Health.{matches_condition}
use servatory.Protocol.Health.{new_rule_id}
use servatory.Host.Daemon.{
  Daemon, Turn, ReadByte, Read, open_port, new_daemon, on_hello, then_do, log_health_status_change,
}
use servatory.Host.Daemon.Loop.{
  start, turn, turns, serve, say_hello, watch_after, send_manifests, update_health, refresh_pages,
  report_health, read_port, receive_all, receive, on_event, on_frame, on_message, close_port,
}
use servatory.Host.Daemon.Turns.{log_after, turns-Matched}
use servatory.Host.Daemon.Manifests.{Matched}
use servatory.Host.Daemon.Parts.{Works}
use servatory.Host.Daemon.Works.{turns_work}
use servatory.Host.Daemon.Listening.{messages}
use servatory.Host.Daemon.Gate.{opened, WaitsOrGreets, turn-Waits}

abbrev calm : Env
calm = record { codec = short_codec; succeeds = λ i. true; systemctl = some true }

abbrev nonce : HandshakeNonce
nonce = record { value = 7 }

-- It knows a request and an acknowledgement.
abbrev acknowledging : Codec DeviceMessage
acknowledging = record {
  to_slice_cobs = λ m n. none;
  from_bytes_cobs = λ bs. elim bs [
    | [] ↦ none
    | b ∷ rest ↦
        if b == 1
        then some shutdown_requested
        else some (DeviceMessage.hello no_version (some nonce))
  ];
  decode_in_place = λ frame. none;
}

abbrev read_at : ℕ → ReadByte
read_at b = record { byte = b; first_now = secs 1; second_now = secs 1 }

-- A delimiter, and the acknowledgement.
abbrev acknowledgement : List ReadByte
acknowledgement = map read_at (0 ∷ 0xa5 ∷ 0x5a ∷ 10 ∷ 2 ∷ 0 ∷ [])

abbrev request : List ReadByte
request = map read_at (0 ∷ 0xa5 ∷ 0x5a ∷ 10 ∷ 1 ∷ 0 ∷ [])

abbrev turn_at : ℕ → Option HealthSnapshot → Read → Turn
turn_at now health read = record {
  opens = true;
  nonce = nonce;
  opened_update = now;
  opened_hello = now;
  opened_handshake = now;
  hello_check = now;
  hello_sent = now;
  timeout_check = now;
  update_check = now;
  update_sent = now;
  health = health;
  read = read;
}

-- The port opens and the stick answers; a snapshot is sent; the port breaks.
abbrev three_turns : List Turn
three_turns =
    turn_at (secs 1) (some offline_host) (Read.bytes acknowledgement)
    ∷ turn_at (secs 2) (some offline_host) Read.timed_out
    ∷ turn_at (secs 3) none Read.broken
    ∷ []

turns-Matched_example : Matched small unknown_version calm none none (
    log_after small unknown_version calm acknowledging floats
      (start calm acknowledging floats small unknown_version nonce 0 0 0)
      three_turns
      0
      [])
turns-Matched_example =
    turns-Matched small unknown_version calm acknowledging floats nonce 0 0 0 three_turns 0 []

turns_work_example :
    (d : Daemon) × (start calm acknowledging floats small unknown_version nonce 0 0 0 ≡ ok d)
    × Works (
        turns calm acknowledging floats small unknown_version three_turns d
          (record { log = []; calls = 0; counts = [] }))
turns_work_example =
    turns_work calm acknowledging floats small unknown_version short_codec three_turns
      (record { log = []; calls = 0; counts = [] }) nonce 0 0 0 small_valid
      (omega arith, (omega arith, (tt, tt)))

abbrev waiting_daemon : Daemon
waiting_daemon =
    new_daemon default_display_config
      (record {
        http = record { enabled = false; port = 80; hostname = []; pages = [] };
        ntfy = record {
          enabled = false;
          severities = record { warning = false; critical = false };
          notify_recovery = false;
          warning_priority = NotificationPriority.high;
          critical_priority = NotificationPriority.urgent;
          recovery_priority = NotificationPriority.default;
          repeat_critical_seconds = none;
          server = [];
          click_url = none;
        };
      })
      nonce 0 0 0

-- A stick that asks for a shutdown without having acknowledged the nonce.
abbrev unheard : Turn
unheard = turn_at (secs 1) none (Read.bytes request)

turn-Waits_example :
    WaitsOrGreets calm acknowledging floats small unknown_version
      (open_port unheard waiting_daemon)
      (record { log = []; calls = 0; counts = [] })
      (turn calm acknowledging floats small unknown_version unheard waiting_daemon
        (record { log = []; calls = 0; counts = [] }))
unfolding messages push decode
turn-Waits_example =
    turn-Waits calm acknowledging floats small unknown_version unheard waiting_daemon
      (open_port unheard waiting_daemon) (record { log = []; calls = 0; counts = [] })
      (opened refl refl) refl (refl, tt)

-- The hello, the manifests and the snapshot of the three turns.
abbrev kinds : List Effect → List ℕ
kinds [] = []
kinds (sent (HostMessage.hello v n) ∷ es) = 1 ∷ kinds es
kinds (sent (HostMessage.display_config d) ∷ es) = 2 ∷ kinds es
kinds (sent (HostMessage.network_config n) ∷ es) = 3 ∷ kinds es
kinds (sent (HostMessage.health_snapshot s) ∷ es) = 4 ∷ kinds es
kinds (e ∷ es) = 0 ∷ kinds es

three_turns_log :
    kinds (
      log_after small unknown_version calm acknowledging floats
        (start calm acknowledging floats small unknown_version nonce 0 0 0)
        three_turns
        0
        [])
    ≡ 1 ∷ 2 ∷ 3 ∷ 4 ∷ []
unfolding start turns turn serve say_hello watch_after send_manifests update_health refresh_pages
    report_health read_port receive_all receive on_event on_frame on_message on_hello close_port
    then_do log_health_status_change write_host_message encode decode push display_config
    network_config compile_pages_for pages_of view_pages guest_pages new_display_config text_eq
    evaluate_health incidents_of new_incident new_rule_id pick matches_condition
three_turns_log = refl
