-- ===== src/Host/Config/Examples.antt =====
-- host/src/config.rs: a small configuration, and parameters to run it with, for the tests.
use servatory.Prelude.{
  ◌≡◌, refl, true, false, none, some, [], ◌∷◌, ltb, leb, ◌==◌, if◌then◌else◌, is_ok,
}
use servatory.Prelude.Text.{codes, text_eq}
use servatory.Prelude.Time.{millis, secs}
use servatory.Protocol.Frame.{Codec, encode}
use servatory.Protocol.Health.{healthy_report}
use servatory.Protocol.Display.{unknown_version, new_display_config}
use servatory.Protocol.Message.{HostMessage}
use servatory.Protocol.Snapshot.{HealthSnapshot, unknown, checking, ups_not_configured}
use servatory.Host.Yaml.{Value}
use servatory.Host.Config.{
  Config, predicate, HealthRule, network_up, critical, healthy, overview, guests,
}
use servatory.Host.Config.Health.{Floats}
use servatory.Host.Config.Pages.{
  display_config, network_config, guest_pages, compile_pages_for, view_pages, pages_of,
}
use servatory.Host.Config.Validate.{
  validate, validate_condition, and_check, refuse_if, validate_ids, check_ids,
}

abbrev pub link_down : HealthRule
link_down = record {
  id = codes "link";
  severity = critical;
  when = predicate (record {
    measurement = network_up;
    equals = some (Value.bool false);
    one_of = none;
    at_least = none;
    greater_than = none;
    missing_or_greater_than = none;
  });
  message = codes "LINK DOWN";
}

abbrev pub small : Config
small = record {
  version = 2;
  update_interval = secs 5;
  usb_serial = record { device = codes "/dev/ttyACM0"; reconnect_interval = secs 2 };
  shutdown = record { enabled = true; hold_time = secs 3; animation_delay = millis 200 };
  sources = record {
    filesystems = record { id = codes "root"; path = codes "/"; label = codes "ROOT" } ∷ [];
    smart = [];
    ups = record { endpoint = none; failures_before_unavailable = 2 };
    internet = record {
      target = codes "example.org";
      interval = secs 30;
      timeout = secs 4;
      link_up_settle_delay = secs 3;
      first_failure_retry_delay = secs 5;
      failures_before_failed = 2;
    };
    task_history_limit = 50;
  };
  health = record {
    default_report = record { severity = healthy; message = codes "HEALTHY" };
    rules = link_down ∷ [];
  };
  views =
      (codes "main", record { title = codes "OVERVIEW"; layout = overview })
      ∷ (codes "vms", record { title = codes "GUESTS"; layout = guests true 0 4 })
      ∷ [];
  outputs = record { stick_views = codes "main" ∷ codes "vms" ∷ []; http = none; ntfy = none };
}

abbrev pub offline_host : HealthSnapshot
offline_host = record {
  health = healthy_report;
  active_incidents = [];
  uptime_seconds = 60;
  cpu_percent = 5;
  memory_used_mib = 1;
  memory_total_mib = 2;
  io_pressure_percent = 0;
  load_average_x100 = 10;
  filesystems = [];
  backup_job_status = unknown;
  last_successful_backup_age_seconds = none;
  network_up = false;
  network_mbps = 0;
  internet_status = checking;
  last_internet_success_age_seconds = none;
  ipv4 = record { a = 0; b = 0; c = 0; d = 0 };
  guests = record { guests = [] };
  ups = ups_not_configured;
  smart = record { devices = [] };
  host_name = [];
  network_interface = [];
}

-- An arithmetic that only serves to run the code.
abbrev pub floats : Floats
floats = record {
  from_u32 = λ n. n;
  from_number = λ n. none;
  as_secs_f64 = λ d. d;
  ge = λ a b. leb b a;
  gt = λ a b. ltb b a;
  eq = λ a b. a == b;
  rounded = λ x. [];
}

abbrev pub short_codec : Codec HostMessage
short_codec = record {
  to_slice_cobs = λ m n. if ltb n 2 then none else some (1 ∷ 0 ∷ []);
  from_bytes_cobs = λ bytes. none;
  decode_in_place = λ bytes. none;
}

pub small_valid : is_ok (validate small short_codec unknown_version) ≡ true
unfolding validate validate_condition and_check refuse_if validate_ids check_ids text_eq
    display_config network_config compile_pages_for pages_of view_pages guest_pages
    new_display_config encode
small_valid = refl
