-- ===== src/Protocol/Snapshot.antt =====
-- protocol/src/lib.rs: what one health snapshot holds.
use servatory.Prelude.{ℕ, Bool, true, false, List, [], Option, none, min}
use servatory.Prelude.Text.{Text}
use servatory.Protocol.Health.{Incident, HealthReport, healthy_report}

pub data GuestKind : Type 0 where
  virtual_machine container : GuestKind

pub data GuestStatus : Type 0 where
  running stopped : GuestStatus

pub data InternetStatus : Type 0 where
  checking reachable missed failed : InternetStatus

pub data BackupJobStatus : Type 0 where
  unknown no_job healthy running failed stale : BackupJobStatus

pub data UpsStatus : Type 0 where
  not_configured unknown online on_battery low_battery charging bypass output_off replace_battery
        unavailable :
      UpsStatus

pub record UpsSnapshot : Type 0 where
  pub status : UpsStatus
  pub battery_percent : Option ℕ
  pub load_percent : Option ℕ
  pub runtime_seconds : Option ℕ
  pub estimated_watts : Option ℕ
  pub stale : Bool

-- `UpsSnapshot::NOT_CONFIGURED`
abbrev pub ups_not_configured : UpsSnapshot
ups_not_configured = record {
  status = not_configured;
  battery_percent = none;
  load_percent = none;
  runtime_seconds = none;
  estimated_watts = none;
  stale = false;
}

pub data SmartStatus : Type 0 where
  healthy warning failed sleeping unknown : SmartStatus

-- A temperature is the bit pattern of an `i8`; the modelled code only carries it.
pub record SmartDeviceSummary : Type 0 where
  pub status : SmartStatus
  pub temperature_celsius : Option ℕ
  pub label : Text

pub record SmartSnapshot : Type 0 where
  pub devices : List SmartDeviceSummary

pub record FilesystemUsage : Type 0 where
  pub used_percent : ℕ
  pub available_mib : ℕ
  pub mounted : Bool

-- `FilesystemUsage::MISSING`
abbrev pub missing_filesystem : FilesystemUsage
missing_filesystem = record { used_percent = 0; available_mib = 0; mounted = false }

-- `FilesystemUsage::new`
unfoldable pub new_filesystem_usage : ℕ → ℕ → FilesystemUsage
new_filesystem_usage used available = record {
  used_percent = min 100 used;
  available_mib = available;
  mounted = true;
}

pub record GuestSummary : Type 0 where
  pub vmid : ℕ
  pub kind : GuestKind
  pub status : GuestStatus
  pub cpu_percent : ℕ
  pub memory_used_mib : ℕ
  pub memory_total_mib : ℕ
  pub name : Text

-- `GuestSummary::new`
unfoldable pub new_guest_summary : ℕ → Text → GuestKind → GuestStatus → ℕ → ℕ → ℕ → GuestSummary
new_guest_summary vmid name kind status cpu used total = record {
  vmid = vmid;
  kind = kind;
  status = status;
  cpu_percent = min cpu 100;
  memory_used_mib = used;
  memory_total_mib = total;
  name = name;
}

pub record GuestSnapshot : Type 0 where
  pub guests : List GuestSummary

pub record Ipv4 : Type 0 where
  pub a : ℕ
  pub b : ℕ
  pub c : ℕ
  pub d : ℕ

pub record HealthSnapshot : Type 0 where
  pub health : HealthReport
  pub active_incidents : List Incident
  pub uptime_seconds : ℕ
  pub cpu_percent : ℕ
  pub memory_used_mib : ℕ
  pub memory_total_mib : ℕ
  pub io_pressure_percent : ℕ
  pub load_average_x100 : ℕ
  pub filesystems : List FilesystemUsage
  pub backup_job_status : BackupJobStatus
  pub last_successful_backup_age_seconds : Option ℕ
  pub network_up : Bool
  pub network_mbps : ℕ
  pub internet_status : InternetStatus
  pub last_internet_success_age_seconds : Option ℕ
  pub ipv4 : Ipv4
  pub guests : GuestSnapshot
  pub ups : UpsSnapshot
  pub smart : SmartSnapshot
  pub host_name : Text
  pub network_interface : Text

-- `HealthSnapshot::new`
unfoldable pub new_health_snapshot :
    (host_name : Text) (uptime cpu used total io load : ℕ)
    → List FilesystemUsage
    → BackupJobStatus
    → Option ℕ
    → (up : Bool) (mbps : ℕ) (interface : Text) → InternetStatus
    → Option ℕ
    → Ipv4
    → GuestSnapshot
    → UpsSnapshot
    → SmartSnapshot
    → HealthSnapshot
new_health_snapshot host uptime cpu used total io load fs backup age up mbps interface internet
      success ipv4 guests ups smart =
    record {
      health = healthy_report;
      active_incidents = [];
      uptime_seconds = uptime;
      cpu_percent = min cpu 100;
      memory_used_mib = used;
      memory_total_mib = total;
      io_pressure_percent = min io 100;
      load_average_x100 = load;
      filesystems = fs;
      backup_job_status = backup;
      last_successful_backup_age_seconds = age;
      network_up = up;
      network_mbps = mbps;
      internet_status = internet;
      last_internet_success_age_seconds = success;
      ipv4 = ipv4;
      guests = guests;
      ups = ups;
      smart = smart;
      host_name = host;
      network_interface = interface;
    }

-- `HealthSnapshot::set_incidents`
abbrev pub set_incidents : HealthReport → List Incident → HealthSnapshot → HealthSnapshot
set_incidents health incidents s = record s { health = health; active_incidents = incidents }
