-- ===== src/Host/Collect.antt =====
-- host/src/health.rs: `HealthCollector`. What the readers of files and the executables give in one
-- call of `collect` is the record `Readings`.
pub mod Sampling
use servatory.Prelude.{
  ℕ, zero, suc, ◌+◌, ◌-◌, ◌*◌, ◌/◌, ◌%◌, ◌≤◌, ◌<◌, min, max, ◌≡◌, refl, sym, ap, ◌∙◌, ◌≢◌, ◌↔◌, ◌⊎◌,
  inl, inr, Bool, true, false, not, ◌&&◌, ◌||◌, Option, none, some, List, [], ◌∷◌, ◌++◌, map,
  append-nil, append_assoc, arith, ltb, leb, ◌==◌, if◌then◌else◌, ltb→lt, leb→le, ==_iff,
  Bool-cases, Option-cases, is_some, is_some_and, is_none_or, unwrap_or, Result, ok, err, and_then,
  ok_or, bind, is_ok, length, is_empty, get_elem?, set?, take?, take, drop, replicate, all, any,
  All, length-append, length-replicate, All-append, All-split, set-take, Result-cases, length-drop,
  take-append, nil_of_length, zero_plus, suc_plus, drop_nil, drop-drop, drop-append,
}
use servatory.Prelude.Text.{Text}
use servatory.Prelude.Time.{Instant, Duration, secs}
use servatory.Prelude.Words.{u8_max, u32_max, u64_max, clamp_u32}
use servatory.Protocol.Snapshot.{
  BackupJobStatus, FilesystemUsage, missing_filesystem, GuestSnapshot, HealthSnapshot, Ipv4,
  SmartSnapshot, UpsSnapshot, ups_not_configured, new_health_snapshot,
}
use servatory.Host.Json.{Json}
use servatory.Host.Probe.{ConnectivityProbe, poll_probe, report}
use servatory.Host.Ups.{UpsCollector, new_collector, collect}
use servatory.Host.Interfaces.{Sysfs, resolve_physical_interface, read_link}
use servatory.Host.Backup.{parse_backup_job_status}

-- `NETWORK_REFRESH_INTERVAL` and the like
abbrev pub network_refresh_interval : Duration
network_refresh_interval = secs 10

abbrev pub filesystem_refresh_interval : Duration
filesystem_refresh_interval = secs 30

abbrev pub ups_refresh_interval : Duration
ups_refresh_interval = secs 10

abbrev pub smart_refresh_interval : Duration
smart_refresh_interval = secs 60

abbrev pub backup_refresh_interval : Duration
backup_refresh_interval = secs 60

-- `refresh_due`: whether, and `next_refresh` afterwards.
unfoldable pub refresh_due : (now next_refresh : Instant) (interval : Duration) → Bool × Instant
refresh_due now next_refresh interval =
    if ltb now next_refresh then (false, next_refresh) else (true, now + interval)

pub record CpuTimes : Type 0 where
  pub total : ℕ
  pub idle : ℕ

-- The division that is not by zero, as an `u8`.
abbrev pub percent_of : (part total : ℕ) → ℕ
percent_of part zero = 0
percent_of part (suc n) = if leb (part / suc n) u8_max then part / suc n else 0

-- `cpu_percent`
unfoldable pub cpu_percent : (previous current : Option CpuTimes) → ℕ
cpu_percent none current = 0
cpu_percent (some previous) none = 0
cpu_percent (some previous) (some current) =
    let total = current.total - previous.total in
    let idle = current.idle - previous.idle in percent_of (min u64_max ((total - idle) * 100)) total

abbrev pub mib : ℕ → ℕ
mib kib = clamp_u32 (kib / 1024)

-- `read_memory`, from the two figures: what is used, and all.
abbrev pub read_memory : (total_kib available_kib : ℕ) → ℕ × ℕ
read_memory total_kib available_kib = (mib (total_kib - available_kib), mib total_kib)

pub record NetworkSnapshot : Type 0 where
  pub interface : Text
  pub up : Bool
  pub mbps : ℕ
  pub ipv4 : Ipv4

abbrev pub no_ipv4 : Ipv4
no_ipv4 = record { a = 0; b = 0; c = 0; d = 0 }

-- `NetworkSnapshot::default`
abbrev pub default_network : NetworkSnapshot
default_network = record { interface = []; up = false; mbps = 0; ipv4 = no_ipv4 }

-- `read_network`, from what `read_route` gives; `none` if the search has not enough fuel.
unfoldable pub read_network : Sysfs → (fuel : ℕ) → Option (Text × Ipv4) → Option NetworkSnapshot
read_network s fuel none = some default_network
read_network s fuel (some (routed_interface, ipv4)) =
    bind (resolve_physical_interface s fuel routed_interface) λ found.
      let physical_interface = unwrap_or found routed_interface in
      let (up, mbps) = read_link s physical_interface in
      some (record { interface = physical_interface; up = up; mbps = mbps; ipv4 = ipv4 })

-- What an executable gave: whether it succeeded, and its output as a document.
pub record CommandOutput : Type 0 where
  pub succeeds : Bool
  pub document : Option Json

-- `read_backup_job_status`
abbrev pub read_backup_job_status :
    (host_name : Text) → Option ℕ → (jobs tasks : Option CommandOutput) → BackupJobStatus × Option ℕ
read_backup_job_status host_name none jobs tasks = (BackupJobStatus.unknown, none)
read_backup_job_status host_name (some now) none tasks = (BackupJobStatus.unknown, none)
read_backup_job_status host_name (some now) (some jobs) none = (BackupJobStatus.unknown, none)
read_backup_job_status host_name (some now) (some jobs) (some tasks) =
    if not jobs.succeeds || not tasks.succeeds
    then (BackupJobStatus.unknown, none)
    else parse_backup_job_status jobs.document tasks.document host_name now

pub record HealthCollector : Type 0 where
  pub previous_cpu : Option CpuTimes
  pub connectivity : ConnectivityProbe
  pub ups : UpsCollector
  pub filesystems : List Text
  pub host_name : Text
  pub network : NetworkSnapshot
  pub filesystem_usage : List FilesystemUsage
  pub backup : BackupJobStatus × Option ℕ
  pub ups_snapshot : UpsSnapshot
  pub smart : SmartSnapshot
  pub next_network_refresh : Instant
  pub next_filesystem_refresh : Instant
  pub next_backup_refresh : Instant
  pub next_ups_refresh : Instant
  pub next_smart_refresh : Instant

-- `HealthCollector::new`
abbrev pub new_health_collector :
    Option Text
    → ℕ
    → (filesystems : List Text) → ConnectivityProbe
    → (host_name : Text) → Instant
    → HealthCollector
new_health_collector ups_target limit filesystems connectivity host_name now = record {
  previous_cpu = none;
  connectivity = connectivity;
  ups = new_collector ups_target limit;
  filesystems = filesystems;
  host_name = host_name;
  network = default_network;
  filesystem_usage = replicate (length filesystems) missing_filesystem;
  backup = (BackupJobStatus.unknown, none);
  ups_snapshot = ups_not_configured;
  smart = record { devices = [] };
  next_network_refresh = now;
  next_filesystem_refresh = now;
  next_backup_refresh = now;
  next_ups_refresh = now;
  next_smart_refresh = now;
}

-- What one call reads: the clock, at its begin and in the probe; what each reader gives if it is
-- called; and whether a thread for a probe can be started.
pub record Readings : Type 0 where
  pub now : Instant
  pub cpu : Option CpuTimes
  pub total_kib : ℕ
  pub available_kib : ℕ
  pub network : NetworkSnapshot
  pub probe_now : Instant
  pub probe_failed : Instant
  pub spawns : Bool
  pub reported : Instant
  pub filesystem : Text → FilesystemUsage
  pub backup : BackupJobStatus × Option ℕ
  pub ups : List (Option UpsSnapshot)
  pub smart : SmartSnapshot
  pub uptime : ℕ
  pub io_pressure : ℕ
  pub load_average : ℕ
  pub guests : GuestSnapshot

-- The collector after `collect`.
unfoldable pub collected : Readings → HealthCollector → HealthCollector
collected r c =
    let network_due = refresh_due r.now c.next_network_refresh network_refresh_interval in
    let filesystem_due = refresh_due r.now c.next_filesystem_refresh filesystem_refresh_interval in
    let backup_due = refresh_due r.now c.next_backup_refresh backup_refresh_interval in
    let ups_due = refresh_due r.now c.next_ups_refresh ups_refresh_interval in
    let smart_due = refresh_due r.now c.next_smart_refresh smart_refresh_interval in
    let network = if network_due.0 then r.network else c.network in
    let ups = if ups_due.0 then collect r.ups c.ups else (c.ups, c.ups_snapshot) in
    record c {
      previous_cpu = r.cpu;
      connectivity = poll_probe r.probe_now r.probe_failed network.up r.spawns c.connectivity;
      ups = ups.0;
      network = network;
      filesystem_usage =
          if filesystem_due.0 then map r.filesystem c.filesystems else c.filesystem_usage;
      backup = if backup_due.0 then r.backup else c.backup;
      ups_snapshot = ups.1;
      smart = if smart_due.0 then r.smart else c.smart;
      next_network_refresh = network_due.1;
      next_filesystem_refresh = filesystem_due.1;
      next_backup_refresh = backup_due.1;
      next_ups_refresh = ups_due.1;
      next_smart_refresh = smart_due.1;
    }

-- `HealthCollector::collect`
unfoldable pub collect_health : Readings → HealthCollector → HealthCollector × HealthSnapshot
collect_health r c =
    let c' = collected r c in
    let (used, total) = read_memory r.total_kib r.available_kib in
    let (internet_status, success_age) = report r.reported c'.connectivity.state in
    (
      c',
      new_health_snapshot c.host_name r.uptime (cpu_percent c.previous_cpu r.cpu) used total
          r.io_pressure r.load_average c'.filesystem_usage c'.backup.0 c'.backup.1 c'.network.up
          c'.network.mbps c'.network.interface internet_status success_age c'.network.ipv4 r.guests
          c'.ups_snapshot c'.smart,
    )
