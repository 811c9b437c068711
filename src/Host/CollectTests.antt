-- ===== src/Host/CollectTests.antt =====
-- host/src/health.rs: the search for an interface and the backup state at concrete inputs.
use servatory.Prelude.{
  ℕ, ◌≡◌, refl, sym, ap, subst, Bool, true, false, Option, none, some, List, [], ◌∷◌, map, arith,
  if◌then◌else◌, unwrap_or, bind, All,
}
use servatory.Prelude.Text.{Text, codes, text_eq, trim}
use servatory.Protocol.Snapshot.{BackupJobStatus}
use servatory.Prelude.Time.{secs}
use servatory.Protocol.Snapshot.{GuestSnapshot, UpsSnapshot, missing_filesystem}
use servatory.Host.Probe.{ConnectivityProbe, new_configured}
use servatory.Host.Ups.{UpsCollector, collect}
use servatory.Host.Collect.{
  Readings, HealthCollector, new_health_collector, no_ipv4, ups_refresh_interval,
}
use servatory.Host.Collect.Sampling.{
  Call, collects, collects-samples, samples, network_of, filesystems_of, backup_of, ups_of,
  smart_of,
}
use servatory.Host.Yaml.{Number}
use servatory.Host.Json.{
  Json, number, string, array, object, element, no_elements, field, no_fields, array_of,
}
use servatory.Host.Interfaces.{
  Sysfs, contains, find_lower, resolve_physical_interface, resolve_interface, visit, read_link,
}
use servatory.Host.Interfaces.Search.{Exists, IsClosed, resolve-terminates}
use servatory.Host.Backup.{parse_backup_job_status, backup_job_enabled}
use servatory.Host.Backup.Reference.{described, parse_backup_job_status-described}

-- A bridge of a tap and a port, and two interfaces one below the other.
abbrev names : List Text
names = codes "vmbr0" ∷ codes "tap1" ∷ codes "eno1" ∷ codes "a" ∷ codes "b" ∷ []

abbrev brif : Text → Option (List Text)
brif i = if text_eq i (codes "vmbr0") then some (codes "tap1" ∷ codes "eno1" ∷ []) else none

abbrev entries : Text → Option (List Text)
entries i =
    if text_eq i (codes "a")
    then some (codes "mtu" ∷ codes "lower_b" ∷ [])
    else if text_eq i (codes "b")
    then some (codes "lower_a" ∷ [])
    else none

abbrev links : Sysfs
links = record {
  exists = λ i. contains names i;
  active_slave = λ i. none;
  brif = brif;
  entries = entries;
  carrier = λ i. some (codes "1\n");
  operstate = λ i. none;
  speed = λ i. if text_eq i (codes "tap1") then some (codes "10000\n") else some (codes "1000\n");
  has_device = λ i. text_eq i (codes "eno1");
}

ports_named :
    (b : Bool) (es : List Text)
    → (if b then some (codes "tap1" ∷ codes "eno1" ∷ []) else none) ≡ some es
    → All (λ e. contains names e ≡ true) es
unfolding text_eq
ports_named true es e =
    subst (All (λ e. contains names e ≡ true)) (ap (λ o. unwrap_or o []) e) (refl, (refl, tt))
ports_named false es e = absurd (ground arith)

lower_named :
    (b c : Bool) (lower : Text)
    → bind
        (if b
          then some (codes "mtu" ∷ codes "lower_b" ∷ [])
          else if c
          then some (codes "lower_a" ∷ [])
          else none)
        (find_lower links)
      ≡ some lower
    → contains names lower ≡ true
unfolding text_eq
lower_named true c lower e = sym (ap (λ o. contains names (unwrap_or o [])) e)
lower_named false true lower e = sym (ap (λ o. contains names (unwrap_or o [])) e)
lower_named false false lower e = absurd (ground arith)

links_closed : IsClosed links names
unfolding text_eq
links_closed = record {
  bonds = λ i t n e h. absurd (ground arith);
  bridges = λ i es n e. ports_named (text_eq i (codes "vmbr0")) es e;
  lowers = λ i lower n e. lower_named (text_eq i (codes "a")) (text_eq i (codes "b")) lower e;
}

resolve-terminates_example :
    (found : Option Text) × (resolve_physical_interface links 6 (codes "a") ≡ some found)
    × Exists links names found
unfolding text_eq
resolve-terminates_example =
    resolve-terminates links names 6 (codes "a") links_closed refl (omega arith)

-- The port is preferred to the faster tap.
bridge_port : resolve_physical_interface links 6 (codes "vmbr0") ≡ some (some (codes "eno1"))
unfolding resolve_interface visit read_link text_eq trim
bridge_port = refl

-- The search that meets `a` again gives the last interface before it.
loop_end : resolve_physical_interface links 6 (codes "a") ≡ some (some (codes "b"))
unfolding resolve_interface visit read_link text_eq trim
loop_end = refl

abbrev task : (status : Text) (start end : ℕ) → Json
task status start end = object (
    field (codes "status") (string status) (
      field (codes "starttime") (number (Number.natural start))
        (field (codes "endtime") (number (Number.natural end)) no_fields)))

abbrev one_job : Json
one_job = array (element (object no_fields) no_elements)

abbrev two_tasks : Json
two_tasks = array (
    element (task (codes "OK") 300 400) (
      element (task (codes "unable to read") 500 600)
        (element (task (codes "OK") 100 200) no_elements)))

-- The task that started last failed; the last success is 100 seconds ago.
parse_backup_job_status-described_example :
    parse_backup_job_status (some one_job) (some two_tasks) (codes "pve") 500
    ≡ described (array_of (some one_job)) (array_of (some two_tasks)) (codes "pve") 500
parse_backup_job_status-described_example =
    parse_backup_job_status-described (some one_job) (some two_tasks) (codes "pve") 500

failed_backup :
    parse_backup_job_status (some one_job) (some two_tasks) (codes "pve") 500
    ≡ (BackupJobStatus.failed, some 100)
unfolding parse_backup_job_status backup_job_enabled text_eq
failed_backup = refl

abbrev no_guests : GuestSnapshot
no_guests = record { guests = [] }

abbrev reading : (now mbps : ℕ) → Readings
reading now mbps = record {
  now = now;
  cpu = none;
  total_kib = 2048;
  available_kib = 1024;
  network = record { interface = codes "eno1"; up = true; mbps = mbps; ipv4 = no_ipv4 };
  probe_now = now;
  probe_failed = now;
  spawns = true;
  reported = now;
  filesystem = λ path. missing_filesystem;
  backup = (BackupJobStatus.healthy, some mbps);
  ups = [];
  smart = record { devices = [] };
  uptime = 1;
  io_pressure = 0;
  load_average = 0;
  guests = no_guests;
}

abbrev unprobed : ConnectivityProbe
unprobed = record { state = new_configured 0 (secs 30) (secs 3) (secs 5) 2; running = [] }

abbrev collector : HealthCollector
collector = new_health_collector none 3 (codes "/" ∷ []) unprobed (codes "pve") 0

-- Three calls, the second too early for the network and the third for the backup.
abbrev calls : List Call
calls =
    (λ p. p, reading 0 10) ∷ (λ p. p, reading (secs 9) 100) ∷ (λ p. p, reading (secs 10) 1000) ∷ []

collects-samples_example :
    let c = collects calls collector in
    (network_of c ≡ (secs 20, (reading 0 1000).network))
    × (filesystems_of c ≡ (secs 30, missing_filesystem ∷ []))
    × (backup_of c ≡ (secs 60, (BackupJobStatus.healthy, some 10)))
    × (ups_of c
        ≡ samples ups_refresh_interval
            (map
              (λ (k : Call). (k.1.now, λ (v : UpsCollector × UpsSnapshot). collect k.1.ups v.0))
              calls)
            (ups_of collector))
    × (smart_of c ≡ (secs 60, record { devices = [] }))
collects-samples_example = collects-samples calls collector
