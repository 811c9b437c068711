-- ===== src/Host/Config/Health.antt =====
-- host/src/config.rs: `evaluate_health`, the rules against a snapshot. The arithmetic of `f64` is the
-- parameter `Floats`.
use servatory.Prelude.{
  ℕ, ◌*◌, ◌/◌, Bool, true, false, not, ◌&&◌, ◌||◌, Option, none, some, leb, ◌==◌, if◌then◌else◌,
  is_some_and, bind, get_elem?, any,
}
use servatory.Prelude.Text.{Text, codes, text_eq}
use servatory.Prelude.Time.{Duration}
use servatory.Protocol.Snapshot.{
  HealthSnapshot, UpsStatus, SmartStatus, InternetStatus, BackupJobStatus, FilesystemUsage,
  SmartDeviceSummary,
}
use servatory.Host.Yaml.{Float, Value, Number, as_str, as_bool, is_null, or_else}
use servatory.Host.Config.{
  Config, Condition, Conditions, all_of, any_of, predicate, no_conditions, condition, Predicate,
  MetricSelector, ups_status, ups_stale, smart_status, network_up, internet_status, backup_status,
  backup_age, cpu_percent, memory_percent, io_pressure_percent, filesystem, FilesystemField,
  mounted, used_percent, position, filesystem_ids,
}

pub record Floats : Type 0 where
  pub from_u32 : ℕ → Float
  pub from_number : Number → Option Float
  pub as_secs_f64 : Duration → Float
  pub ge : Float → Float → Bool
  pub gt : Float → Float → Bool
  pub eq : Float → Float → Bool
  -- `format!("{value:.0}")`
  pub rounded : Float → Text

pub data Metric : Type 0 where
  bool : Bool → Metric
  number : Float → Metric
  text : Text → Metric
  missing : Metric

-- The strings of the statuses.
ups_text : UpsStatus → Text
ups_text UpsStatus.not_configured = codes "not_configured"
ups_text UpsStatus.unknown = codes "unknown"
ups_text UpsStatus.online = codes "online"
ups_text UpsStatus.on_battery = codes "on_battery"
ups_text UpsStatus.low_battery = codes "low_battery"
ups_text UpsStatus.charging = codes "charging"
ups_text UpsStatus.bypass = codes "bypass"
ups_text UpsStatus.output_off = codes "output_off"
ups_text UpsStatus.replace_battery = codes "replace_battery"
ups_text UpsStatus.unavailable = codes "unavailable"

smart_text : SmartStatus → Text
smart_text SmartStatus.healthy = codes "healthy"
smart_text SmartStatus.warning = codes "warning"
smart_text SmartStatus.failed = codes "failed"
smart_text SmartStatus.sleeping = codes "sleeping"
smart_text SmartStatus.unknown = codes "unknown"

internet_text : InternetStatus → Text
internet_text InternetStatus.checking = codes "checking"
internet_text InternetStatus.reachable = codes "reachable"
internet_text InternetStatus.missed = codes "missed"
internet_text InternetStatus.failed = codes "failed"

backup_text : BackupJobStatus → Text
backup_text BackupJobStatus.unknown = codes "unknown"
backup_text BackupJobStatus.no_job = codes "no_job"
backup_text BackupJobStatus.healthy = codes "healthy"
backup_text BackupJobStatus.running = codes "running"
backup_text BackupJobStatus.failed = codes "failed"
backup_text BackupJobStatus.stale = codes "stale"

-- `memory_percent`: a quotient above 255 is no `u8` and counts as 100.
unfoldable pub memory_percent_of : HealthSnapshot → ℕ
memory_percent_of s =
    let percent = s.memory_used_mib * 100 / s.memory_total_mib in
    if s.memory_total_mib == 0 then 0 else if leb percent 255 then percent else 100

module _ (fl : Floats) where
  metric_equals : Metric → Value → Bool
  metric_equals (bool b) v = is_some_and (as_bool v) (λ c. if b then c else not c)
  metric_equals (number x) (Value.number n) = is_some_and (fl.from_number n) (λ y. fl.eq y x)
  metric_equals (number x) (Value.tagged t v) = metric_equals (number x) v
  metric_equals (number x) v = false
  metric_equals (text s) v = is_some_and (as_str v) (text_eq s)
  metric_equals missing v = is_null v

  is_above : (Float → Float → Bool) → Float → Metric → Bool
  is_above test limit (number x) = test x limit
  is_above test limit _ = false

  is_missing : Metric → Bool
  is_missing missing = true
  is_missing _ = false

  -- The comparisons in the order of the code; the first that is given decides.
  matches_predicate : Metric → Predicate → Bool
  unfolding metric_equals is_above is_missing
  matches_predicate m p = elim p.equals [
    | some expected ↦ metric_equals m expected
    | none ↦ elim p.one_of [
      | some expected ↦ any (metric_equals m) expected
      | none ↦ elim p.at_least [
        | some limit ↦ is_above fl.ge limit m
        | none ↦ elim p.greater_than [
          | some limit ↦ is_above fl.gt limit m
          | none ↦ elim p.missing_or_greater_than [
            | some limit ↦ is_missing m || is_above fl.gt (fl.as_secs_f64 limit) m
            | none ↦ false
          ]
        ]
      ]
    ]
  ]

  usage_metric : FilesystemField → Option FilesystemUsage → Metric
  usage_metric field none = missing
  usage_metric mounted (some u) = bool u.mounted
  usage_metric used_percent (some u) = number (fl.from_u32 u.used_percent)

  module _ (c : Config) (s : HealthSnapshot) where
    metric : MetricSelector → Metric
    unfolding usage_metric ups_text internet_text backup_text memory_percent_of
    metric ups_status = text (ups_text s.ups.status)
    metric ups_stale = bool s.ups.stale
    metric smart_status = missing
    metric network_up = bool s.network_up
    metric internet_status = text (internet_text s.internet_status)
    metric backup_status = text (backup_text s.backup_job_status)
    metric backup_age = elim s.last_successful_backup_age_seconds [
      | none ↦ missing
      | some age ↦ number (fl.from_u32 age)
    ]
    metric cpu_percent = number (fl.from_u32 s.cpu_percent)
    metric memory_percent = number (fl.from_u32 (memory_percent_of s))
    metric io_pressure_percent = number (fl.from_u32 s.io_pressure_percent)
    metric (filesystem id field) =
        usage_metric field (bind (position id (filesystem_ids c)) (get_elem? s.filesystems))

    is_smart : MetricSelector → Bool
    is_smart smart_status = true
    is_smart _ = false

    matches_selector : Predicate → Bool
    unfolding matches_predicate metric is_smart smart_text
    matches_selector p =
        if is_smart p.measurement
        then any (λ (d : SmartDeviceSummary). matches_predicate (text (smart_text d.status)) p)
            s.smart.devices
        else matches_predicate (metric p.measurement) p

    unfoldable mutual
      unfolding matches_selector

      pub matches_condition : Condition → Bool
      matches_condition (all_of cs) = all_match cs
      matches_condition (any_of cs) = any_matches cs
      matches_condition (predicate p) = matches_selector p

      pub all_match : Conditions → Bool
      all_match no_conditions = true
      all_match (condition k cs) = matches_condition k && all_match cs

      pub any_matches : Conditions → Bool
      any_matches no_conditions = false
      any_matches (condition k cs) = matches_condition k || any_matches cs

    as_number : Metric → Option Float
    as_number (number x) = some x
    as_number _ = none

    -- `metrics_for_value`: the first measurement that is a number.
    mutual
      pub metrics_for_value : Condition → Option Float
      metrics_for_value (all_of cs) = first_value cs
      metrics_for_value (any_of cs) = first_value cs
      metrics_for_value (predicate p) = as_number (metric p.measurement)

      pub first_value : Conditions → Option Float
      first_value no_conditions = none
      first_value (condition k cs) = or_else (metrics_for_value k) (first_value cs)
