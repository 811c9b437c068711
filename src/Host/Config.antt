-- ===== src/Host/Config.antt =====
-- host/src/config.rs: the configuration. What `serde_yaml` reads into these types is not modelled.
pub mod Layout
pub mod Pages
pub mod Validate
pub mod Health
pub mod Evaluate
pub mod Examples
mod Tests
use servatory.Prelude.{ℕ, ◌+◌, Bool, Option, none, some, List, [], ◌∷◌, map, if◌then◌else◌, bind}
use servatory.Prelude.Text.{Text, text_eq}
use servatory.Prelude.Time.{Duration}
use servatory.Protocol.Health.{HealthLevel}
use servatory.Protocol.Network.{NotificationPriority}
use servatory.Host.Yaml.{Float, Value}

pub record UsbSerialConfig : Type 0 where
  pub device : Text
  pub reconnect_interval : Duration

pub record ShutdownConfig : Type 0 where
  pub enabled : Bool
  pub hold_time : Duration
  pub animation_delay : Duration

pub record FilesystemConfig : Type 0 where
  pub id : Text
  pub path : Text
  pub label : Text

pub record SmartDeviceConfig : Type 0 where
  pub id : Text
  pub path : Text
  pub label : Text

pub record UpsConfig : Type 0 where
  pub endpoint : Option Text
  pub failures_before_unavailable : ℕ

pub record InternetConfig : Type 0 where
  pub target : Text
  pub interval : Duration
  pub timeout : Duration
  pub link_up_settle_delay : Duration
  pub first_failure_retry_delay : Duration
  pub failures_before_failed : ℕ

-- `smart` stands for `smart.devices`, `proxmox` for `proxmox.backup.task_history_limit`.
pub record SourcesConfig : Type 0 where
  pub filesystems : List FilesystemConfig
  pub smart : List SmartDeviceConfig
  pub ups : UpsConfig
  pub internet : InternetConfig
  pub task_history_limit : ℕ

pub data Severity : Type 0 where
  healthy warning critical : Severity

-- `HealthLevel::from`
abbrev pub to_level : Severity → HealthLevel
to_level healthy = HealthLevel.healthy
to_level warning = HealthLevel.warning
to_level critical = HealthLevel.critical

pub data FilesystemField : Type 0 where
  mounted used_percent : FilesystemField

pub data MetricSelector : Type 0 where
  ups_status ups_stale smart_status network_up internet_status backup_status backup_age cpu_percent
        memory_percent io_pressure_percent :
      MetricSelector
  filesystem : (id : Text) (field : FilesystemField) → MetricSelector

pub record Predicate : Type 0 where
  pub measurement : MetricSelector
  pub equals : Option Value
  pub one_of : Option (List Value)
  pub at_least : Option Float
  pub greater_than : Option Float
  pub missing_or_greater_than : Option Duration

mutual
  pub data Condition : Type 0 where
    all_of : Conditions → Condition
    any_of : Conditions → Condition
    predicate : Predicate → Condition

  pub data Conditions : Type 0 where
    no_conditions : Conditions
    condition : Condition → Conditions → Conditions

pub record HealthRule : Type 0 where
  pub id : Text
  pub severity : Severity
  pub when : Condition
  pub message : Text

pub record HealthDefault : Type 0 where
  pub severity : Severity
  pub message : Text

pub record HealthConfig : Type 0 where
  pub default_report : HealthDefault
  pub rules : List HealthRule

pub data ViewLayout : Type 0 where
  overview resources : ViewLayout
  storage : (filesystem_ids smart_ids : List Text) (filesystems_left : Bool) → ViewLayout
  power_network : (ups_left : Bool) → ViewLayout
  guests : (paginate : Bool) (offset limit : ℕ) → ViewLayout

pub record ViewConfig : Type 0 where
  pub title : Text
  pub layout : ViewLayout

pub record HttpOutput : Type 0 where
  pub enabled : Bool
  pub hostname : Text
  pub port : ℕ
  pub views : List Text

pub data Priority : Type 0 where
  default high urgent : Priority

-- `NotificationPriority::from`
abbrev pub to_notification : Priority → NotificationPriority
to_notification default = NotificationPriority.default
to_notification high = NotificationPriority.high
to_notification urgent = NotificationPriority.urgent

pub record NtfyPriorities : Type 0 where
  pub warning : Priority
  pub critical : Priority
  pub recovery : Priority

pub record NtfyOutput : Type 0 where
  pub enabled : Bool
  pub server : Text
  pub severities : List Severity
  pub priorities : NtfyPriorities
  pub notify_recovery : Bool
  pub repeat_critical : Option Duration
  pub click_url : Option Text

-- `stick_views` stands for `stick.lcd.views`.
pub record OutputsConfig : Type 0 where
  pub stick_views : List Text
  pub http : Option HttpOutput
  pub ntfy : Option NtfyOutput

-- `views` lists the map's entries.
pub record Config : Type 0 where
  pub version : ℕ
  pub update_interval : Duration
  pub usb_serial : UsbSerialConfig
  pub shutdown : ShutdownConfig
  pub sources : SourcesConfig
  pub health : HealthConfig
  pub views : List (Text × ViewConfig)
  pub outputs : OutputsConfig

-- `BTreeMap::get`
abbrev pub get_view : Text → List (Text × ViewConfig) → Option ViewConfig
get_view id [] = none
get_view id ((key, view) ∷ vs) =
    let rest = get_view id vs in if text_eq key id then some view else rest

-- `iter().position(|item| item.id == id)`, by the identifiers.
abbrev pub position : Text → List Text → Option ℕ
position id [] = none
position id (x ∷ xs) =
    let rest = position id xs in if text_eq x id then some 0 else bind rest (λ i. some (i + 1))

abbrev pub filesystem_ids : Config → List Text
filesystem_ids c = map (λ (f : FilesystemConfig). f.id) c.sources.filesystems

abbrev pub smart_ids : Config → List Text
smart_ids c = map (λ (d : SmartDeviceConfig). d.id) c.sources.smart

-- Why a configuration is refused.
pub data ConfigError : Type 0 where
  unsupported_version : ℕ → ConfigError
  not_positive : ConfigError
  animation_too_long : ConfigError
  no_filesystem : ConfigError
  invalid_id duplicate_id : Text → ConfigError
  empty_label bad_path : Text → ConfigError
  empty_message : ConfigError
  empty_condition : ConfigError
  not_one_comparison : ConfigError
  unknown_id : Text → ConfigError
  empty_views : ConfigError
  unknown_view : Text → ConfigError
  invalid_http : ConfigError
  invalid_ntfy : ConfigError
  invalid_layout : ConfigError
  out_of_range : ConfigError
  invalid_display : ConfigError
  oversized_manifest : ConfigError
