-- ===== src/Host/Config/Validate.antt =====
-- host/src/config.rs: `validate`, what a configuration must satisfy to be used.
pub mod Rules
use servatory.Prelude.{
  ℕ, ◌+◌, Bool, not, ◌&&◌, ◌||◌, Option, none, some, List, [], ◌∷◌, map, ltb, leb, ◌==◌,
  if◌then◌else◌, is_some, is_some_and, Result, ok, err, and_then, is_ok, is_empty, all, any,
}
use servatory.Prelude.Text.{Text, codes, len, text_eq, starts_with, is_alphanumeric}
use servatory.Protocol.Health.{SoftwareVersion, max_rule_id_len, is_rule_id_char}
use servatory.Protocol.Frame.{Codec, encode_host, max_host_frame_len}
use servatory.Protocol.Message.{HostMessage, display_config, network_config}
use servatory.Host.Config.{
  Config, ConfigError, unsupported_version, not_positive, animation_too_long, no_filesystem,
  invalid_id, duplicate_id, empty_label, bad_path, empty_message, empty_condition,
  not_one_comparison, unknown_id, empty_views, unknown_view, invalid_http, invalid_ntfy,
  oversized_manifest, FilesystemConfig, SmartDeviceConfig, HealthRule, Condition, Conditions,
  all_of, any_of, predicate, no_conditions, condition, Predicate, MetricSelector, filesystem,
  HttpOutput, NtfyOutput, Severity, get_view, filesystem_ids, smart_ids,
}
use servatory.Host.Config.Pages as Pages

abbrev pub Check : Type 0
Check = Result Unit ConfigError

-- `if test { bail!(e) }`
unfoldable pub refuse_if : Bool → ConfigError → Check
refuse_if test e = if test then err e else ok tt

unfoldable pub and_check : Check → Check → Check
and_check (ok u) k = k
and_check (err e) k = err e

abbrev is_valid_id : Text → Bool
is_valid_id id = not (is_empty id || ltb max_rule_id_len (len id) || not (all is_rule_id_char id))

-- The loop of `validate_ids`, with the identifiers seen.
unfoldable pub check_ids : (seen : List Text) → List Text → Check
check_ids seen [] = ok tt
check_ids seen (id ∷ ids) =
    and_check (refuse_if (not (is_valid_id id)) (invalid_id id))
      (and_check (refuse_if (any (text_eq id) seen) (duplicate_id id)) (check_ids (id ∷ seen) ids))

unfoldable pub validate_ids : List Text → Check
validate_ids = check_ids []

-- A loop whose rounds may each refuse.
abbrev pub check_all : {A : Type 0} → (A → Check) → List A → Check
check_all f [] = ok tt
check_all f (x ∷ xs) = and_check (f x) (check_all f xs)

validate_message : Text → Check
validate_message message = refuse_if (is_empty message) empty_message

abbrev pub count_some : {A : Type 0} → Option A → ℕ
count_some none = 0
count_some (some a) = 1

abbrev operators : Predicate → ℕ
operators p =
    count_some p.equals
    + count_some p.one_of
    + count_some p.at_least
    + count_some p.greater_than
    + count_some p.missing_or_greater_than

module _ (c : Config) where
  known_measurement : MetricSelector → Check
  known_measurement (filesystem id field) =
      refuse_if (not (any (λ x. text_eq x id) (filesystem_ids c))) (unknown_id id)
  known_measurement _ = ok tt

  unfoldable mutual
    unfolding known_measurement

    pub validate_condition : Condition → Check
    validate_condition (all_of cs) = validate_conditions cs
    validate_condition (any_of cs) = validate_conditions cs
    validate_condition (predicate p) =
        and_check (refuse_if (not (operators p == 1)) not_one_comparison)
          (known_measurement p.measurement)

    pub validate_conditions : Conditions → Check
    validate_conditions no_conditions = err empty_condition
    validate_conditions (condition k cs) = and_check (validate_condition k) (validate_rest cs)

    pub validate_rest : Conditions → Check
    validate_rest no_conditions = ok tt
    validate_rest (condition k cs) = and_check (validate_condition k) (validate_rest cs)

  check_filesystem : FilesystemConfig → Check
  check_filesystem f =
      and_check (refuse_if (is_empty f.label) (empty_label f.id))
        (refuse_if (not (starts_with (codes "/") f.path)) (bad_path f.id))

  check_device : SmartDeviceConfig → Check
  check_device d =
      and_check (refuse_if (is_empty d.label) (empty_label d.id))
        (refuse_if (not (starts_with (codes "/dev/") d.path)) (bad_path d.id))

  check_rule : HealthRule → Check
  unfolding validate_message
  check_rule r = and_check (validate_condition r.when) (validate_message r.message)

  is_host_char : ℕ → Bool
  is_host_char k = is_alphanumeric k || k == b'-'

  check_http : Option HttpOutput → Check
  unfolding is_host_char
  check_http none = ok tt
  check_http (some h) = and_check (refuse_if (h.enabled && is_empty h.views) empty_views) (
      and_check
        (check_all (λ id. refuse_if (not (is_some (get_view id c.views))) (unknown_view id))
          h.views)
        (refuse_if (is_empty h.hostname || not (all is_host_char h.hostname) || h.port == 0)
          invalid_http))

  check_ntfy : Option NtfyOutput → Check
  check_ntfy none = ok tt
  check_ntfy (some n) =
      and_check
        (refuse_if
          (n.enabled
            && not (starts_with (codes "https://") n.server)
            && not (starts_with (codes "http://") n.server))
          invalid_ntfy)
        (and_check (refuse_if (n.enabled && is_empty n.severities) invalid_ntfy) (
          and_check (refuse_if (Pages.has_severity Severity.healthy n.severities) invalid_ntfy)
            (refuse_if (n.enabled && is_some_and n.repeat_critical (λ d. d == 0)) invalid_ntfy)))

  validate_outputs : Check
  unfolding check_http check_ntfy
  validate_outputs = and_check (check_http c.outputs.http) (check_ntfy c.outputs.ntfy)

  fits : Codec HostMessage → HostMessage → Check
  fits codec m = refuse_if (not (is_ok (encode_host codec m max_host_frame_len))) oversized_manifest

  validate_manifest_sizes : Codec HostMessage → SoftwareVersion → Check
  unfolding fits
  validate_manifest_sizes codec version = and_then (Pages.display_config c version 0) λ display.
      and_check (fits codec (display_config display))
        (and_then (Pages.network_config c 0) (λ network. fits codec (network_config network)))

  -- The checks of the settings, before those of the rules.
  check_settings : Check
  unfolding check_filesystem check_device
  check_settings = and_check (refuse_if (not (c.version == 2)) (unsupported_version c.version)) (
      and_check (refuse_if (c.update_interval == 0) not_positive) (
        and_check (refuse_if (c.usb_serial.reconnect_interval == 0) not_positive) (
          and_check (refuse_if (c.shutdown.hold_time == 0) not_positive) (
            and_check
              (refuse_if (leb c.shutdown.hold_time c.shutdown.animation_delay) animation_too_long)
              (and_check (refuse_if (is_empty c.sources.filesystems) no_filesystem) (
                and_check (validate_ids (filesystem_ids c)) (
                  and_check (validate_ids (smart_ids c)) (
                    and_check (check_all check_filesystem c.sources.filesystems) (
                      and_check (check_all check_device c.sources.smart) (
                        and_check
                          (refuse_if (c.sources.ups.failures_before_unavailable == 0) not_positive)
                          (and_check (refuse_if (c.sources.task_history_limit == 0) not_positive) (
                            refuse_if
                              (is_empty c.sources.internet.target
                                || c.sources.internet.interval == 0
                                || c.sources.internet.timeout == 0
                                || c.sources.internet.failures_before_failed == 0)
                              not_positive))))))))))))

  rule_ids : List Text
  rule_ids = map (λ (r : HealthRule). r.id) c.health.rules

  unfoldable pub validate : Codec HostMessage → SoftwareVersion → Check
  unfolding check_settings check_rule validate_outputs validate_manifest_sizes rule_ids
      validate_message
  validate codec version = and_check check_settings (
      and_check (validate_message c.health.default_report.message) (
        and_check (validate_ids rule_ids) (
          and_check (check_all check_rule c.health.rules)
            (and_check validate_outputs (validate_manifest_sizes codec version)))))
