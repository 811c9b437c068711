-- ===== src/Protocol/Health.antt =====
-- protocol/src/lib.rs: health levels, rule identifiers, incidents and reports.
use servatory.Prelude.{
  ℕ, Bool, true, false, ◌||◌, ◌==◌, ltb, if◌then◌else◌, all, is_empty, Result, ok, err,
}
use servatory.Prelude.Text.{Text, codes, len, text_eq, is_alphanumeric}

pub data HealthLevel : Type 0 where
  healthy warning critical : HealthLevel

abbrev pub priority : HealthLevel → ℕ
priority healthy = 0
priority warning = 1
priority critical = 2

abbrev pub level_eq : HealthLevel → HealthLevel → Bool
level_eq a b = priority a == priority b

abbrev pub max_rule_id_len : ℕ
max_rule_id_len = 48

pub record RuleId : Type 0 where
  pub as_str : Text

pub data RuleIdError : Type 0 where
  rule_id_error : RuleIdError

abbrev pub is_rule_id_char : ℕ → Bool
is_rule_id_char c = is_alphanumeric c || c == b'_' || c == b'-'

-- `RuleId::new`. Over characters: a byte of a longer UTF-8 sequence is in none of the ranges, as is
-- the character that it belongs to.
unfoldable pub new_rule_id : Text → Result RuleId RuleIdError
new_rule_id value =
    if is_empty value || ltb max_rule_id_len (len value) || not_all value
    then err rule_id_error
    else ok (record { as_str = value })
  where
    not_all : Text → Bool
    not_all s = if all is_rule_id_char s then false else true

pub data StickIncident : Type 0 where
  host_offline : StickIncident

pub data IncidentId : Type 0 where
  rule : RuleId → IncidentId
  stick : StickIncident → IncidentId

abbrev pub incident_id_eq : IncidentId → IncidentId → Bool
incident_id_eq (rule r) (rule s) = text_eq r.as_str s.as_str
incident_id_eq (rule r) (stick s) = false
incident_id_eq (stick host_offline) (rule s) = false
incident_id_eq (stick host_offline) (stick host_offline) = true

pub record Incident : Type 0 where
  pub id : IncidentId
  pub level : HealthLevel
  pub message : Text

pub record SoftwareVersion : Type 0 where
  pub as_str : Text

pub record HealthReport : Type 0 where
  pub level : HealthLevel
  pub message : Text

-- `HealthReport::healthy`
abbrev pub healthy_report : HealthReport
healthy_report = record { level = healthy; message = codes "HEALTHY" }
