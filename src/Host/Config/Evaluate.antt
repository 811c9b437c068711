-- ===== src/Host/Config/Evaluate.antt =====
-- host/src/config.rs: `evaluate_health`, from the rules to the report. The panic of `expect` on an
-- invalid rule identifier is `none`.
pub mod Primary
use servatory.Prelude.{
  ℕ, zero, suc, ◌+◌, ◌-◌, Option, none, some, List, [], ◌∷◌, ◌++◌, ltb, if◌then◌else◌, is_some,
  is_none_or, unwrap_or, ok, err, bind, length, take, drop,
}
use servatory.Prelude.Text.{Text, codes, text_eq, starts_with}
use servatory.Protocol.Health.{priority, HealthReport, Incident, rule, new_rule_id}
use servatory.Protocol.Snapshot.{HealthSnapshot}
use servatory.Host.Config.{Config, HealthRule, FilesystemConfig, to_level}
use servatory.Host.Config.Health.{Floats, matches_condition, metrics_for_value}

-- `str::find`, by characters.
find_text : Text → Text → Option ℕ
find_text pattern [] = if starts_with pattern [] then some 0 else none
find_text pattern (c ∷ s) =
    let rest = find_text pattern s in
    if starts_with pattern (c ∷ s) then some 0 else bind rest (λ i. some (i + 1))

-- `str::replace` of a pattern that is not empty: `skip` characters of a match are still to be dropped.
replace_text : (pattern by : Text) (skip : ℕ) → Text → Text
replace_text pattern by skip [] = []
replace_text pattern by zero (c ∷ s) =
    let rest = replace_text pattern by 0 s in
    let behind = replace_text pattern by (length pattern - 1) s in
    if starts_with pattern (c ∷ s) then by ++ behind else c ∷ rest
replace_text pattern by (suc skip) (c ∷ s) = replace_text pattern by skip s

find_label : Text → List FilesystemConfig → Option Text
find_label id [] = none
find_label id (f ∷ fs) =
    let rest = find_label id fs in if text_eq f.id id then some f.label else rest

-- The part of `render_message` that puts in a filesystem's label.
put_label : Config → Text → Text
unfolding find_text find_label replace_text
put_label c template = elim named [
  | none ↦ template
  | some id ↦ elim (find_label id c.sources.filesystems) [
    | none ↦ template
    | some label ↦ replace_text (codes "{filesystem." ++ id ++ codes ".label}") label 0 template
  ]
]
  where
    named : Option Text
    named = bind (find_text (codes "filesystem.") template) λ start.
        let rest = drop (start + 11) template in
        bind (find_text (codes ".label}") rest) λ end. some (take end rest)

-- The fold: an incident replaces the current one only if its priority is higher.
unfoldable pub pick : Option Incident → List Incident → Option Incident
pick current [] = current
pick current (i ∷ is) =
    pick
      (if is_none_or current (λ k. ltb (priority k.level) (priority i.level))
        then some i
        else current)
      is

module _ (fl : Floats) (c : Config) (s : HealthSnapshot) where
  pub render_message : HealthRule → Text
  unfolding put_label find_text replace_text
  render_message r =
      let message = put_label c r.message in
      if is_some (find_text (codes "{value}") message)
      then replace_text (codes "{value}")
          (fl.rounded (unwrap_or (metrics_for_value fl c s r.when) 0)) 0 message
      else message

  -- The incident of a rule that matches.
  unfoldable pub new_incident : HealthRule → Option Incident
  unfolding render_message
  new_incident r = elim (new_rule_id r.id) [
    | err e ↦ none
    | ok id ↦
        some (record { id = rule id; level = to_level r.severity; message = render_message r })
  ]

  -- The loop over the rules.
  unfoldable pub incidents_of : List HealthRule → Option (List Incident)
  unfolding new_incident
  incidents_of [] = some []
  incidents_of (r ∷ rs) =
      let rest = incidents_of rs in
      if matches_condition fl c s r.when
      then bind (new_incident r) (λ i. bind rest (λ is. some (i ∷ is)))
      else rest

  pub report_of : Option Incident → HealthReport
  report_of none = record {
    level = to_level c.health.default_report.severity;
    message = c.health.default_report.message;
  }
  report_of (some i) = record { level = i.level; message = i.message }

  unfoldable pub evaluate_health : Option (HealthReport × List Incident)
  unfolding report_of
  evaluate_health =
      bind (incidents_of c.health.rules)
        (λ incidents. some (report_of (pick none incidents), incidents))
