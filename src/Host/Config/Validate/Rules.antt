-- ===== src/Host/Config/Validate/Rules.antt =====
-- host/src/config.rs: what a validated configuration's rules can rely on.
use servatory.Prelude.{
  ◌≡◌, refl, ◌⊎◌, inl, inr, Bool, true, false, none, some, List, [], ◌∷◌, ◌++◌, map, arith,
  Bool-cases, ok, err, is_ok, any, Result-cases,
}
use servatory.Prelude.Text.{Text, text_eq}
use servatory.Protocol.Health.{
  SoftwareVersion, HealthReport, Incident, rule, RuleId, RuleIdError, new_rule_id,
}
use servatory.Protocol.Snapshot.{HealthSnapshot}
use servatory.Protocol.Frame.{Codec}
use servatory.Protocol.Message.{HostMessage}
use servatory.Host.Config.{Config, to_level, HealthRule, ConfigError}
use servatory.Host.Config.Health.{Floats, matches_condition}
use servatory.Host.Config.Evaluate.{
  incidents_of, new_incident, evaluate_health, render_message, report_of, pick,
}
use servatory.Host.Config.Pages.{display_config, network_config}
use servatory.Host.Config.Validate.{
  Check, and_check, refuse_if, check_ids, validate_ids, rule_ids, validate, is_valid_id,
  validate_manifest_sizes,
}

-- Each identifier is a valid one and differs from those behind it.
abbrev pub AreIds : List Text → Type 0
AreIds [] = Unit
AreIds (id ∷ ids) =
    (is_ok (new_rule_id id) ≡ true) × (any (λ s. text_eq s id) ids ≡ false) × AreIds ids

both_checks : (a b : Check) → is_ok (and_check a b) ≡ true → (is_ok a ≡ true) × (is_ok b ≡ true)
unfolding and_check
both_checks (ok u) b h = (refl, h)
both_checks (err e) b h = absurd (ground arith)

new_rule_id-valid : (id : Text) → is_valid_id id ≡ true → is_ok (new_rule_id id) ≡ true
unfolding new_rule_id
new_rule_id-valid id h = ground arith

any-middle :
    (p : Text → Bool) (before : List Text) (x : Text) (after : List Text)
    → any p (before ++ x ∷ after) ≡ false
    → p x ≡ false
any-middle p [] x after h = ground arith
any-middle p (b ∷ before) x after h = any-middle p before x after (ground arith)

refuse_if-ok : (test : Bool) (e : ConfigError) → is_ok (refuse_if test e) ≡ true → test ≡ false
unfolding refuse_if
refuse_if-ok true e h = absurd (ground arith)
refuse_if-ok false e h = refl

-- What one round of the loop has checked.
record Checked (seen : List Text) (id : Text) (ids : List Text) : Type 0 where
  valid : is_valid_id id ≡ true
  unseen : any (text_eq id) seen ≡ false
  rest : is_ok (check_ids (id ∷ seen) ids) ≡ true

check_ids-Checked :
    (seen : List Text) (id : Text) (ids : List Text)
    → is_ok (check_ids seen (id ∷ ids)) ≡ true
    → Checked seen id ids
unfolding check_ids
check_ids-Checked seen id ids h =
    let (a, k) = both_checks _ _ h in
    let (b, r) = both_checks _ _ k in
    record { valid = ground (arith, refuse_if-ok _ _ a); unseen = refuse_if-ok _ _ b; rest = r }

-- What has been seen does not come again.
unseen_again :
    (before : List Text) (x : Text) (after ids : List Text)
    → is_ok (check_ids (before ++ x ∷ after) ids) ≡ true
    → any (λ s. text_eq s x) ids ≡ false
unseen_again before x after [] h = refl
unseen_again before x after (id ∷ ids) h =
    let k = check_ids-Checked (before ++ x ∷ after) id ids h in
    rw (any-middle (text_eq id) before x after k.unseen)
      (unseen_again (id ∷ before) x after ids k.rest)

pub check_ids-AreIds : (seen ids : List Text) → is_ok (check_ids seen ids) ≡ true → AreIds ids
check_ids-AreIds seen [] h = tt
check_ids-AreIds seen (id ∷ ids) h =
    let k = check_ids-Checked seen id ids h in
    (
      new_rule_id-valid id k.valid,
      unseen_again [] id seen ids k.rest,
      check_ids-AreIds (id ∷ seen) ids k.rest,
    )

module _ (fl : Floats) (c : Config) (s : HealthSnapshot) where
  incidents_of-total :
      (rs : List HealthRule)
      → AreIds (map (λ (r : HealthRule). r.id) rs)
      → (is : List Incident) × (incidents_of fl c s rs ≡ some is)
  unfolding incidents_of new_incident
  incidents_of-total [] h = ([], refl)
  incidents_of-total (r ∷ rs) h =
      let (is, e) = incidents_of-total rs h.2 in named is e (Result-cases (new_rule_id r.id))
    where
      named :
          (is : List Incident)
          → incidents_of fl c s rs ≡ some is
          → ((id : RuleId) × (new_rule_id r.id ≡ ok id))
            ⊎ ((e : RuleIdError) × (new_rule_id r.id ≡ err e))
          → (js : List Incident) × (incidents_of fl c s (r ∷ rs) ≡ some js)
      named is e (inr (x, f)) = absurd (ground (arith, h.0, f))
      named is e (inl (id, f)) = elim (Bool-cases (matches_condition fl c s r.when)) [
        | inl m ↦ (
          record { id = rule id; level = to_level r.severity; message = render_message fl c s r }
              ∷ is,
          rw (m, new_incident, f, e) refl,
        )
        | inr m ↦ (is, rw (m, e) refl)
      ]

evaluated :
    (c : Config) (fl : Floats) (s : HealthSnapshot)
    → ((is : List Incident) × (incidents_of fl c s c.health.rules ≡ some is))
    → (r : HealthReport) × (is : List Incident) × (evaluate_health fl c s ≡ some (r, is))
unfolding evaluate_health
evaluated c fl s (is, e) = (report_of fl c s (pick none is), is, rw e refl)

-- The rules of a valid configuration have valid and distinct identifiers, so that evaluating them never
-- panics, whatever the snapshot.
pub validate-evaluates :
    (codec : Codec HostMessage) (version : SoftwareVersion) (c : Config)
    → is_ok (validate c codec version) ≡ true
    → AreIds (map (λ (r : HealthRule). r.id) c.health.rules)
      × ((fl : Floats) (s : HealthSnapshot)
          → (r : HealthReport) × (is : List Incident) × (evaluate_health fl c s ≡ some (r, is)))
unfolding validate validate_ids rule_ids
validate-evaluates codec version c h =
    let (a, k) = both_checks _ _ h in
    let (b, k2) = both_checks _ _ k in
    let (ids, k3) = both_checks _ _ k2 in
    let valid = check_ids-AreIds [] _ ids in
    (valid, λ fl s. evaluated c fl s (incidents_of-total fl c s c.health.rules valid))

sizes-made :
    (codec : Codec HostMessage) (version : SoftwareVersion) (c : Config)
    → is_ok (validate_manifest_sizes c codec version) ≡ true
    → (is_ok (display_config c version 0) ≡ true) × (is_ok (network_config c 0) ≡ true)
unfolding validate_manifest_sizes
sizes-made codec version c h = elim (Result-cases (display_config c version 0)) [
  | inr (e, f) ↦ absurd (ground (arith, f))
  | inl (display, f) ↦
      let k = both_checks _ _ (rw f at h) in
      (
        rw f,
        elim (Result-cases (network_config c 0)) [
          | inr (e, g) ↦ absurd (ground (arith, g, k.1))
          | inl (network, g) ↦ rw g
        ],
      )
]

-- The manifests of a valid configuration could be made for no guests.
pub validate-manifests :
    (codec : Codec HostMessage) (version : SoftwareVersion) (c : Config)
    → is_ok (validate c codec version) ≡ true
    → (is_ok (display_config c version 0) ≡ true) × (is_ok (network_config c 0) ≡ true)
unfolding validate
validate-manifests codec version c h =
    let (a, k) = both_checks _ _ h in
    let (b, k2) = both_checks _ _ k in
    let (ids, k3) = both_checks _ _ k2 in
    let (rules, k4) = both_checks _ _ k3 in
    let (outputs, sizes) = both_checks _ _ k4 in sizes-made codec version c sizes
