-- ===== src/Host/Config/Tests.antt =====
-- host/src/config.rs: the theorems at a small configuration.
use servatory.Prelude.{
  ℕ, ◌*◌, ◌<◌, ◌≡◌, refl, true, some, List, [], ◌∷◌, arith, ok, is_ok, length, get_elem?, All,
}
use servatory.Prelude.Text.{codes, text_eq}
use servatory.Protocol.Frame.{encode}
use servatory.Protocol.Health.{HealthLevel, HealthReport, Incident, rule, new_rule_id}
use servatory.Protocol.Display.{DisplayView, DisplayPage, unknown_version, new_display_config}
use servatory.Protocol.Snapshot.{HealthSnapshot}
use servatory.Host.Config.Examples.{small, offline_host, floats, short_codec}
use servatory.Host.Config.Pages.{
  display_config, network_config, view_of, guest_pages, storage_pages, compile_pages_for,
  view_pages, pages_of,
}
use servatory.Host.Config.Pages.Chunks.{storage_pages_complete, filesystems_of, devices_of, Fits}
use servatory.Host.Config.Pages.Guests.{guest_pages-covers}
use servatory.Host.Config.Pages.Total.{manifests-total}
use servatory.Host.Config.Health.{Floats, matches_condition}
use servatory.Host.Config.Evaluate.{evaluate_health, incidents_of, new_incident, pick}
use servatory.Host.Config.Evaluate.Primary.{Reports, evaluate_health-Reports}
use servatory.Host.Config.Validate.{
  validate, validate_condition, and_check, refuse_if, validate_ids, check_ids,
}
use servatory.Host.Config.Validate.Rules.{AreIds, validate-evaluates}

validate-evaluates_example :
    AreIds (codes "link" ∷ [])
    × ((fl : Floats) (s : HealthSnapshot)
        → (r : HealthReport) × (is : List Incident) × (evaluate_health fl small s ≡ some (r, is)))
unfolding validate and_check refuse_if validate_condition text_eq validate_ids check_ids
    display_config network_config compile_pages_for pages_of view_pages guest_pages
    new_display_config encode
validate-evaluates_example = validate-evaluates short_codec unknown_version small refl

abbrev link_lost : Incident
link_lost = record {
  id = rule (record { as_str = codes "link" });
  level = HealthLevel.critical;
  message = codes "LINK DOWN";
}

evaluate_health-Reports_example :
    Reports floats small offline_host
      (record { level = HealthLevel.critical; message = codes "LINK DOWN" })
      (link_lost ∷ [])
unfolding evaluate_health incidents_of new_incident pick matches_condition new_rule_id text_eq
evaluate_health-Reports_example = evaluate_health-Reports floats small offline_host refl

manifests-total_example :
    (is_ok (display_config small unknown_version 9) ≡ true)
    × (is_ok (network_config small 9) ≡ true)
unfolding display_config network_config compile_pages_for pages_of view_pages guest_pages
    new_display_config text_eq
manifests-total_example = manifests-total small 9 (omega arith) unknown_version refl refl

guest_pages-covers_example :
    (pages : List DisplayView) × (guest_pages (codes "GUESTS") 5 ≡ ok pages)
    × ((i : ℕ)
        → i * 4 < 5
        → get_elem? pages i ≡ some (view_of (codes "GUESTS") (DisplayPage.guests (i * 4) 4)))
    × ((i : ℕ) → i < length pages → i * 4 < 5)
guest_pages-covers_example = guest_pages-covers (codes "GUESTS") 5 (omega arith)

storage_pages_complete_example :
    let pages = storage_pages (codes "DISKS") true (0 ∷ 1 ∷ 2 ∷ 3 ∷ []) (4 ∷ []) in
    (filesystems_of pages ≡ 0 ∷ 1 ∷ 2 ∷ 3 ∷ [])
    × (devices_of pages ≡ 4 ∷ [])
    × All Fits pages
    × (0 < length pages)
storage_pages_complete_example =
    storage_pages_complete (codes "DISKS") true (0 ∷ 1 ∷ 2 ∷ 3 ∷ []) (4 ∷ [])
