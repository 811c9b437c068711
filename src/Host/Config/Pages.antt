-- ===== src/Host/Config/Pages.antt =====
-- host/src/config.rs: the pages that the views of an output make, `compile_pages_for` and its users.
pub mod Chunks
pub mod Guests
pub mod Counts
pub mod Total
use servatory.Prelude.{
  ℕ, zero, suc, ◌+◌, ◌-◌, ◌*◌, ◌/◌, max, Bool, false, Option, none, some, List, [], ◌∷◌, ◌++◌, map,
  leb, ◌==◌, if◌then◌else◌, Result, ok, err, and_then, ok_or, length, is_empty, take, drop, all,
  any,
}
use servatory.Prelude.Text.{Text, codes}
use servatory.Prelude.Time.{as_millis, as_secs}
use servatory.Prelude.Words.{u16_max, clamp_u32}
use servatory.Protocol.Health.{SoftwareVersion}
use servatory.Protocol.Display.{
  DisplayConfig, DisplayLabel, DisplayView, DisplayPage, new_display_config,
}
use servatory.Protocol.Network.{NetworkConfig, HttpConfig, NtfyConfig, NotificationPriority}
use servatory.Host.Config.Layout.{to_u32}
use servatory.Host.Config.{
  Config, ConfigError, empty_views, unknown_view, unknown_id, out_of_range, invalid_display,
  ViewLayout, overview, resources, storage, power_network, guests, get_view, position,
  filesystem_ids, smart_ids, FilesystemConfig, HttpOutput, NtfyOutput, Severity, to_notification,
  warning, critical,
}

-- `count.div_ceil(size)`
abbrev pub div_ceil : ℕ → ℕ → ℕ
div_ceil count size = (count + (size - 1)) / size

-- The results of a loop over `start..start + count` that may fail; the first error wins.
pub for_each : {A E : Type 0} → (ℕ → Result A E) → (start count : ℕ) → Result (List A) E
for_each f start zero = ok []
for_each f start (suc count) =
    and_then (f start) (λ a. and_then (for_each f (start + 1) count) (λ more. ok (a ∷ more)))

abbrev pub label_of : Text → DisplayLabel
label_of value = record { value = value }

abbrev pub view_of : Text → DisplayPage → DisplayView
view_of title page = record { title = label_of title; page = page }

-- The pages of four guests each.
pub guest_page : Text → ℕ → Result DisplayView ConfigError
guest_page title index =
    and_then (to_u32 (index * 4)) (λ offset. ok (view_of title (DisplayPage.guests offset 4)))

unfoldable pub guest_pages : Text → (guest_count : ℕ) → Result (List DisplayView) ConfigError
unfolding for_each guest_page
guest_pages title guest_count = for_each (guest_page title) 0 (div_ceil (max guest_count 1) 4)

-- `resolve_indices`
unfoldable pub resolve_indices : List Text → List Text → Result (List ℕ) ConfigError
resolve_indices all [] = ok []
resolve_indices all (id ∷ ids) =
    and_then (ok_or (position id all) (unknown_id id))
      λ index. and_then (to_u32 index) λ i. and_then (resolve_indices all ids) λ is. ok (i ∷ is)

-- `iter().skip(index * size).take(size)`
abbrev pub chunk : {A : Type 0} → ℕ → List A → ℕ → List A
chunk size xs index = take size (drop (index * size) xs)

-- The numbers from `start` on.
abbrev pub range : (start count : ℕ) → List ℕ
range start zero = []
range start (suc count) = start ∷ range (start + 1) count

abbrev pub storage_page_count : (filesystems smart : List ℕ) → ℕ
storage_page_count filesystems smart =
    max (max (div_ceil (length filesystems) 3) (div_ceil (length smart) 5)) 1

-- The storage pages: three filesystems and five devices each.
unfoldable pub storage_pages : Text → Bool → (filesystems smart : List ℕ) → List DisplayView
storage_pages title left filesystems smart =
    map
      (λ index.
        view_of title (DisplayPage.storage left (chunk 3 filesystems index) (chunk 5 smart index)))
      (range 0 (storage_page_count filesystems smart))

-- `severities.contains`
abbrev pub has_severity : Severity → List Severity → Bool
has_severity s = any (λ t. to_ℕ s == to_ℕ t)
  where
    to_ℕ : Severity → ℕ
    to_ℕ Severity.healthy = 0
    to_ℕ warning = 1
    to_ℕ critical = 2

module _ (c : Config) where
  -- What one view adds, the body of the loop over the views.
  unfoldable pub view_pages :
      Text → ViewLayout → (guest_count : ℕ) → Result (List DisplayView) ConfigError
  view_pages title overview guest_count = ok (view_of title DisplayPage.overview ∷ [])
  view_pages title resources guest_count = ok (view_of title DisplayPage.resources ∷ [])
  view_pages title (storage filesystems smart left) guest_count =
      and_then (resolve_indices (filesystem_ids c) filesystems) λ fs.
        and_then (resolve_indices (smart_ids c) smart) λ ss. ok (storage_pages title left fs ss)
  view_pages title (power_network left) guest_count =
      ok (view_of title (DisplayPage.power_network left) ∷ [])
  view_pages title (guests paginate offset limit) guest_count =
      if paginate
      then guest_pages title guest_count
      else ok (view_of title (DisplayPage.guests offset limit) ∷ [])

  -- The loop over the views.
  unfoldable pub pages_of : List Text → (guest_count : ℕ) → Result (List DisplayView) ConfigError
  pages_of [] guest_count = ok []
  pages_of (id ∷ ids) guest_count = and_then (ok_or (get_view id c.views) (unknown_view id)) λ view.
      and_then (view_pages view.title view.layout guest_count)
        λ pages. and_then (pages_of ids guest_count) λ more. ok (pages ++ more)

  unfoldable pub compile_pages_for :
      List Text → (guest_count : ℕ) → Result (List DisplayView) ConfigError
  unfolding pages_of
  compile_pages_for ids guest_count =
      if is_empty ids then err empty_views else pages_of ids guest_count

  -- `u16::try_from`
  to_u16 : ℕ → Result ℕ ConfigError
  to_u16 n = if leb n u16_max then ok n else err out_of_range

  display_error : {A E : Type 0} → Result A E → Result A ConfigError
  display_error (ok a) = ok a
  display_error (err e) = err invalid_display

  -- `version` is the build's.
  -- `DisplayConfig::new` and the version; `version` is the build's.
  make_display :
      SoftwareVersion → (hold delay : ℕ) → List DisplayView → Result DisplayConfig ConfigError
  unfolding display_error
  make_display version hold delay pages =
      let labels = map (λ (f : FilesystemConfig). label_of f.label) c.sources.filesystems in
      and_then (display_error (new_display_config hold delay labels pages))
        (λ display. ok (record display { daemon_version = version }))

  unfoldable pub display_config :
      SoftwareVersion → (guest_count : ℕ) → Result DisplayConfig ConfigError
  unfolding to_u16 make_display
  display_config version guest_count = and_then (to_u16 (as_millis c.shutdown.hold_time)) λ hold.
      and_then (to_u16 (as_millis c.shutdown.animation_delay)) λ delay.
        and_then (compile_pages_for c.outputs.stick_views guest_count)
          (make_display version hold delay)

  abbrev pub with_pages : HttpOutput → List DisplayView → HttpConfig
  with_pages h pages = record {
    enabled = h.enabled;
    port = h.port;
    hostname = h.hostname;
    pages = pages;
  }

  http_config : Option HttpOutput → (guest_count : ℕ) → Result HttpConfig ConfigError
  http_config none guest_count =
      ok (record { enabled = false; port = 80; hostname = codes "servatory"; pages = [] })
  http_config (some h) guest_count =
      and_then (compile_pages_for h.views guest_count) (λ pages. ok (with_pages h pages))

  ntfy_config : Option NtfyOutput → NtfyConfig
  ntfy_config none = record {
    enabled = false;
    severities = record { warning = false; critical = false };
    notify_recovery = false;
    warning_priority = NotificationPriority.high;
    critical_priority = NotificationPriority.urgent;
    recovery_priority = NotificationPriority.default;
    repeat_critical_seconds = none;
    server = codes "https://ntfy.sh";
    click_url = none;
  }
  ntfy_config (some n) = record {
    enabled = n.enabled;
    severities = record {
      warning = has_severity warning n.severities;
      critical = has_severity critical n.severities;
    };
    notify_recovery = n.notify_recovery;
    warning_priority = to_notification n.priorities.warning;
    critical_priority = to_notification n.priorities.critical;
    recovery_priority = to_notification n.priorities.recovery;
    repeat_critical_seconds = elim n.repeat_critical [
      | none ↦ none
      | some d ↦ some (clamp_u32 (as_secs d))
    ];
    server = n.server;
    click_url = n.click_url;
  }

  make_network : HttpConfig → NetworkConfig
  unfolding ntfy_config
  make_network http = record { http = http; ntfy = ntfy_config c.outputs.ntfy }

  unfoldable pub network_config : (guest_count : ℕ) → Result NetworkConfig ConfigError
  unfolding http_config make_network
  network_config guest_count =
      and_then (http_config c.outputs.http guest_count) (λ http. ok (make_network http))
