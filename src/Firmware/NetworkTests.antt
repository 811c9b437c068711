-- ===== src/Firmware/NetworkTests.antt =====
-- firmware/src/network.rs and firmware/src/provisioning.rs: the theorems at concrete inputs.
use servatory.Prelude.{
  ℕ, ◌≤◌, ◌<◌, ◌≡◌, refl, ap, subst, true, false, Option, none, some, List, [], ◌∷◌, arith,
  unwrap_or, length,
}
use servatory.Prelude.Text.{Text, codes}
use servatory.Prelude.Time.{secs}
use servatory.Protocol.Health.{critical, Incident, rule}
use servatory.Protocol.Network.{NetworkConfig, NtfyConfig, NotificationPriority}
use servatory.Firmware.Network.{new_shared_state}
use servatory.Firmware.Store.{Postcard, IsPostcard, StoredSettings, load, save, record_of, is_valid}
use servatory.Firmware.Store.RoundTrip.{load-save}
use servatory.Firmware.Notify.{PendingNotification, Worker, Round, notify, news, recovered, publish}
use servatory.Firmware.Notify.Newest.{newest, notes}
use servatory.Firmware.Notify.Rounds.{notify-pending}

abbrev settings : Text → Text → Text → Text → Option NetworkConfig → StoredSettings
settings ssid password hostname topic network = record {
  provisioning = record {
    ssid = ssid;
    password = password;
    hostname = hostname;
    ntfy_topic = topic;
  };
  network = network;
}

-- A serializer that knows the settings without password and manifest whose names have one character.
abbrev to_bytes : Text → Text → Text → Text → Option NetworkConfig → Option (List ℕ)
to_bytes ssid [] (h ∷ []) (t ∷ []) none = some (h ∷ t ∷ ssid)
to_bytes _ _ _ _ _ = none

abbrev of_bytes : List ℕ → Option StoredSettings
of_bytes (h ∷ t ∷ ssid) = some (settings ssid [] (h ∷ []) (t ∷ []) none)
of_bytes _ = none

abbrev small_postcard : Postcard
small_postcard = record {
  to_allocvec =
      λ v. let p = v.provisioning in to_bytes p.ssid p.password p.hostname p.ntfy_topic v.network;
  from_bytes = of_bytes;
}

to_bytes-law :
    (ssid password hostname topic : Text) (network : Option NetworkConfig) (bs : List ℕ)
    → to_bytes ssid password hostname topic network ≡ some bs
    → (0 < length bs) × (of_bytes bs ≡ some (settings ssid password hostname topic network))
to_bytes-law ssid [] (h ∷ []) (t ∷ []) none bs e =
    let same : h ∷ t ∷ ssid ≡ bs = ap (λ o. unwrap_or o []) e in
    subst (λ k. (0 < length k) × (of_bytes k ≡ some (settings ssid [] (h ∷ []) (t ∷ []) none))) same
      (omega arith, refl)
to_bytes-law ssid [] (h ∷ []) (t ∷ []) (some n) bs e = absurd (ground arith)
to_bytes-law ssid [] (h ∷ []) [] n bs e = absurd (ground arith)
to_bytes-law ssid [] (h ∷ []) (t ∷ u ∷ ts) n bs e = absurd (ground arith)
to_bytes-law ssid [] [] ts n bs e = absurd (ground arith)
to_bytes-law ssid [] (h ∷ k ∷ hs) ts n bs e = absurd (ground arith)
to_bytes-law ssid (c ∷ cs) hs ts n bs e = absurd (ground arith)

small_postcard-IsPostcard : IsPostcard small_postcard
small_postcard-IsPostcard = record {
  fills = λ v bs e.
      (to_bytes-law v.provisioning.ssid v.provisioning.password v.provisioning.hostname
        v.provisioning.ntfy_topic v.network bs e).0;
  decodes = λ v bs e.
      (to_bytes-law v.provisioning.ssid v.provisioning.password v.provisioning.hostname
        v.provisioning.ntfy_topic v.network bs e).1;
}

abbrev at_home : StoredSettings
at_home = settings (codes "home") [] (codes "s") (codes "t") none

abbrev written : List ℕ
written = unwrap_or (save small_postcard at_home) []

load-save_example : load small_postcard written ≡ some at_home
unfolding save record_of is_valid
load-save_example = load-save small_postcard at_home small_postcard-IsPostcard refl

abbrev ntfy : NtfyConfig
ntfy = record {
  enabled = true;
  severities = record { warning = false; critical = true };
  notify_recovery = true;
  warning_priority = NotificationPriority.default;
  critical_priority = NotificationPriority.urgent;
  recovery_priority = NotificationPriority.default;
  repeat_critical_seconds = none;
  server = codes "https://ntfy.sh";
  click_url = none;
}

abbrev link_lost : Incident
link_lost = record {
  id = rule (record { as_str = codes "link" });
  level = critical;
  message = codes "LINK DOWN";
}

abbrev quiet_round : Round
quiet_round = record {
  state = new_shared_state;
  age_now = secs 5;
  insert_now = secs 5;
  due_now = secs 5;
  reset_now = secs 5;
  test = false;
  published = false;
}

abbrev idle_worker : Worker
idle_worker = record { previous = []; pending = []; next_critical_repeat = none }

abbrev alarm : PendingNotification
alarm = record {
  message = codes "LINK DOWN";
  priority = NotificationPriority.urgent;
  recovery = false;
}

notify-pending_example :
    ((notify ntfy quiet_round (link_lost ∷ []) idle_worker).pending ≡ alarm ∷ [])
    × (length (notify ntfy quiet_round (link_lost ∷ []) idle_worker).pending ≤ 8)
unfolding newest notes news recovered publish
notify-pending_example = notify-pending ntfy quiet_round (link_lost ∷ []) idle_worker (omega arith)
