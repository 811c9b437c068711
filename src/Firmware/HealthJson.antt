-- ===== src/Firmware/HealthJson.antt =====
-- firmware/src/network.rs: `health_json` and the texts that it is made of.
pub mod Reader
pub mod Strings
use servatory.Prelude.{
  ℕ, zero, suc, ◌+◌, ◌-◌, ◌*◌, ◌/◌, ◌%◌, ◌≤◌, ◌<◌, min, max, ◌≡◌, refl, sym, ap, ◌∙◌, ◌≢◌, ◌↔◌, ◌⊎◌,
  inl, inr, Bool, true, false, not, ◌&&◌, ◌||◌, Option, none, some, List, [], ◌∷◌, ◌++◌, map,
  append-nil, append_assoc, arith, ltb, leb, ◌==◌, if◌then◌else◌, ltb→lt, leb→le, ==_iff,
  Bool-cases, Option-cases, is_some, is_some_and, is_none_or, unwrap_or, Result, ok, err, and_then,
  ok_or, bind, is_ok, length, is_empty, get_elem?, set?, take?, take, drop, replicate, all, any,
  All, length-append, length-replicate, All-append, All-split, set-take, Result-cases, length-drop,
  take-append, nil_of_length, zero_plus, suc_plus, drop_nil, drop-drop, drop-append,
}
use servatory.Prelude.Text.{Text, codes}
use servatory.Prelude.Time.{Instant}
use servatory.Prelude.Decimal.{decimal}
use servatory.Protocol.Health.{Incident, HealthLevel, healthy, warning, critical}
use servatory.Protocol.Snapshot.{HealthSnapshot}
use servatory.Firmware.Network.{SharedState}
use servatory.Firmware.Notify.{active_incidents, host_stale_after}

-- `char::is_control`
abbrev pub is_control : ℕ → Bool
is_control c = ltb c 0x20 || (leb 0x7f c && leb c 0x9f)

-- One character of `push_json`.
unfoldable pub push_json_char : Text → ℕ → Text
push_json_char output c =
    if c == b'"'
    then output ++ codes "\\\""
    else if c == b'\\'
    then output ++ codes "\\\\"
    else if c == 10
    then output ++ codes "\\n"
    else if c == 13
    then output ++ codes "\\r"
    else if c == 9
    then output ++ codes "\\t"
    else if is_control c
    then output
    else output ++ c ∷ []

unfoldable pub push_json : Text → Text → Text
push_json output [] = output
push_json output (c ∷ value) = push_json (push_json_char output c) value

-- `level_text` in lower case
abbrev pub level_name : HealthLevel → Text
level_name healthy = codes "healthy"
level_name warning = codes "warning"
level_name critical = codes "critical"

abbrev pub bool_text : Bool → Text
bool_text true = codes "true"
bool_text false = codes "false"

-- The comma is put before all but the first.
abbrev pub push_incident : (first : Bool) → Text → Incident → Text
push_incident first json i =
    let begun = (if first then json else json ++ codes ",") ++ codes "{\"level\":\"" in
    let named = begun ++ (level_name i.level ++ codes "\",\"message\":\"") in
    push_json named i.message ++ codes "\"}"

unfoldable pub push_incidents : (first : Bool) → Text → List Incident → Text
push_incidents first json [] = json
push_incidents first json (i ∷ is) = push_incidents false (push_incident first json i) is

-- A figure with its key.
abbrev pub figure : Text → ℕ → Text
figure key n = key ++ decimal n

unfoldable pub push_snapshot : Text → HealthSnapshot → Text
push_snapshot json s =
    let host = push_json (json ++ codes ",\"host\":\"") s.host_name in
    host
    ++ figure (codes "\",\"cpu_percent\":") s.cpu_percent
    ++ figure (codes ",\"memory_used_mib\":") s.memory_used_mib
    ++ figure (codes ",\"memory_total_mib\":") s.memory_total_mib
    ++ figure (codes ",\"io_pressure_percent\":") s.io_pressure_percent
    ++ figure (codes ",\"load_average_x100\":") s.load_average_x100
    ++ codes ",\"network_up\":"
    ++ bool_text s.network_up
    ++ figure (codes ",\"network_mbps\":") s.network_mbps
    ++ figure (codes ",\"ipv4\":[") s.ipv4.a
    ++ figure (codes ",") s.ipv4.b
    ++ figure (codes ",") s.ipv4.c
    ++ figure (codes ",") s.ipv4.d
    ++ figure (codes "],\"guest_count\":") (length s.guests.guests)

abbrev pub push_host : Text → Option HealthSnapshot → Text
push_host json none = json
push_host json (some s) = push_snapshot json s

-- `health_json`, at the times at which it and `active_incidents` read the clock.
unfoldable pub health_json : (now later : Instant) → SharedState → Text
health_json now later state =
    let stale = is_none_or state.last_update (λ updated. leb host_stale_after (now - updated)) in
    let begun = (codes "{\"stale\":" ++ bool_text stale) ++ codes ",\"incidents\":[" in
    let listed = push_incidents true begun (active_incidents later state) ++ codes "]" in
    push_host listed state.snapshot ++ codes "}"
