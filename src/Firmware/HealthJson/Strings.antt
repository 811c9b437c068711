-- ===== src/Firmware/HealthJson/Strings.antt =====
-- firmware/src/network.rs: the strings that a reader of JSON finds in what `health_json` gives.
use servatory.Prelude.{
  ℕ, ◌-◌, ◌≡◌, refl, sym, ap, ◌∙◌, Bool, true, false, Option, none, some, List, [], ◌∷◌, ◌++◌,
  append-nil, append_assoc, leb, if◌then◌else◌, is_none_or, length,
}
use servatory.Prelude.Text.{Text, codes}
use servatory.Prelude.Time.{Instant}
use servatory.Prelude.Decimal.{decimal, digits, digits-IsDigit}
use servatory.Protocol.Health.{Incident, HealthLevel, healthy, warning, critical}
use servatory.Protocol.Snapshot.{HealthSnapshot}
use servatory.Firmware.Network.{SharedState}
use servatory.Firmware.Notify.{active_incidents, host_stale_after}
use servatory.Firmware.HealthJson.{
  level_name, bool_text, push_incident, push_incidents, figure, push_snapshot, push_host,
  health_json,
}
use servatory.Firmware.HealthJson.Reader.{
  Reader, read_json, read_json-append, Reads, Reads-becomes, Reads-append, kept, push_json-Reads,
  digits-read, between, inside,
}

-- Strings found one after the other.
abbrev pub behind : List Text → List Text → List Text
behind found [] = found
behind found (s ∷ ss) = behind (found ++ s ∷ []) ss

behind_lem : (ss found : List Text) → behind found ss ≡ found ++ ss
behind_lem [] found = sym (append-nil found)
behind_lem (s ∷ ss) found = behind_lem ss (found ++ s ∷ []) ∙ append_assoc found (s ∷ []) ss

abbrev pub incident_strings : Incident → List Text
incident_strings i = codes "level" ∷ level_name i.level ∷ codes "message" ∷ kept i.message ∷ []

abbrev pub incidents_strings : List Incident → List Text
incidents_strings [] = []
incidents_strings (i ∷ is) = incident_strings i ++ incidents_strings is

level-read :
    (level : HealthLevel) (found : List Text)
    → read_json (inside found []) (level_name level ++ codes "\",\"message\":\"")
      ≡ inside (behind found (level_name level ∷ codes "message" ∷ [])) []
level-read healthy found = refl
level-read warning found = refl
level-read critical found = refl

begun-Reads :
    (first : Bool) (json : Text) (found : List Text)
    → Reads json (between found)
    → Reads
        ((if first then json else json ++ codes ",") ++ codes "{\"level\":\"")
        (inside (found ++ codes "level" ∷ []) [])
begun-Reads true json found h = Reads-append json _ _ h
begun-Reads false json found h = Reads-append (json ++ codes ",") _ _ (Reads-append json _ _ h)

push_incident-Reads :
    (first : Bool) (i : Incident) (json : Text) (found : List Text)
    → Reads json (between found)
    → Reads (push_incident first json i) (between (found ++ incident_strings i))
push_incident-Reads first i json found h =
    let named =
      Reads-becomes _ _ _
        (Reads-append _ (level_name i.level ++ codes "\",\"message\":\"") _
          (begun-Reads first json found h))
        (level-read i.level _) in
    Reads-becomes _ _ _ (Reads-append _ (codes "\"}") _ (push_json-Reads i.message _ _ [] named))
      (ap between (behind_lem (incident_strings i) found))

push_incidents-Reads :
    (is : List Incident) (first : Bool) (json : Text) (found : List Text)
    → Reads json (between found)
    → Reads (push_incidents first json is) (between (found ++ incidents_strings is))
unfolding push_incidents
push_incidents-Reads [] first json found h =
    Reads-becomes json _ _ h (sym (ap between (append-nil found)))
push_incidents-Reads (i ∷ is) first json found h =
    Reads-becomes _ _ _
      (push_incidents-Reads is false _ _ (push_incident-Reads first i json found h))
      (ap between (append_assoc found (incident_strings i) (incidents_strings is)))

figure-Reads :
    (s key : Text) (n : ℕ) (r : Reader) (found : List Text)
    → Reads s r
    → read_json r key ≡ between found
    → Reads (s ++ figure key n) (between found)
unfolding decimal
figure-Reads s key n r found h k = Reads-becomes _ _ _ (Reads-append s (figure key n) r h) (
    read_json-append r key (digits 20 n)
    ∙ ap (λ r. read_json r (digits 20 n)) k
    ∙ digits-read (digits 20 n) found (digits-IsDigit 20 n))

abbrev pub host_strings : Option HealthSnapshot → List Text
host_strings none = []
host_strings (some s) =
    codes "host"
    ∷ kept s.host_name
    ∷ codes "cpu_percent"
    ∷ codes "memory_used_mib"
    ∷ codes "memory_total_mib"
    ∷ codes "io_pressure_percent"
    ∷ codes "load_average_x100"
    ∷ codes "network_up"
    ∷ codes "network_mbps"
    ∷ codes "ipv4"
    ∷ codes "guest_count"
    ∷ []

bool-Reads :
    (b : Bool) (s : Text) (found : List Text)
    → Reads s (between found)
    → Reads (s ++ bool_text b) (between found)
bool-Reads true s found h = Reads-append s _ _ h
bool-Reads false s found h = Reads-append s _ _ h

push_host-Reads :
    (o : Option HealthSnapshot) (json : Text) (found : List Text)
    → Reads json (between found)
    → Reads (push_host json o) (between (found ++ host_strings o))
unfolding push_snapshot
push_host-Reads none json found h = Reads-becomes json _ _ h (sym (ap between (append-nil found)))
push_host-Reads (some s) json found h =
    let named = push_json-Reads s.host_name _ _ [] (Reads-append json (codes ",\"host\":\"") _ h) in
    let cpu = figure-Reads _ (codes "\",\"cpu_percent\":") s.cpu_percent _ _ named refl in
    let used = figure-Reads _ (codes ",\"memory_used_mib\":") s.memory_used_mib _ _ cpu refl in
    let total = figure-Reads _ (codes ",\"memory_total_mib\":") s.memory_total_mib _ _ used refl in
    let io =
      figure-Reads _ (codes ",\"io_pressure_percent\":") s.io_pressure_percent _ _ total refl in
    let load = figure-Reads _ (codes ",\"load_average_x100\":") s.load_average_x100 _ _ io refl in
    let up = bool-Reads s.network_up _ _ (Reads-append _ (codes ",\"network_up\":") _ load) in
    let mbps = figure-Reads _ (codes ",\"network_mbps\":") s.network_mbps _ _ up refl in
    let a = figure-Reads _ (codes ",\"ipv4\":[") s.ipv4.a _ _ mbps refl in
    let b = figure-Reads _ (codes ",") s.ipv4.b _ _ a refl in
    let c = figure-Reads _ (codes ",") s.ipv4.c _ _ b refl in
    let d = figure-Reads _ (codes ",") s.ipv4.d _ _ c refl in
    Reads-becomes _ _ _
      (figure-Reads _ (codes "],\"guest_count\":") (length s.guests.guests) _ _ d refl)
      (ap between (behind_lem (host_strings (some s)) found))

-- Whatever the messages of the incidents and the name of the host are: a reader of JSON meets no bad
-- string in what `health_json` gives, and the strings in it are `stale` and `incidents`, then for
-- each active incident in order its level and its message under their keys, then, if there is a
-- snapshot, the host's name and the keys of the figures. Of a message and a name only control
-- characters other than line feed, carriage return and tabulator are lost.
pub health_json-strings :
    (now later : Instant) (state : SharedState)
    → read_json (between []) (health_json now later state)
      ≡ between (
          codes "stale" ∷ codes "incidents" ∷ []
          ++ incidents_strings (active_incidents later state)
          ++ host_strings state.snapshot)
unfolding health_json
health_json-strings now later state =
    let stale = is_none_or state.last_update (λ updated. leb host_stale_after (now - updated)) in
    let begun =
      Reads-append _ (codes ",\"incidents\":[") _
        (bool-Reads stale (codes "{\"stale\":") (codes "stale" ∷ []) (record { reads = refl })) in
    let listed =
      Reads-append _ (codes "]") _
        (push_incidents-Reads (active_incidents later state) true _ _ begun) in
    (Reads-append _ (codes "}") _ (push_host-Reads state.snapshot _ _ listed)).reads
