-- ===== src/Firmware/Network.antt =====
-- firmware/src/network.rs: the state that the main loop shares with the network tasks, and the
-- functions through which it writes there.
use servatory.Prelude.{ℕ, Bool, Option, none, some, List, [], if◌then◌else◌, unwrap_or}
use mathlib.Core.Logic.{ite}
use native.Mathlib.Decide.{ℕ_discrete}
use servatory.Prelude.Text.{Text}
use servatory.Prelude.Time.{Instant}
use servatory.Protocol.Health.{SoftwareVersion}
use servatory.Protocol.Display.{DisplayLabel}
use servatory.Protocol.Network.{NetworkConfig}
use servatory.Protocol.Snapshot.{HealthSnapshot, Ipv4}

pub NetworkConfig-discrete : Discrete NetworkConfig
NetworkConfig-discrete = hlevel ℕ_discrete

pub record SharedState : Type 0 where
  pub snapshot : Option HealthSnapshot
  pub manifest : Option NetworkConfig
  pub filesystem_labels : List DisplayLabel
  pub last_update : Option Instant
  pub station_ipv4 : Option Ipv4
  pub ntfy_topic : Option Text
  pub daemon_version : Option SoftwareVersion

-- `SharedState::new`
abbrev pub new_shared_state : SharedState
new_shared_state = record {
  snapshot = none;
  manifest = none;
  filesystem_labels = [];
  last_update = none;
  station_ipv4 = none;
  ntfy_topic = none;
  daemon_version = none;
}

-- `STATE`, the channel `MANIFESTS` of capacity one, and `WEB_SERVER_PORT`.
pub record Net : Type 0 where
  pub state : SharedState
  pub manifests : Option NetworkConfig
  pub web_server_port : Option ℕ

abbrev pub set_web_server : Bool → ℕ → Net → Net
set_web_server enabled port n = record n { web_server_port = if enabled then some port else none }

abbrev pub update_daemon_version : SoftwareVersion → Net → Net
update_daemon_version v n = record n { state = record (n.state) { daemon_version = some v } }

-- `now` is the clock's reading inside the call.
abbrev pub update_snapshot : Instant → HealthSnapshot → Net → Net
update_snapshot now h n = record n {
  state = record (n.state) { snapshot = some h; last_update = some now };
}

abbrev pub update_filesystem_labels : List DisplayLabel → Net → Net
update_filesystem_labels labels n = record n {
  state = record (n.state) { filesystem_labels = labels };
}

-- `Channel::try_send` on the channel of capacity one: `none` is the error `Full`.
abbrev try_send : Option NetworkConfig → NetworkConfig → Option (Option NetworkConfig)
try_send none m = some (some m)
try_send (some old) m = none

-- A full channel is emptied first, so that it holds the newest manifest.
abbrev send_manifest : Option NetworkConfig → NetworkConfig → Option NetworkConfig
send_manifest channel m = elim (try_send channel m) [
  | some channel' ↦ channel'
  | none ↦ unwrap_or (try_send none m) none
]

unfoldable pub update_manifest : NetworkConfig → Net → Net
update_manifest m n =
    let n' = set_web_server m.http.enabled m.http.port n in
    elim n'.state.manifest [
      | none ↦ publish n'
      | some old ↦ ite (NetworkConfig-discrete old m) n' (publish n')
    ]
  where
    publish : Net → Net
    publish k = record k {
      state = record (k.state) { manifest = some m };
      manifests = send_manifest k.manifests m;
    }
