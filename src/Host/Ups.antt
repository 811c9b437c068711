-- ===== src/Host/Ups.antt =====
-- host/src/health.rs: `UpsCollector`. What each of the two executables of `upsc` gives, parsed, is an
-- argument: `none` when it does not run, fails, or prints no status.
pub mod Outage
pub mod Parse
use servatory.Prelude.{ℕ, true, Option, none, some, List, [], ◌∷◌, leb, if◌then◌else◌, unwrap_or}
use servatory.Prelude.Text.{Text}
use servatory.Prelude.Words.{saturating_suc_u8}
use servatory.Protocol.Snapshot.{UpsSnapshot, ups_not_configured, UpsStatus, unavailable}

pub record UpsCollector : Type 0 where
  pub target : Option Text
  pub last_good : Option UpsSnapshot
  pub consecutive_failures : ℕ
  pub failures_before_unavailable : ℕ

-- `UpsCollector::new`
abbrev pub new_collector : Option Text → ℕ → UpsCollector
new_collector target limit = record {
  target = target;
  last_good = none;
  consecutive_failures = 0;
  failures_before_unavailable = limit;
}

-- `find_map` over the executables.
abbrev pub first_reading : List (Option UpsSnapshot) → Option UpsSnapshot
first_reading [] = none
first_reading (none ∷ rs) = first_reading rs
first_reading (some s ∷ rs) = some s

-- What is shown while there never was a reading.
abbrev pub no_reading : UpsSnapshot
no_reading = record {
  status = UpsStatus.unknown;
  battery_percent = none;
  load_percent = none;
  runtime_seconds = none;
  estimated_watts = none;
  stale = true;
}

-- The stale snapshot that stands for a reading that failed, after `failures` in a row.
abbrev pub stale_snapshot : (limit failures : ℕ) → Option UpsSnapshot → UpsSnapshot
stale_snapshot limit failures last_good =
    let shown = unwrap_or last_good no_reading in
    record shown { stale = true; status = if leb limit failures then unavailable else shown.status }

-- `collect`
unfoldable pub collect : List (Option UpsSnapshot) → UpsCollector → UpsCollector × UpsSnapshot
collect readings c = elim c.target [
  | none ↦ (c, ups_not_configured)
  | some target ↦ elim (first_reading readings) [
    | some s ↦ (record c { consecutive_failures = 0; last_good = some s }, s)
    | none ↦
        let failures = saturating_suc_u8 c.consecutive_failures in
        (
          record c { consecutive_failures = failures },
          stale_snapshot c.failures_before_unavailable failures c.last_good,
        )
  ]
]
