-- ===== src/Host/Probe.antt =====
-- host/src/health.rs: `ProbeState` and the `ConnectivityProbe` around it, whose pings run on threads.
pub mod Status
pub mod Threads
pub mod Stale
use servatory.Prelude.{
  ℕ, ◌+◌, ◌-◌, Bool, true, false, not, ◌||◌, Option, none, some, List, ◌∷◌, ltb, ◌==◌,
  if◌then◌else◌, is_some_and,
}
use servatory.Prelude.Time.{Instant, Duration, as_secs}
use servatory.Prelude.Words.{saturating_suc_u8, wrapping_suc_u32, clamp_u32}
use servatory.Protocol.Snapshot.{InternetStatus, checking, reachable, missed, failed}

pub record ProbeState : Type 0 where
  pub status : InternetStatus
  pub consecutive_failures : ℕ
  pub last_success : Option Instant
  pub next_probe : Instant
  pub in_flight : Bool
  pub last_link_up : Option Bool
  pub generation : ℕ
  pub link_up_grace_retry : Bool
  pub interval : Duration
  pub settle_delay : Duration
  pub retry_delay : Duration
  pub failures_before_failed : ℕ

-- `ProbeState::new_configured`
abbrev pub new_configured : Instant → Duration → Duration → Duration → ℕ → ProbeState
new_configured now interval settle_delay retry_delay failures_before_failed = record {
  status = checking;
  consecutive_failures = 0;
  last_success = none;
  next_probe = now;
  in_flight = false;
  last_link_up = none;
  generation = 0;
  link_up_grace_retry = false;
  interval = interval;
  settle_delay = settle_delay;
  retry_delay = retry_delay;
  failures_before_failed = failures_before_failed;
}

abbrev pub bool_eq : Bool → Bool → Bool
bool_eq true b = b
bool_eq false b = not b

-- `last_link_up != Some(link_up)`
abbrev pub is_link_change : Bool → ProbeState → Bool
is_link_change link_up s = not (is_some_and s.last_link_up (bool_eq link_up))

-- The first `if` of `prepare_probe`: a link that changed starts anew.
unfoldable pub watch_link : Instant → Bool → ProbeState → ProbeState
watch_link now link_up s =
    if is_link_change link_up s
    then record s {
      last_link_up = some link_up;
      next_probe = if link_up then now + s.settle_delay else now;
      status = checking;
      consecutive_failures = 0;
      generation = wrapping_suc_u32 s.generation;
      link_up_grace_retry = link_up;
    }
    else s

-- `prepare_probe`: the generation of the probe to start, if one is due.
unfoldable pub prepare_probe : Instant → Bool → ProbeState → ProbeState × Option ℕ
unfolding watch_link
prepare_probe now link_up s =
    let t = watch_link now link_up s in
    if t.in_flight || ltb now t.next_probe
    then (t, none)
    else (record t { in_flight = true; next_probe = now + t.interval }, some t.generation)

count_failure : ProbeState → ProbeState
count_failure s =
    let failures = saturating_suc_u8 s.consecutive_failures in
    record s {
      consecutive_failures = failures;
      status = if ltb failures s.failures_before_failed then missed else failed;
    }

unfoldable pub record_result : ℕ → Bool → Instant → ProbeState → ProbeState
unfolding count_failure
record_result generation is_reachable now s =
    let t = record s { in_flight = false } in
    if not (t.generation == generation)
    then t
    else if is_reachable
    then record t {
      status = reachable;
      consecutive_failures = 0;
      last_success = some now;
      link_up_grace_retry = false;
    }
    else if t.link_up_grace_retry
    then record t {
      status = checking;
      link_up_grace_retry = false;
      next_probe = now + t.retry_delay;
    }
    else count_failure t

-- `ConnectivityProbe`, with the generations that its running threads carry.
pub record ConnectivityProbe : Type 0 where
  pub state : ProbeState
  pub running : List ℕ

-- The `spawn` in `snapshot`; a thread that cannot be started counts as a failed probe.
unfoldable pub start_probe : Bool → Instant → Option ℕ → ConnectivityProbe → ConnectivityProbe
start_probe spawns later none p = p
start_probe spawns later (some g) p =
    if spawns
    then record p { running = g ∷ p.running }
    else record p { state = record_result g false later p.state }

-- `snapshot` up to the report: `later` is the clock's reading when a thread could not be started.
unfoldable pub poll_probe :
    (now later : Instant) (link_up spawns : Bool) → ConnectivityProbe → ConnectivityProbe
unfolding start_probe
poll_probe now later link_up spawns p =
    let (state, due) = prepare_probe now link_up p.state in
    start_probe spawns later due (record p { state = state })

-- The report of `snapshot`.
unfoldable pub report : Instant → ProbeState → InternetStatus × Option ℕ
report now s =
    (s.status, elim s.last_success [ none ↦ none | some t ↦ some (clamp_u32 (as_secs (now - t))) ])
