-- ===== src/Host/Probe/Threads.antt =====
-- host/src/health.rs: the probe's threads. A run interleaves the daemon's polls with the ends of the
-- threads in any order.
use servatory.Prelude.{
  ℕ, ◌≤◌, ◌<◌, ◌≡◌, Bool, true, false, ◌||◌, Option, none, some, List, [], ◌∷◌, ◌++◌, arith,
  if◌then◌else◌, is_some, length, length-append,
}
use servatory.Prelude.Time.{Instant, Duration}
use servatory.Protocol.Snapshot.{InternetStatus, checking, reachable, missed, failed}
use servatory.Host.Probe.{
  prepare_probe, start_probe, ProbeState, ConnectivityProbe, poll_probe, record_result,
  new_configured,
}

-- What the next step may be: a poll, or the end of a running thread.
pub data Step : ConnectivityProbe → ConnectivityProbe → Type 0 where
  poll :
      (now later : Instant) (link_up spawns : Bool) (p : ConnectivityProbe)
      → Step p (poll_probe now later link_up spawns p)
  finish :
      (before after : List ℕ) (g : ℕ) (is_reachable : Bool) (now : Instant) (s : ProbeState)
      → Step
          (record { state = s; running = before ++ g ∷ after })
          (record { state = record_result g is_reachable now s; running = before ++ after })

pub data Steps : ConnectivityProbe → ConnectivityProbe → Type 0 where
  done : (p : ConnectivityProbe) → Steps p p
  next : {p q r : ConnectivityProbe} → Steps p q → Step q r → Steps p r

-- The reported status says what the counters say.
abbrev pub IsTold : ProbeState → InternetStatus → Type 0
IsTold s checking = s.consecutive_failures ≡ 0
IsTold s reachable = (s.consecutive_failures ≡ 0) × (is_some s.last_success ≡ true)
IsTold s missed = (0 < s.consecutive_failures) × (s.consecutive_failures < s.failures_before_failed)
IsTold s failed = (0 < s.consecutive_failures) × (s.failures_before_failed ≤ s.consecutive_failures)

-- What the counters of a state say of each other.
pub record IsSound (s : ProbeState) : Type 0 where
  pub told : IsTold s s.status
  pub fresh : s.link_up_grace_retry ≡ true → s.consecutive_failures ≡ 0

-- The flag says whether the one thread runs.
pub record IsValid (p : ConnectivityProbe) : Type 0 where
  pub one_thread : length p.running ≡ (if p.state.in_flight then 1 else 0)
  pub sound : IsSound p.state

pub record_result-IsSound :
    (g : ℕ) (r : Bool) (now : Instant) (s : ProbeState)
    → IsSound s
    → IsSound (record_result g r now s)
unfolding record_result
record_result-IsSound g r now s v = ground arith

record_result-in_flight :
    (g : ℕ) (r : Bool) (now : Instant) (s : ProbeState)
    → (record_result g r now s).in_flight ≡ false
unfolding record_result
record_result-in_flight g r now s = ground arith

prepare_probe-IsSound :
    (now : Instant) (link_up : Bool) (s : ProbeState)
    → IsSound s
    → IsSound (prepare_probe now link_up s).0
unfolding prepare_probe
prepare_probe-IsSound now link_up s v = ground arith

-- A probe is due only if none runs.
record Due (s t : ProbeState) (due : Option ℕ) : Type 0 where
  flag : t.in_flight ≡ (is_some due || s.in_flight)
  idle : is_some due ≡ true → s.in_flight ≡ false

prepare_probe-Due :
    (now : Instant) (link_up : Bool) (s : ProbeState)
    → Due s (prepare_probe now link_up s).0 (prepare_probe now link_up s).1
unfolding prepare_probe
prepare_probe-Due now link_up s = ground arith

start_probe-IsValid :
    (spawns : Bool) (later : Instant) (s t : ProbeState) (due : Option ℕ) (running : List ℕ)
    → Due s t due
    → IsSound t
    → IsValid (record { state = s; running = running })
    → IsValid (start_probe spawns later due (record { state = t; running = running }))
unfolding start_probe
start_probe-IsValid spawns later s t none running d k v = ground arith
start_probe-IsValid true later s t (some g) running d k v = ground arith
start_probe-IsValid false later s t (some g) running d k v =
    ground (arith, record_result-IsSound g false later t k, record_result-in_flight g false later t)

poll_probe-IsValid :
    (now later : Instant) (link_up spawns : Bool) (p : ConnectivityProbe)
    → IsValid p
    → IsValid (poll_probe now later link_up spawns p)
unfolding poll_probe
poll_probe-IsValid now later link_up spawns p v =
    start_probe-IsValid spawns later p.state _ _ p.running (prepare_probe-Due now link_up p.state)
      (prepare_probe-IsSound now link_up p.state v.sound) v

Step-IsValid : {p q : ConnectivityProbe} → Step p q → IsValid p → IsValid q
Step-IsValid (poll now later link_up spawns p) v = poll_probe-IsValid now later link_up spawns p v
Step-IsValid (finish before after g r now s) v = record {
  one_thread = ground (
    arith,
    length-append before (g ∷ after),
    length-append before after,
    record_result-in_flight g r now s,
    v.one_thread,
  );
  sound = record_result-IsSound g r now s v.sound;
}

new-IsValid :
    (now : Instant) (interval settle retry : Duration) (failures : ℕ)
    → IsValid (record { state = new_configured now interval settle retry failures; running = [] })
new-IsValid now interval settle retry failures = ground arith

-- Whatever the order of polls and ends of threads, from a new probe on at most one thread runs, the
-- flag `in_flight` says whether it does, and the reported status says what the counters say: reachable
-- after a success that no failure followed, missed or failed after fewer failures in a row than the
-- configured number or not.
pub Steps-IsValid :
    (now : Instant) (interval settle retry : Duration) (failures : ℕ) {p : ConnectivityProbe}
    → Steps (record { state = new_configured now interval settle retry failures; running = [] }) p
    → IsValid p
Steps-IsValid now interval settle retry failures (done q) =
    new-IsValid now interval settle retry failures
Steps-IsValid now interval settle retry failures (next before step) =
    Step-IsValid step (Steps-IsValid now interval settle retry failures before)
