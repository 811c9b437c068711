-- ===== src/Host/Probe/Stale.antt =====
-- host/src/health.rs: the result of a probe that began before the link changed.
use servatory.Prelude.{
  ℕ, ◌+◌, ◌%◌, ◌<◌, ◌≡◌, Bool, false, List, [], ◌∷◌, arith, ◌==◌, if◌then◌else◌,
}
use servatory.Prelude.Time.{Instant}
use servatory.Prelude.Words.{u32_max}
use servatory.Host.Probe.{ProbeState, prepare_probe, is_link_change, record_result}

-- The daemon's polls: when, and whether the link was up.
unfoldable pub polls : List (Instant × Bool) → ProbeState → ProbeState
polls [] s = s
polls ((now, link_up) ∷ ps) s = polls ps (prepare_probe now link_up s).0

-- How often the link changed during them.
unfoldable pub changes : List (Instant × Bool) → ProbeState → ℕ
changes [] s = 0
changes ((now, link_up) ∷ ps) s =
    (if is_link_change link_up s then 1 else 0) + changes ps (prepare_probe now link_up s).0

prepare_probe-generation :
    (now : Instant) (link_up : Bool) (s : ProbeState)
    → s.generation < u32_max + 1
    → (prepare_probe now link_up s).0.generation
      ≡ (s.generation + (if is_link_change link_up s then 1 else 0)) % (u32_max + 1)
unfolding prepare_probe
prepare_probe-generation now link_up s h = ground arith

polls-generation :
    (ps : List (Instant × Bool)) (s : ProbeState)
    → s.generation < u32_max + 1
    → (polls ps s).generation ≡ (s.generation + changes ps s) % (u32_max + 1)
unfolding polls changes
polls-generation [] s h = omega arith
polls-generation ((now, link_up) ∷ ps) s h =
    let t = (prepare_probe now link_up s).0 in
    let e = prepare_probe-generation now link_up s h in
    let f = polls-generation ps t (omega (arith, e)) in omega (arith, e, f)

-- If the link changed since a probe began, though less than 2^32 times, then its result, good or bad,
-- only says that the probe has ended.
pub record_result-stale :
    (ps : List (Instant × Bool)) (s : ProbeState) (is_reachable : Bool) (now : Instant)
    → s.generation < u32_max + 1
    → 0 < changes ps s
    → changes ps s < u32_max + 1
    → record_result s.generation is_reachable now (polls ps s)
      ≡ record (polls ps s) { in_flight = false }
unfolding record_result
record_result-stale ps s r now h a b =
    let e = polls-generation ps s h in
    let f : ((polls ps s).generation == s.generation) ≡ false = ground (arith, e) in
    ground (arith, f)
