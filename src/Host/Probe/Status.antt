-- ===== src/Host/Probe/Status.antt =====
-- host/src/health.rs: how many failures in a row make a probe's status.
use servatory.Prelude.{
  ℕ, suc, ◌+◌, ◌≤◌, min, ◌≡◌, refl, ◌∙◌, true, false, List, [], ◌∷◌, arith, ltb, ◌==◌,
  if◌then◌else◌, length,
}
use servatory.Prelude.Time.{Instant}
use servatory.Prelude.Words.{u8_max}
use servatory.Protocol.Snapshot.{InternetStatus, checking, missed, failed}
use servatory.Host.Probe.{ProbeState, watch_link, is_link_change, record_result}

-- Failed results of probes that belong to the present link, one after the other.
pub failures : List Instant → ProbeState → ProbeState
failures [] s = s
failures (now ∷ ts) s = failures ts (record_result s.generation false now s)

-- What `n` failures in a row mean.
abbrev pub status_after : (threshold n : ℕ) → InternetStatus
status_after threshold n = if n == 0 then checking else if ltb n threshold then missed else failed

same_count : (threshold m n : ℕ) → m ≡ n → status_after threshold m ≡ status_after threshold n
same_count threshold m n e = rw e refl

-- `k` failures in a row have been counted.
record Counted (k : ℕ) (s : ProbeState) : Type 0 where
  grace : s.link_up_grace_retry ≡ false
  threshold : s.failures_before_failed ≤ u8_max
  counter : s.consecutive_failures ≡ min u8_max k
  told : s.status ≡ status_after s.failures_before_failed k

record_result-Counted :
    (now : Instant) (s : ProbeState) (k : ℕ)
    → Counted k s
    → Counted (suc k) (record_result s.generation false now s)
      × ((record_result s.generation false now s).failures_before_failed ≡ s.failures_before_failed)
unfolding record_result
record_result-Counted now s k c = ground arith

failures-Counted :
    (ts : List Instant) (s : ProbeState) (k : ℕ)
    → Counted k s
    → (failures ts s).status ≡ status_after s.failures_before_failed (length ts + k)
unfolding failures
failures-Counted [] s k c = c.told ∙ same_count _ k (0 + k) (omega arith)
failures-Counted (now ∷ ts) s k c =
    let (d, e) = record_result-Counted now s k c in
    let rest = failures-Counted ts (record_result s.generation false now s) (suc k) d in
    rest ∙ rw e (same_count _ (length ts + suc k) (suc (length ts) + k) (omega arith))

-- The first failure after the link came up.
record Retried (now first : Instant) (s : ProbeState) : Type 0 where
  up_status : (watch_link now true s).status ≡ checking
  up_next : (watch_link now true s).next_probe ≡ now + s.settle_delay
  next : (failures (first ∷ []) (watch_link now true s)).next_probe ≡ first + s.retry_delay
  threshold :
      (failures (first ∷ []) (watch_link now true s)).failures_before_failed
      ≡ s.failures_before_failed
  counted : Counted 0 (failures (first ∷ []) (watch_link now true s))

failures-Retried :
    (now first : Instant) (s : ProbeState)
    → is_link_change true s ≡ true
    → s.failures_before_failed ≤ u8_max
    → Retried now first s
unfolding watch_link failures record_result
failures-Retried now first s c t = ground arith

-- After the link came up with a threshold that is a `u8`, the first failure only asks for another try
-- after the retry delay, and the next `n` failures in a row are reported as missed if `n` is below the
-- threshold and as failed otherwise.
pub failures-status :
    (now first : Instant) (ts : List Instant) (s : ProbeState)
    → is_link_change true s ≡ true
    → s.failures_before_failed ≤ u8_max
    → let up = watch_link now true s in
      let retried = failures (first ∷ []) up in
      (up.status ≡ checking)
      × (up.next_probe ≡ now + s.settle_delay)
      × (retried.status ≡ checking)
      × (retried.next_probe ≡ first + s.retry_delay)
      × ((failures ts retried).status ≡ status_after s.failures_before_failed (length ts))
failures-status now first ts s c t =
    let r = failures-Retried now first s c t in
    let later = failures-Counted ts (failures (first ∷ []) (watch_link now true s)) 0 r.counted in
    (
      r.up_status,
      r.up_next,
      r.counted.told,
      r.next,
      later ∙ rw r.threshold (same_count _ (length ts + 0) (length ts) (omega arith)),
    )
