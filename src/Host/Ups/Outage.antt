-- ===== src/Host/Ups/Outage.antt =====
-- host/src/health.rs: what `UpsCollector` shows while the UPS cannot be read.
use servatory.Prelude.{
  ℕ, zero, suc, ◌+◌, ◌≤◌, min, ◌≡◌, refl, ◌∙◌, true, Option, none, some, List, [], ◌∷◌, arith, leb,
  if◌then◌else◌,
}
use servatory.Prelude.Text.{Text}
use servatory.Prelude.Words.{u8_max}
use servatory.Protocol.Snapshot.{UpsSnapshot, unavailable}
use servatory.Host.Ups.{
  UpsCollector, new_collector, first_reading, no_reading, stale_snapshot, collect,
}

-- Neither executable gives a reading.
abbrev unreadable : List (Option UpsSnapshot)
unreadable = none ∷ none ∷ []

-- Rounds without a reading.
pub outage : ℕ → UpsCollector → UpsCollector
outage zero c = c
outage (suc n) c = outage n (collect unreadable c).0

-- After `n` failures in a row since the collector was `c`.
record Failed (n : ℕ) (c d : UpsCollector) : Type 0 where
  target : d.target ≡ c.target
  last_good : d.last_good ≡ c.last_good
  limit : d.failures_before_unavailable ≡ c.failures_before_unavailable
  counter : d.consecutive_failures ≡ min u8_max n

collect-Failed :
    (t : Text) (n : ℕ) (c d : UpsCollector)
    → c.target ≡ some t
    → Failed n c d
    → Failed (suc n) c (collect unreadable d).0
unfolding collect
collect-Failed t n c d h f = ground arith

outage-Failed :
    (t : Text) (n k : ℕ) (c d : UpsCollector)
    → c.target ≡ some t
    → Failed k c d
    → Failed (n + k) c (outage n d)
unfolding outage
outage-Failed t zero k c d h f = let none_more : zero + k ≡ k = omega arith in rw none_more f
outage-Failed t (suc n) k c d h f =
    let count : suc n + k ≡ n + suc k = omega arith in
    rw count (outage-Failed t n (suc k) c (collect unreadable d).0 h (collect-Failed t k c d h f))

-- The last of `n + 1` failures in a row.
abbrev pub shown_after : ℕ → UpsCollector → UpsSnapshot
shown_after n c = (collect unreadable (outage n c)).1

collect-shows :
    (t : Text) (n : ℕ) (c d : UpsCollector)
    → c.target ≡ some t
    → c.failures_before_unavailable ≤ u8_max
    → Failed n c d
    → (collect unreadable d).1 ≡ stale_snapshot c.failures_before_unavailable (n + 1) c.last_good
unfolding collect
collect-shows t n c d h k f =
    let counted : leb c.failures_before_unavailable (min u8_max (min u8_max n + 1))
        ≡ leb c.failures_before_unavailable (n + 1) =
      ground arith in
    rw (f.target ∙ h, f.limit, f.last_good, f.counter, counted)

shown_after_lem :
    (t : Text) (n : ℕ) (c : UpsCollector)
    → c.target ≡ some t
    → c.failures_before_unavailable ≤ u8_max
    → c.consecutive_failures ≡ 0
    → shown_after n c ≡ stale_snapshot c.failures_before_unavailable (n + 1) c.last_good
shown_after_lem t n c h k z =
    let start : Failed 0 c c = ground arith in
    let none_more : n + 0 ≡ n = omega arith in
    collect-shows t n c (outage n c) h k (rw none_more at (outage-Failed t n 0 c c h start))

-- With a target, a reading is shown as it is. If the UPS then cannot be read `n + 1` times in a row,
-- the last of these rounds shows that same reading marked as stale, and with the status unavailable
-- exactly if the limit of failures (a `u8`) is at most `n + 1`. The same holds from the start, with
-- the empty reading of unknown status in place of the last one.
pub collect-outage :
    (c : UpsCollector) (t : Text) (readings : List (Option UpsSnapshot)) (s : UpsSnapshot) (n : ℕ)
    → c.target ≡ some t
    → c.failures_before_unavailable ≤ u8_max
    → first_reading readings ≡ some s
    → ((collect readings c).1 ≡ s)
      × (shown_after n (collect readings c).0 ≡ record s {
        stale = true;
        status = if leb c.failures_before_unavailable (n + 1) then unavailable else s.status;
      })
      × (shown_after n (new_collector (some t) c.failures_before_unavailable) ≡ record no_reading {
        status =
            if leb c.failures_before_unavailable (n + 1) then unavailable else no_reading.status;
      })
unfolding collect
collect-outage c t readings s n h k e =
    let good = record c { consecutive_failures = 0; last_good = some s } in
    let read : collect readings c ≡ (good, s) = ground arith in
    (
      rw read,
      rw (read, shown_after_lem t n good h k refl),
      shown_after_lem t n (new_collector (some t) c.failures_before_unavailable) refl k refl,
    )
