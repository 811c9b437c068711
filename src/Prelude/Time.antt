-- ===== src/Prelude/Time.antt =====
-- Instants and durations. The unit is the microsecond, the tick of the firmware's clock. An instant
-- minus a later one is a panic there; the clock is monotone, and the components' invariants say that
-- no stored instant lies ahead of it.
use Prim.Native.Nat.{ℕ, ◌*◌, ◌/◌}

abbrev pub Instant : Type 0
Instant = ℕ

abbrev pub Duration : Type 0
Duration = ℕ

abbrev pub millis : ℕ → Duration
millis n = n * 1000

abbrev pub secs : ℕ → Duration
secs n = n * 1000000

abbrev pub as_millis : Duration → ℕ
as_millis d = d / 1000

abbrev pub as_secs : Duration → ℕ
as_secs d = d / 1000000
