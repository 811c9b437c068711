-- ===== src/Prelude/Words.antt =====
-- Unsigned machine integers as numbers below a power of two.
use Prim.Native.Nat.{ℕ, ◌+◌, ◌%◌, min}

abbrev pub u8_max : ℕ
u8_max = 255

abbrev pub u16_max : ℕ
u16_max = 65535

abbrev pub u32_max : ℕ
u32_max = 4294967295

abbrev pub u64_max : ℕ
u64_max = 18446744073709551615

-- `value.saturating_add(1)` on a `u8`.
abbrev pub saturating_suc_u8 : ℕ → ℕ
saturating_suc_u8 n = min u8_max (n + 1)

-- `value.wrapping_add(1)` on a `u32`.
abbrev pub wrapping_suc_u32 : ℕ → ℕ
wrapping_suc_u32 n = (n + 1) % (u32_max + 1)

-- `u32::try_from(value).unwrap_or(u32::MAX)`
abbrev pub clamp_u32 : ℕ → ℕ
clamp_u32 n = min u32_max n
