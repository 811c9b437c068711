-- ===== src/Host/Ups/Parse.antt =====
-- host/src/health.rs: `parse_upsc`. Reading an `f64` and clamping it is the parameter `UpsFigures`;
-- a carriage return at a line's end is taken off by `trim` here.
use servatory.Prelude.{ℕ, Bool, false, Option, none, some, List, [], ◌∷◌, if◌then◌else◌, bind, any}
use servatory.Prelude.Text.{Text, codes, text_eq, trim}
use servatory.Prelude.Words.{u32_max}
use servatory.Prelude.Decimal.{parse_decimal}
use servatory.Prelude.Split.{lines, split_once, split_whitespace}
use servatory.Protocol.Snapshot.{UpsSnapshot, UpsStatus}

-- `parse_percent_u8`, and the watts as `parse` and `bounded_u16` give them.
pub record UpsFigures : Type 0 where
  pub parse_percent_u8 : Text → Option ℕ
  pub parse_watts : Text → Option ℕ

-- The value of a line with this key.
abbrev pub value_of : Text → Option (Text × Text) → Option Text
value_of key none = none
value_of key (some (candidate, value)) =
    if text_eq (trim candidate) key then some (trim value) else none

-- `find_map` over the lines.
abbrev pub find_value : Text → List Text → Option Text
find_value key [] = none
find_value key (line ∷ rest) =
    let later = find_value key rest in
    elim (value_of key (split_once b':' line)) [ some v ↦ some v | none ↦ later ]

abbrev pub has : List Text → Text → Bool
has flags flag = any (λ candidate. text_eq candidate flag) flags

-- The most urgent of the flags.
unfoldable pub status_of_flags : List Text → UpsStatus
status_of_flags flags =
    if has flags (codes "LB")
    then UpsStatus.low_battery
    else if has flags (codes "RB")
    then UpsStatus.replace_battery
    else if has flags (codes "OFF")
    then UpsStatus.output_off
    else if has flags (codes "OB")
    then UpsStatus.on_battery
    else if has flags (codes "BYPASS")
    then UpsStatus.bypass
    else if has flags (codes "CHRG")
    then UpsStatus.charging
    else if has flags (codes "OL")
    then UpsStatus.online
    else UpsStatus.unknown

-- `parse_upsc`
unfoldable pub parse_upsc : UpsFigures → Text → Option UpsSnapshot
parse_upsc f output =
    let value = λ (key : Text). find_value key (lines output) in
    bind (value (codes "ups.status")) λ flags. some (record {
      status = status_of_flags (split_whitespace flags);
      battery_percent = bind (value (codes "battery.charge")) f.parse_percent_u8;
      load_percent = bind (value (codes "ups.load")) f.parse_percent_u8;
      runtime_seconds = bind (value (codes "battery.runtime")) (parse_decimal u32_max);
      estimated_watts = bind (value (codes "ups.realpower")) f.parse_watts;
      stale = false;
    })

-- What each executable gave: whether it succeeded, and its output.
abbrev pub readings_of : UpsFigures → List (Option (Bool × Text)) → List (Option UpsSnapshot)
readings_of f [] = []
readings_of f (none ∷ outputs) = none ∷ readings_of f outputs
readings_of f (some (succeeds, output) ∷ outputs) =
    (if succeeds then parse_upsc f output else none) ∷ readings_of f outputs
