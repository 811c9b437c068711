-- ===== src/Host/Readers.antt =====
-- host/src/health.rs: the parsers of load, disk usage and routes.
use servatory.Prelude.{
  ℕ, ◌+◌, ◌-◌, ◌*◌, ◌/◌, ◌%◌, min, not, ◌&&◌, ◌||◌, Option, none, some, List, [], ◌∷◌, ltb, leb,
  ◌==◌, if◌then◌else◌, is_some_and, unwrap_or, bind, length, is_empty, get_elem?, drop,
}
use servatory.Prelude.Text.{Text, codes, text_eq}
use servatory.Prelude.Words.{u8_max, u16_max, u32_max, u64_max, clamp_u32}
use servatory.Prelude.Decimal.{parse_decimal, is_digit, unsigned}
use servatory.Prelude.Split.{lines, split_once, split_whitespace}
use servatory.Protocol.Snapshot.{FilesystemUsage, new_filesystem_usage}

-- The value of a byte of the fraction; what is behind the second byte does not count.
abbrev pub fraction_digit : Option ℕ → ℕ
fraction_digit none = 0
fraction_digit (some c) = c - b'0'

-- `parse_hundredths`, of a text of ASCII characters
unfoldable pub parse_hundredths : Text → Option ℕ
parse_hundredths value =
    let (whole, fraction) = unwrap_or (split_once b'.' value) (value, []) in
    bind (parse_decimal u32_max whole) λ n.
      let tenths = fraction_digit (get_elem? fraction 0) in
      let hundredths = fraction_digit (get_elem? fraction 1) in
      let sum = min u32_max (min u32_max (min u32_max (n * 100) + tenths * 10) + hundredths) in
      if leb sum u16_max then some sum else none

abbrev pub last : List Text → Option Text
last [] = none
last (t ∷ []) = some t
last (t ∷ u ∷ us) = last (u ∷ us)

-- `trim_end_matches`
abbrev pub drop_unless_kept : (k c : ℕ) → Text → Text
drop_unless_kept k c [] = if c == k then [] else c ∷ []
drop_unless_kept k c (d ∷ t) = c ∷ d ∷ t

abbrev pub trim_end_matches : ℕ → Text → Text
trim_end_matches k [] = []
trim_end_matches k (c ∷ t) = drop_unless_kept k c (trim_end_matches k t)

-- `parse_filesystem_usage`
unfoldable pub parse_filesystem_usage : (output expected_mount : Text) → Option FilesystemUsage
parse_filesystem_usage output expected_mount = bind (last (lines output)) λ line.
    let fields = split_whitespace line in
    if ltb (length fields) 6 || not (is_some_and (last fields) (text_eq expected_mount))
    then none
    else bind (get_elem? fields 3) λ available.
      bind (parse_decimal u64_max available) λ available_kib. bind (get_elem? fields 4) λ used.
        bind (parse_decimal u8_max (trim_end_matches b'%' used)) λ used_percent.
          some (new_filesystem_usage used_percent (clamp_u32 (available_kib / 1024)))

abbrev pub hex_digit : ℕ → Option ℕ
hex_digit c =
    if is_digit c
    then some (c - b'0')
    else if leb b'a' c && leb c b'f'
    then some (c - b'a' + 10)
    else if leb b'A' c && leb c b'F'
    then some (c - b'A' + 10)
    else none

abbrev pub hex_number : (read : ℕ) → Text → Option ℕ
hex_number read [] = some read
hex_number read (c ∷ t) = bind (hex_digit c) (λ d. hex_number (read * 16 + d) t)

-- `u16::from_str_radix`
abbrev pub parse_hex_u16 : Text → Option ℕ
parse_hex_u16 t =
    if is_empty t
    then none
    else bind (hex_number 0 (unsigned t)) (λ n. if leb n u16_max then some n else none)

-- A line of the routing table that is a default route which is up: its metric and its interface.
abbrev pub default_route : List Text → Option (ℕ × Text)
default_route fields = bind (get_elem? fields 7) λ mask. bind (get_elem? fields 1) λ destination.
    if not (text_eq destination (codes "00000000")) || not (text_eq mask (codes "00000000"))
    then none
    else bind (get_elem? fields 3) λ flags_text. bind (parse_hex_u16 flags_text) λ flags.
      if flags % 2 == 0
      then none
      else bind (get_elem? fields 6) λ metric_text.
        bind (parse_decimal u32_max metric_text)
          λ metric. bind (get_elem? fields 0) (λ interface. some (metric, interface))

-- `min_by_key`: the first of the least.
abbrev pub least : ℕ × Text → List (ℕ × Text) → ℕ × Text
least best [] = best
least best (r ∷ rs) = least (if ltb r.0 best.0 then r else best) rs

abbrev pub min_by_metric : List (ℕ × Text) → Option Text
min_by_metric [] = none
min_by_metric (r ∷ rs) = some (least r rs).1

abbrev pub default_routes : List Text → List (ℕ × Text)
default_routes [] = []
default_routes (line ∷ rest) =
    let later = default_routes rest in
    elim (default_route (split_whitespace line)) [ some r ↦ r ∷ later | none ↦ later ]

-- `parse_default_route`
unfoldable pub parse_default_route : Text → Option Text
parse_default_route routes = min_by_metric (default_routes (drop 1 (lines routes)))
