-- ===== src/Host/Guests.antt =====
-- host/src/health.rs: the guests that Proxmox lists. The document is given as `serde_json` parses it,
-- and what `percent` makes of a hundred times an `f64` is the argument `percent`.
use servatory.Prelude.{
  ℕ, ◌/◌, Bool, Option, none, some, List, [], ◌∷◌, ltb, if◌then◌else◌, is_some_and, is_none_or,
  unwrap_or, bind, filter,
}
use servatory.Prelude.Text.{Text, codes, text_eq}
use servatory.Prelude.Words.{u32_max, clamp_u32}
use servatory.Prelude.Decimal.{decimal}
use servatory.Protocol.Snapshot.{
  GuestSummary, GuestSnapshot, GuestKind, GuestStatus, new_guest_summary,
}
use servatory.Host.Yaml.{Number}
use servatory.Host.Json.{Json, get, as_str, as_u64, array_of, number}

-- `as_f64`
abbrev pub as_f64 : Json → Option Number
as_f64 (number n) = some n
as_f64 _ = none

abbrev pub bytes_to_mib : ℕ → ℕ
bytes_to_mib bytes = clamp_u32 (bytes / 1048576)

abbrev pub field_is : (key expected : Text) → Json → Bool
field_is key expected value = is_some_and (bind (get key value) as_str) (text_eq expected)

abbrev pub mib_of : Text → Json → ℕ
mib_of key value = bytes_to_mib (unwrap_or (bind (get key value) as_u64) 0)

module _ (percent : Number → ℕ) where
  -- `parse_guest`
  unfoldable pub parse_guest : Json → Option GuestSummary
  parse_guest value = bind (bind (get (codes "vmid") value) as_u64) λ vmid.
      if ltb u32_max vmid
      then none
      else some (
          new_guest_summary vmid (unwrap_or (bind (get (codes "name") value) as_str) (decimal vmid))
            (if field_is (codes "type") (codes "lxc") value
              then GuestKind.container
              else GuestKind.virtual_machine)
            (if field_is (codes "status") (codes "running") value
              then GuestStatus.running
              else GuestStatus.stopped)
            (unwrap_or
              (bind (bind (get (codes "cpu") value) as_f64) (λ usage. some (percent usage))) 0)
            (mib_of (codes "mem") value) (mib_of (codes "maxmem") value))

  -- `filter_map`
  abbrev pub parse_each : List Json → List GuestSummary
  parse_each [] = []
  parse_each (v ∷ vs) =
      let rest = parse_each vs in elim (parse_guest v) [ some g ↦ g ∷ rest | none ↦ rest ]

  abbrev pub guests_of : (host_name : Text) → Option (List Json) → GuestSnapshot
  guests_of host_name none = record { guests = [] }
  guests_of host_name (some values) = record {
    guests =
        parse_each (
          filter (λ v. is_none_or (bind (get (codes "node") v) as_str) (text_eq host_name)) values);
  }

  -- `parse_guests`
  unfoldable pub parse_guests : Option Json → (host_name : Text) → GuestSnapshot
  parse_guests document host_name = guests_of host_name (array_of document)
