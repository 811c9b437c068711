-- ===== src/Host/Config/Layout.antt =====
-- host/src/config.rs: `parse_view_layout`, which page a view's layout asks for.
use servatory.Prelude.{
  ℕ, Bool, true, false, ◌&&◌, leb, if◌then◌else◌, unwrap_or, Result, ok, err, and_then, ok_or,
}
use servatory.Prelude.Text.{codes}
use servatory.Prelude.Words.{u32_max}
use Prim.Native.String.{String}
use servatory.Host.Yaml.{Value, contains, find_number, find_bool, find_string_list, column_contains}
use servatory.Host.Config.{
  ViewLayout, overview, resources, storage, power_network, guests, ConfigError, invalid_layout,
  out_of_range,
}

-- `u32::try_from`
abbrev pub to_u32 : ℕ → Result ℕ ConfigError
to_u32 n = if leb n u32_max then ok n else err out_of_range

guest_list : Value → Result ViewLayout ConfigError
guest_list layout = and_then (to_u32 (unwrap_or (find_number (codes "offset") layout) 0)) λ offset.
    and_then (to_u32 (unwrap_or (find_number (codes "limit") layout) 4))
      λ limit. ok (guests (unwrap_or (find_bool (codes "paginate") layout) false) offset limit)

storage_lists : Value → Result ViewLayout ConfigError
storage_lists layout =
    and_then (ok_or (find_string_list (codes "filesystems") layout) invalid_layout) λ filesystems.
      and_then (ok_or (find_string_list (codes "smart") layout) invalid_layout) λ smart.
        ok (storage filesystems smart (column_contains layout (codes "left") (codes "filesystems")))

pub parse_view_layout : Value → Result ViewLayout ConfigError
unfolding guest_list storage_lists
parse_view_layout layout =
    if contains (codes "guest_list") layout
    then guest_list layout
    else if contains (codes "filesystems") layout && contains (codes "smart") layout
    then storage_lists layout
    else if columns "left" "health" && columns "right" "host_summary"
    then ok overview
    else if contains (codes "cpu") layout && contains (codes "memory") layout
    then ok resources
    else if columns "left" "ups" && columns "right" "network"
    then ok (power_network true)
    else if columns "right" "ups" && columns "left" "network"
    then ok (power_network false)
    else err invalid_layout
  where
    columns : String → String → Bool
    columns side needle = column_contains layout (codes side) (codes needle)
