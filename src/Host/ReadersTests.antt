-- ===== src/Host/ReadersTests.antt =====
-- host/src/health.rs: the parsers on the texts of the tests there.
use servatory.Prelude.{◌≡◌, refl, true, false, none, some, [], ◌∷◌}
use servatory.Prelude.Text.{codes, text_eq, trim}
use servatory.Prelude.Words.{u8_max, u16_max}
use servatory.Prelude.Decimal.{parse_decimal, decimal}
use servatory.Protocol.Snapshot.{
  UpsStatus, new_filesystem_usage, GuestKind, GuestStatus, new_guest_summary,
}
use servatory.Host.Ups.Parse.{UpsFigures, parse_upsc, status_of_flags}
use servatory.Host.Yaml.{Number}
use servatory.Host.Json.{
  Json, number, string, array, object, element, no_elements, field, no_fields,
}
use servatory.Host.Guests.{parse_guest, parse_guests}
use servatory.Host.Readers.{parse_hundredths, parse_filesystem_usage, parse_default_route}

abbrev whole_figures : UpsFigures
whole_figures = record {
  parse_percent_u8 = parse_decimal u8_max;
  parse_watts = parse_decimal u16_max;
}

online_ups :
    parse_upsc whole_figures (
      codes
        "battery.charge: 100\nbattery.runtime: 2160\nups.load: 15\nups.realpower: 102\nups.status: OL\n")
    ≡ some (record {
      status = UpsStatus.online;
      battery_percent = some 100;
      load_percent = some 15;
      runtime_seconds = some 2160;
      estimated_watts = some 102;
      stale = false;
    })
unfolding parse_upsc status_of_flags text_eq trim parse_decimal
online_ups = refl

urgent_flag :
    status_of_flags (codes "OB" ∷ codes "LB" ∷ codes "DISCHRG" ∷ []) ≡ UpsStatus.low_battery
unfolding status_of_flags text_eq
urgent_flag = refl

disk_usage :
    parse_filesystem_usage
      (codes
        "Filesystem 1024-blocks Used Available Capacity Mounted on\n/dev/sdc1 9767546464 5476083304 3758096384 60% /mnt/pve/backup\n")
      (codes "/mnt/pve/backup")
    ≡ some (record { used_percent = 60; available_mib = 3670016; mounted = true })
unfolding parse_filesystem_usage new_filesystem_usage text_eq parse_decimal
disk_usage = refl

other_mount :
    parse_filesystem_usage
      (codes
        "Filesystem 1024-blocks Used Available Capacity Mounted on\n/dev/mapper/pve-root 98559220 5000000 87000000 6% /\n")
      (codes "/mnt/pve/backup")
    ≡ none
unfolding parse_filesystem_usage text_eq
other_mount = refl

lowest_metric :
    parse_default_route (
      codes
        "Iface Destination Gateway Flags RefCnt Use Metric Mask MTU Window IRTT\neno1 00000000 0101A8C0 0003 0 0 200 00000000 0 0 0\nvmbr0 00000000 0101A8C0 0003 0 0 100 00000000 0 0 0\n")
    ≡ some (codes "vmbr0")
unfolding parse_default_route text_eq parse_decimal
lowest_metric = refl

load_average : parse_hundredths (codes "1.25") ≡ some 125
unfolding parse_hundredths parse_decimal
load_average = refl

whole_load : parse_hundredths (codes "12") ≡ some 1200
unfolding parse_hundredths parse_decimal
whole_load = refl

abbrev atlas : Json
atlas = object (
    field (codes "vmid") (number (Number.natural 100)) (
      field (codes "node") (string (codes "pve-01")) (
        field (codes "cpu") (number (Number.float 7))
          (field (codes "maxmem") (number (Number.natural 8589934592)) no_fields))))

abbrev remote : Json
remote = object (
    field (codes "vmid") (number (Number.natural 200))
      (field (codes "node") (string (codes "pve-02")) no_fields))

-- The guest of this host is listed, under its number for want of a name.
local_guests :
    parse_guests
      (λ n. 23)
      (some (array (element atlas (element remote no_elements))))
      (codes "pve-01")
    ≡ record {
      guests =
          record {
            vmid = 100;
            kind = GuestKind.virtual_machine;
            status = GuestStatus.stopped;
            cpu_percent = 23;
            memory_used_mib = 0;
            memory_total_mib = 8192;
            name = codes "100";
          }
          ∷ [];
    }
unfolding parse_guests parse_guest new_guest_summary text_eq decimal
local_guests = refl
