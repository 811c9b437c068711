-- ===== src/Firmware/Session/Shutdown.antt =====
-- firmware/src/main.rs: the display of a shutdown, round by round.
use servatory.Prelude.{
  ◌+◌, ◌-◌, ◌%◌, ◌≡◌, Bool, true, false, not, ◌&&◌, ◌||◌, leb, if◌then◌else◌, is_some_and,
  unwrap_or,
}
use servatory.Prelude.Time.{Instant}
use servatory.Firmware.Session.{
  Stick, ShutdownDisplay, connection_lost, reporting_lost, host_poweroff,
}
use servatory.Firmware.Session.Loop.{
  shutdown_remaining, is_failed, is_connection_lost, usb_lost_confirm, report_timeout,
  spinner_interval,
}

-- What the button and the link's timeout leave alone during a shutdown.
record SameShutdown (s t : Stick) : Type 0 where
  daemon : t.daemon ≡ s.daemon
  display : t.display ≡ s.display
  usb_connected : t.usb_connected ≡ s.usb_connected
  usb_lost_since : t.usb_lost_since ≡ s.usb_lost_since
  last_update : t.last_update ≡ s.last_update
  last_spinner : t.last_spinner ≡ s.last_spinner

-- How long the USB connection and the reports have been missing.
abbrev pub is_usb_lost : Instant → Stick → Bool
is_usb_lost now s =
    not s.usb_connected && leb usb_lost_confirm (now - unwrap_or s.usb_lost_since now)

abbrev pub is_silent : Instant → Stick → Bool
is_silent now s = is_some_and s.last_update (λ t. leb report_timeout (now - t))

-- The spinner of a shutdown that is under way, one step on; the other notices have none.
abbrev pub turned : ShutdownDisplay → ShutdownDisplay
turned (host_poweroff spinner remaining) = host_poweroff ((spinner + 1) % 4) remaining
turned d = d

-- The display after the timers: a failure and a lost connection stay; a connection that was missing for
-- two seconds is lost; else three seconds without a report are shown; else the spinner turns if it is
-- due, and nothing changes otherwise.
abbrev pub Shows : Instant → Stick → ShutdownDisplay → Type 0
Shows now s d =
    if is_failed s.display || is_connection_lost s.display
    then d ≡ s.display
    else if is_usb_lost now s
    then d ≡ connection_lost (shutdown_remaining s.display)
    else if is_silent now s
    then d ≡ reporting_lost (shutdown_remaining s.display)
    else d ≡ (if leb spinner_interval (now - s.last_spinner) then turned s.display else s.display)

abbrev pub is_host_poweroff : ShutdownDisplay → Bool
is_host_poweroff (host_poweroff spinner remaining) = true
is_host_poweroff _ = false

-- When the spinner was turned last, if the timers end in this display.
abbrev pub turned_at : Instant → Stick → ShutdownDisplay → Instant
turned_at now s d =
    if is_host_poweroff d && leb spinner_interval (now - s.last_spinner)
    then now
    else s.last_spinner
