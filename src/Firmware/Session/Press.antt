-- ===== src/Firmware/Session/Press.antt =====
-- firmware/src/main.rs: what the main loop does with the button.
use servatory.Prelude.{
  ℕ, ◌+◌, ◌-◌, ◌*◌, ◌/◌, ◌%◌, min, max, Bool, true, false, ◌&&◌, ◌||◌, none, some, leb,
  if◌then◌else◌, is_some_and, unwrap_or,
}
use servatory.Prelude.Time.{Instant, Duration, millis, as_millis}
use servatory.Protocol.Message.{DeviceMessage}
use servatory.Firmware.Button.{ButtonAction, next_screen, shutdown_requested, update, held_for}
use servatory.Firmware.UsbTx.{enqueue}
use servatory.Firmware.Session.{Stick, is_connected, page_count}

abbrev pub display_height : ℕ
display_height = 135

abbrev pub double_click_window : Duration
double_click_window = millis 200

-- `saturating_mul` and the last `try_from` cannot take effect: a button is held less than 2^55
-- milliseconds, and the height is at most 135.
unfoldable pub shutdown_progress_height : Duration → Duration → Duration → ℕ
shutdown_progress_height held delay hold =
    let elapsed = as_millis held - as_millis delay in
    let animation = max (as_millis hold - as_millis delay) 1 in
    min (elapsed * display_height / animation) display_height

-- A short press: leave the about screen, open it on the second click, or go to the next page.
pub turn_page : Instant → Stick → Stick
turn_page now s =
    if s.show_about
    then record s { show_about = false; last_short_click = none }
    else if is_some_and s.last_short_click (λ t. leb (now - t) double_click_window)
    then record s { show_about = true; last_short_click = none }
    else record s { page = (s.page + 1) % page_count s.config; last_short_click = some now }

stop_animation : Bool → Stick → Stick
stop_animation redraw s = record s {
  animation_active = false;
  animation_height = 0;
  render_pending = s.render_pending || redraw;
}

-- The body of `if let Some(action) = button.update(…)`. A short press during the animation only
-- cancels it.
unfoldable pub on_action : Instant → ButtonAction → Stick → Stick
unfolding turn_page stop_animation
on_action now next_screen s =
    stop_animation true (if s.animation_active then s else turn_page now s)
on_action now shutdown_requested s =
    let t = record s { last_short_click = none } in
    if is_connected s.daemon
    then stop_animation false
        (record t { usb_tx = enqueue t.usb_tx DeviceMessage.shutdown_requested })
    else stop_animation s.animation_active t

-- The `else` branches: the animation grows while a connected stick's button is held.
animate : Instant → Duration → Duration → Stick → Stick
unfolding stop_animation
animate now delay hold s =
    if is_connected s.daemon && is_some_and (held_for s.button now) (λ held. leb delay held)
    then record s {
      animation_active = true;
      animation_height = shutdown_progress_height (unwrap_or (held_for s.button now) 0) delay hold;
    }
    else if s.animation_active
    then stop_animation true s
    else s

unfoldable pub press : Instant → Bool → Stick → Stick
unfolding on_action animate
press now pressed s =
    let hold = millis s.config.shutdown_hold_ms in
    let delay = millis s.config.shutdown_animation_delay_ms in
    let (button, action) = update s.button pressed now hold in
    let t = record s { button = button } in
    elim action [ some a ↦ on_action now a t | none ↦ animate now delay hold t ]
