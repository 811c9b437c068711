-- ===== src/Firmware/Button.antt =====
-- firmware/src/main.rs: `Button`, the debounced front button.
pub mod Presses
pub mod History
use servatory.Prelude.{
  ◌-◌, Bool, true, false, not, ◌&&◌, Option, none, some, leb, if◌then◌else◌, is_some_and, bind,
}
use servatory.Prelude.Time.{Instant, Duration, millis}

pub data ButtonAction : Type 0 where
  next_screen shutdown_requested : ButtonAction

abbrev pub debounce : Duration
debounce = millis 30

pub record Button : Type 0 where
  pub raw_pressed : Bool
  pub raw_changed_at : Instant
  pub stable_pressed : Bool
  pub pressed_at : Option Instant
  pub long_press_sent : Bool

-- `Button::new`
abbrev pub new_button : Instant → Button
new_button now = record {
  raw_pressed = false;
  raw_changed_at = now;
  stable_pressed = false;
  pressed_at = none;
  long_press_sent = false;
}

abbrev pub bool_eq : Bool → Bool → Bool
bool_eq true b = b
bool_eq false b = not b

-- The second `if` of `update`: a level that lasted becomes the stable one. A short press acts when it
-- is let go.
settle : Button → Instant → Button × Option ButtonAction
settle b now =
    if not (bool_eq b.stable_pressed b.raw_pressed) && leb debounce (now - b.raw_changed_at)
    then (if b.raw_pressed
        then (
          record b { stable_pressed = true; pressed_at = some now; long_press_sent = false },
          none,
        )
        else (
          record b { stable_pressed = false; pressed_at = none },
          if b.long_press_sent then none else some next_screen,
        ))
    else (b, none)

-- The third `if`: a press that is held long enough acts once.
hold : Button → Instant → Duration → Button × Option ButtonAction
hold b now long_press =
    if b.stable_pressed
      && not b.long_press_sent
      && is_some_and b.pressed_at (λ started. leb long_press (now - started))
    then (record b { long_press_sent = true }, some shutdown_requested)
    else (b, none)

unfoldable pub update : Button → Bool → Instant → Duration → Button × Option ButtonAction
unfolding settle hold
update b pressed now long_press =
    if not (bool_eq pressed b.raw_pressed)
    then (record b { raw_pressed = pressed; raw_changed_at = now }, none)
    else let (b', action) = settle b now in
      elim action [ some a ↦ (b', some a) | none ↦ hold b' now long_press ]

-- `held_for`
unfoldable pub held_for : Button → Instant → Option Duration
held_for b now =
    if b.stable_pressed && not b.long_press_sent
    then bind b.pressed_at (λ started. some (now - started))
    else none
