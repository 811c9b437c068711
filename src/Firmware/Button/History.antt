-- ===== src/Firmware/Button/History.antt =====
-- firmware/src/main.rs: what the button does, read off the samples it has seen.
use servatory.Prelude.{
  ◌-◌, ◌≡◌, refl, Bool, true, false, not, ◌&&◌, ◌||◌, Option, none, some, List, [], ◌∷◌, arith, leb,
  if◌then◌else◌, is_some_and,
}
use servatory.Prelude.Time.{Instant}
use servatory.Firmware.Button.{
  Button, ButtonAction, next_screen, shutdown_requested, debounce, new_button, bool_eq, update,
}
use servatory.Firmware.Button.Presses.{Sample}

-- The button after the samples, the latest of which comes first.
abbrev pub after : Instant → List Sample → Button
after start [] = new_button start
after start (s ∷ hs) = (update (after start hs) s.pressed s.now s.long_press).0

abbrev last_level : List Sample → Bool
last_level [] = false
last_level (s ∷ hs) = s.pressed

-- Since when the pin has had this level, if it has it at `t`: the time of the first of the unbroken run
-- of samples with it, and the start for the released button that nobody has touched.
abbrev pub held_since : Instant → Bool → Instant → List Sample → Instant
held_since start level t [] = if level then t else start
held_since start level t (s ∷ hs) =
    if bool_eq s.pressed level then held_since start level s.now hs else t

-- The debounced level: the latest one that the pin has had for the debounce time.
abbrev pub settled : Instant → List Sample → Bool
settled start [] = false
settled start (s ∷ hs) =
    if leb debounce (s.now - held_since start s.pressed s.now hs)
    then s.pressed
    else settled start hs

-- The sample with which the present debounced press began.
abbrev pub accepted_at : Instant → List Sample → Option Instant
accepted_at start [] = none
accepted_at start (s ∷ hs) =
    if settled start (s ∷ hs)
    then (if settled start hs then accepted_at start hs else some s.now)
    else none

-- The press, at this sample, has lasted for the configured time since it was accepted; the pin is steady.
abbrev pub is_long : Instant → Sample → List Sample → Bool
is_long start s hs =
    bool_eq s.pressed (last_level hs)
    && is_some_and (accepted_at start (s ∷ hs)) (λ t. leb s.long_press (s.now - t))

-- The present press has been long already.
abbrev pub is_spent : Instant → List Sample → Bool
is_spent start [] = false
is_spent start (s ∷ hs) =
    settled start (s ∷ hs) && ((settled start hs && is_spent start hs) || is_long start s hs)

-- What the sample `s` brings about after the samples `hs`: the next page at the end of a press that was
-- not long, a shutdown request when a press becomes long.
abbrev pub due_action : Instant → Sample → List Sample → Option ButtonAction
due_action start s hs =
    if settled start hs && not (settled start (s ∷ hs))
    then (if is_spent start hs then none else some next_screen)
    else if is_long start s hs && not (settled start hs && is_spent start hs)
    then some shutdown_requested
    else none

abbrev changed_since : Instant → List Sample → Instant
changed_since start [] = start
changed_since start (s ∷ hs) = held_since start s.pressed s.now hs

held_since-changed :
    (start : Instant) (level : Bool) (t : Instant) (hs : List Sample)
    → held_since start level t hs
      ≡ (if bool_eq level (last_level hs) then changed_since start hs else t)
held_since-changed start true t [] = refl
held_since-changed start false t [] = refl
held_since-changed start level t (s ∷ hs) = ground arith

-- The fields of the button are what the samples say.
record Follows (start : Instant) (hs : List Sample) (b : Button) : Type 0 where
  raw : b.raw_pressed ≡ last_level hs
  changed : b.raw_changed_at ≡ changed_since start hs
  stable : b.stable_pressed ≡ settled start hs
  started : b.pressed_at ≡ accepted_at start hs
  spent : (b.stable_pressed && b.long_press_sent) ≡ is_spent start hs

update-Follows :
    (start : Instant) (s : Sample) (hs : List Sample) (b : Button)
    → Follows start hs b
    → Follows start (s ∷ hs) (update b s.pressed s.now s.long_press).0
unfolding update
update-Follows start s hs b v = ground (arith, held_since-changed start s.pressed s.now hs)

after-Follows : (start : Instant) (hs : List Sample) → Follows start hs (after start hs)
after-Follows start [] = record {
  raw = refl;
  changed = refl;
  stable = refl;
  started = refl;
  spent = refl;
}
after-Follows start (s ∷ hs) = update-Follows start s hs (after start hs) (after-Follows start hs)

due_lem :
    (start : Instant) (s : Sample) (hs : List Sample) (b : Button)
    → Follows start hs b
    → (update b s.pressed s.now s.long_press).1 ≡ due_action start s hs
unfolding update
due_lem start s hs b v = ground (arith, held_since-changed start s.pressed s.now hs)

-- After any samples the stable level of a new button is the latest level that the samples show for
-- 30 ms without a break, and released before there is one.
pub after-settled :
    (start : Instant) (hs : List Sample) → (after start hs).stable_pressed ≡ settled start hs
after-settled start hs = (after-Follows start hs).stable

-- After any samples a further one brings about the action that is due: the next page where the debounced
-- level falls at the end of a press that was never long; a shutdown request where the pin is steady
-- and a debounced press has for the first time lasted, since the sample that settled it, for the
-- configured hold time; and nothing otherwise.
pub update-due_action :
    (start : Instant) (s : Sample) (hs : List Sample)
    → (update (after start hs) s.pressed s.now s.long_press).1 ≡ due_action start s hs
update-due_action start s hs = due_lem start s hs (after start hs) (after-Follows start hs)
