-- ===== src/Firmware/Button/Presses.antt =====
-- firmware/src/main.rs: what a press can do.
use servatory.Prelude.{
  ℕ, ◌+◌, ◌≤◌, Bool, true, false, not, ◌&&◌, Option, none, some, List, [], ◌∷◌, arith,
  if◌then◌else◌,
}
use servatory.Prelude.Time.{Instant, Duration}
use servatory.Firmware.Button.{Button, ButtonAction, new_button, update}

-- The pin's level, the time, and the configured hold time at each round of the main loop.
pub record Sample : Type 0 where
  pub pressed : Bool
  pub now : Instant
  pub long_press : Duration

abbrev pub count_action : Option ButtonAction → ℕ
count_action none = 0
count_action (some a) = 1

-- The actions of a run, and the presses that were accepted as stable.
pub actions : Button → List Sample → ℕ
actions b [] = 0
actions b (s ∷ ss) =
    let (b', action) = update b s.pressed s.now s.long_press in count_action action + actions b' ss

abbrev rises : Bool → Bool → ℕ
rises false true = 1
rises _ _ = 0

pub presses : Button → List Sample → ℕ
presses b [] = 0
presses b (s ∷ ss) =
    let b' = (update b s.pressed s.now s.long_press).0 in
    rises b.stable_pressed b'.stable_pressed + presses b' ss

-- A press that has not acted yet.
abbrev unspent : Button → ℕ
unspent b = if b.stable_pressed && not b.long_press_sent then 1 else 0

update-unspent :
    (b : Button) (s : Sample)
    → let r = update b s.pressed s.now s.long_press in
      count_action r.1 + unspent r.0 ≤ unspent b + rises b.stable_pressed r.0.stable_pressed
unfolding update
update-unspent b s = ground arith

actions-le : (b : Button) (ss : List Sample) → actions b ss ≤ unspent b + presses b ss
unfolding actions presses
actions-le b [] = omega arith
actions-le b (s ∷ ss) =
    omega (arith, update-unspent b s, actions-le (update b s.pressed s.now s.long_press).0 ss)

-- Over any samples, a new button acts at most as often as its stable level rose: a press acts once,
-- as a short press or as a shutdown request.
pub actions-le-presses :
    (start : Instant) (ss : List Sample)
    → actions (new_button start) ss ≤ presses (new_button start) ss
actions-le-presses start ss = omega (arith, actions-le (new_button start) ss)
