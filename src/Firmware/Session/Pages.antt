-- ===== src/Firmware/Session/Pages.antt =====
-- firmware/src/main.rs: the pages that short presses go through.
use servatory.Prelude.{
  ℕ, suc, ◌+◌, ◌-◌, ◌%◌, ◌≤◌, ◌<◌, ◌≡◌, ap, ◌∙◌, true, false, Option, some, List, [], ◌∷◌, arith,
  ltb, is_none_or, length,
}
use native.Mathlib.Nat.{mod-add-mod}
use servatory.Prelude.Time.{Instant}
use servatory.Firmware.Button.{next_screen}
use servatory.Firmware.Session.{Stick, page_count}
use servatory.Firmware.Session.Press.{on_action, double_click_window}

-- Short presses at these times, one after the other.
pub clicks : List Instant → Stick → Stick
clicks [] s = s
clicks (t ∷ ts) s = clicks ts (on_action t next_screen s)

-- Each press comes later than the double-click window after the one before it.
abbrev pub IsSpaced : Option Instant → List Instant → Type 0
IsSpaced last [] = Unit
IsSpaced last (t ∷ ts) =
    (is_none_or last (λ l. ltb double_click_window (t - l)) ≡ true) × IsSpaced (some t) ts

click_page :
    (t : Instant) (s : Stick)
    → s.show_about ≡ false
    → s.animation_active ≡ false
    → is_none_or s.last_short_click (λ l. ltb double_click_window (t - l)) ≡ true
    → let s' = on_action t next_screen s in
      (s'.page ≡ (s.page + 1) % page_count s.config)
      × (s'.config ≡ s.config)
      × (s'.show_about ≡ false)
      × (s'.animation_active ≡ false)
      × (s'.last_short_click ≡ some t)
unfolding on_action
click_page t s a b c = ground arith

mod_step : (p k n : ℕ) → ((p + 1) % n + k) % n ≡ (p + suc k) % n
mod_step p k n = mod-add-mod (p + 1) n k ∙ ap (λ x. x % n) regroup
  where
    regroup : p + 1 + k ≡ p + suc k
    regroup = omega arith

-- From a page that exists, outside the about screen and the animation, single presses that are
-- further apart than the double-click window step through the pages one by one and come round after
-- the last.
pub clicks_page :
    (ts : List Instant) (s : Stick)
    → s.page < page_count s.config
    → s.show_about ≡ false
    → s.animation_active ≡ false
    → IsSpaced s.last_short_click ts
    → (clicks ts s).page ≡ (s.page + length ts) % page_count s.config
unfolding clicks
clicks_page [] s r a b h = grind arith
clicks_page (t ∷ ts) s r a b h =
    let s' = on_action t next_screen s in
    let (page, config, a', b', last) = click_page t s a b h.0 in
    let in_range : s'.page < page_count s'.config = rw (page, config) (omega arith) in
    let spaced : IsSpaced s'.last_short_click ts = rw last h.1 in
    let rest = clicks_page ts s' in_range a' b' spaced in
    rest ∙ rw (page, config) (mod_step s.page (length ts) (page_count s.config))

-- From a plain page, two presses within the window open the about screen on the next page, and a
-- third press closes it on that page.
pub double_click :
    (t u w : Instant) (s : Stick)
    → s.show_about ≡ false
    → s.animation_active ≡ false
    → is_none_or s.last_short_click (λ l. ltb double_click_window (t - l)) ≡ true
    → u - t ≤ double_click_window
    → let open_about = clicks (t ∷ u ∷ []) s in
      let closed = clicks (t ∷ u ∷ w ∷ []) s in
      (open_about.show_about ≡ true)
      × (closed.show_about ≡ false)
      × (open_about.page ≡ (s.page + 1) % page_count s.config)
      × (closed.page ≡ open_about.page)
unfolding clicks on_action
double_click t u w s a b c d = ground arith
