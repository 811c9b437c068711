-- ===== src/Firmware/Dashboard.antt =====
-- firmware/src/network.rs: the buffer of the dashboard's response and the text that is put there.
pub mod Budget
pub mod Escape
use servatory.Prelude.{
  ℕ, zero, suc, ◌+◌, ◌-◌, ◌*◌, ◌/◌, ◌%◌, ◌≤◌, ◌<◌, min, max, ◌≡◌, refl, sym, ap, ◌∙◌, ◌≢◌, ◌↔◌, ◌⊎◌,
  inl, inr, Bool, true, false, not, ◌&&◌, ◌||◌, Option, none, some, List, [], ◌∷◌, ◌++◌, map,
  append-nil, append_assoc, arith, ltb, leb, ◌==◌, if◌then◌else◌, ltb→lt, leb→le, ==_iff,
  Bool-cases, Option-cases, is_some, is_some_and, is_none_or, unwrap_or, Result, ok, err, and_then,
  ok_or, bind, is_ok, length, is_empty, get_elem?, set?, take?, take, drop, replicate, all, any,
  All, length-append, length-replicate, All-append, All-split, set-take, Result-cases, length-drop,
  take-append, nil_of_length, zero_plus, suc_plus, drop_nil, drop-drop, drop-append,
}
use servatory.Prelude.Text.{Text, codes, len}
use servatory.Prelude.Decimal.{decimal}

abbrev pub dashboard_body_capacity : ℕ
dashboard_body_capacity = 16 * 1024

pub record DashboardBuffer : Type 0 where
  pub inner : Text
  pub overflowed : Bool

-- `DashboardBuffer::new`
abbrev pub new_buffer : DashboardBuffer
new_buffer = record { inner = []; overflowed = false }

-- `push_str`. The sum of the lengths is within a `usize` whenever it is within the capacity.
unfoldable pub push_str : Text → DashboardBuffer → DashboardBuffer
push_str value b =
    if leb (len b.inner + len value) dashboard_body_capacity
    then record b { inner = b.inner ++ value }
    else record b { overflowed = true }

abbrev pub push_character : ℕ → DashboardBuffer → DashboardBuffer
push_character value b = push_str (value ∷ []) b

-- What stands for a page that was too long.
abbrev pub too_long : (document : Bool) → Text
too_long true =
    codes
      "<!doctype html><meta name=viewport content='width=device-width,initial-scale=1'><title>Servatory</title><p>Dashboard data exceeds the firmware response budget.</p>"
too_long false =
    codes "<div class=shell><p>Dashboard data exceeds the firmware response budget.</p></div>"

unfoldable pub finish : (document : Bool) → DashboardBuffer → Text
finish document b = if b.overflowed then too_long document else b.inner

-- `write!` with the pieces of its format: `write_str` of each, up to the first error.
unfoldable pub write_pieces : List Text → DashboardBuffer → DashboardBuffer
write_pieces [] b = b
write_pieces (p ∷ ps) b = let b' = push_str p b in if b'.overflowed then b' else write_pieces ps b'

-- One character of `push_html`.
unfoldable pub push_html_char : ℕ → DashboardBuffer → DashboardBuffer
push_html_char c b =
    if c == b'&'
    then push_str (codes "&amp;") b
    else if c == b'<'
    then push_str (codes "&lt;") b
    else if c == b'>'
    then push_str (codes "&gt;") b
    else if c == b'"'
    then push_str (codes "&quot;") b
    else push_character c b

unfoldable pub push_html : Text → DashboardBuffer → DashboardBuffer
push_html [] b = b
push_html (c ∷ value) b = push_html value (push_html_char c b)

unfoldable pub render_metric :
    (label : Text) (percent : ℕ) (detail : Text) → DashboardBuffer → DashboardBuffer
render_metric label percent detail b =
    let b1 =
      push_html label (push_str (codes "<div class=metric><div class=metric-row><strong>") b) in
    let b2 = write_pieces (codes "</strong><span>" ∷ decimal percent ∷ codes "% · " ∷ []) b1 in
    let b3 = push_html detail b2 in
    write_pieces
      (codes "</span></div><div class=bar><i style='width:"
        ∷ decimal (min percent 100)
        ∷ codes "%'></i></div></div>"
        ∷ [])
      b3
