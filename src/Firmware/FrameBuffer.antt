-- ===== src/Firmware/FrameBuffer.antt =====
-- firmware/src/framebuffer.rs: `ScreenBuffer`, its data as a list of bytes. An index out of
-- range is `none`.
pub mod Screen
use servatory.Prelude.{
  ℕ, zero, suc, ◌+◌, ◌-◌, ◌*◌, ◌/◌, ◌%◌, ◌≤◌, ◌<◌, min, max, ◌≡◌, refl, sym, ap, subst, ◌∙◌, ◌≢◌,
  ◌↔◌, ◌⊎◌, inl, inr, Bool, true, false, not, ◌&&◌, ◌||◌, Option, none, some, List, [], ◌∷◌, ◌++◌,
  map, append-nil, append_assoc, arith, ltb, leb, ◌==◌, if◌then◌else◌, ltb→lt, leb→le, ==_iff,
  Bool-cases, Option-cases, is_some, is_some_and, is_none_or, unwrap_or, Result, ok, err, and_then,
  ok_or, bind, is_ok, length, is_empty, get_elem?, set?, take?, take, drop, replicate, all, any,
  filter, All, length-append, length-replicate, All-append, All-split, set-take, Result-cases,
  length-drop, take-append, nil_of_length, zero_plus, suc_plus, drop_nil, drop-drop, drop-append,
}

-- A coordinate, as an `i32`.
pub data ℤ : Type 0 where
  pos : ℕ → ℤ
  negsuc : ℕ → ℤ

abbrev pub width : ℕ
width = 240

abbrev pub height : ℕ
height = 135

abbrev pub bytes_per_pixel : ℕ
bytes_per_pixel = 2

abbrev pub buffer_size : ℕ
buffer_size = width * height * bytes_per_pixel

-- A pixel: its point, and the raw value of its colour.
pub record Pixel : Type 0 where
  pub x : ℤ
  pub y : ℤ
  pub color : ℕ

-- `usize::try_from`
abbrev pub to_usize : ℤ → Option ℕ
to_usize (pos n) = some n
to_usize (negsuc n) = none

-- `to_be_bytes`
abbrev pub high_byte : ℕ → ℕ
high_byte color = color / 256

abbrev pub low_byte : ℕ → ℕ
low_byte color = color % 256

-- The assignment to the slice.
abbrev pub put : (x y color : ℕ) → List ℕ → Option (List ℕ)
put x y color bytes =
    let index = (y * width + x) * bytes_per_pixel in
    bind (set? bytes index (high_byte color)) (λ first. set? first (index + 1) (low_byte color))

-- `set_pixel`, of a point whose coordinates were converted
unfoldable pub set_at : Option ℕ → Option ℕ → (color : ℕ) → List ℕ → Option (List ℕ)
set_at none y color bytes = some bytes
set_at (some x) none color bytes = some bytes
set_at (some x) (some y) color bytes =
    if leb width x || leb height y then some bytes else put x y color bytes

abbrev pub set_pixel : Pixel → List ℕ → Option (List ℕ)
set_pixel p bytes = set_at (to_usize p.x) (to_usize p.y) p.color bytes

-- `draw_iter`
unfoldable pub draw_iter : List Pixel → List ℕ → Option (List ℕ)
draw_iter [] bytes = some bytes
draw_iter (p ∷ ps) bytes = bind (set_pixel p bytes) (draw_iter ps)

-- `clear`: both bytes of each whole chunk.
unfoldable pub clear : (color : ℕ) → List ℕ → List ℕ
clear color [] = []
clear color (b ∷ []) = b ∷ []
clear color (b ∷ c ∷ bytes) = high_byte color ∷ low_byte color ∷ clear color bytes
