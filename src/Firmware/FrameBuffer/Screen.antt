-- ===== src/Firmware/FrameBuffer/Screen.antt =====
-- firmware/src/framebuffer.rs: what the buffer shows after drawing.
use servatory.Prelude.{
  ℕ, zero, suc, ◌+◌, ◌*◌, ◌<◌, ◌≡◌, refl, ap, subst, ◌∙◌, ◌≢◌, inl, inr, Bool, true, false, ◌&&◌,
  ◌||◌, Option, none, some, List, [], ◌∷◌, arith, leb, ◌==◌, if◌then◌else◌, Bool-cases, length,
  get_elem?, set?,
}
use servatory.Firmware.FrameBuffer.{
  width, height, bytes_per_pixel, buffer_size, Pixel, to_usize, high_byte, low_byte, put, set_at,
  set_pixel, draw_iter,
}

behind_head :
    {A : Type 0} (x : A) (ys xs : List A) (i : ℕ)
    → ((j : ℕ) → j ≢ i → get_elem? ys j ≡ get_elem? xs j)
    → (j : ℕ) → j ≢ suc i
    → get_elem? (x ∷ ys) j ≡ get_elem? (x ∷ xs) j
behind_head x ys xs i h zero n = refl
behind_head x ys xs i h (suc j) n = h j (λ e. n (ap suc e))

replaced_head :
    {A : Type 0} (x a : A) (xs : List A) (j : ℕ)
    → j ≢ 0
    → get_elem? (a ∷ xs) j ≡ get_elem? (x ∷ xs) j
replaced_head x a xs zero n = absurd (n refl)
replaced_head x a xs (suc j) n = refl

-- A write inside a list changes the one element.
set-get :
    {A : Type 0} (xs : List A) (i : ℕ) (a : A)
    → i < length xs
    → (ys : List A) × (set? xs i a ≡ some ys)
      × (length ys ≡ length xs)
      × (get_elem? ys i ≡ some a)
      × ((j : ℕ) → j ≢ i → get_elem? ys j ≡ get_elem? xs j)
set-get [] i a h = absurd (omega (arith, h))
set-get (x ∷ xs) zero a h = (a ∷ xs, refl, refl, refl, replaced_head x a xs)
set-get (x ∷ xs) (suc i) a h =
    let (ys, e, l, same, others) = set-get xs i a (omega (arith, h)) in
    (x ∷ ys, rw e refl, ap suc l, same, behind_head x ys xs i others)

abbrev pub pixel_index : (x y : ℕ) → ℕ
pixel_index x y = (y * width + x) * bytes_per_pixel

-- The two bytes of the pixel at a point.
abbrev pub pixel_at : List ℕ → (x y : ℕ) → Option ℕ × Option ℕ
pixel_at bytes x y = (get_elem? bytes (pixel_index x y), get_elem? bytes (pixel_index x y + 1))

abbrev pub colored : ℕ → Option ℕ × Option ℕ
colored color = (some (high_byte color), some (low_byte color))

-- Whether a coordinate is this one.
abbrev pub is_at : Option ℕ → ℕ → Bool
is_at none n = false
is_at (some m) n = m == n

-- What a point shows after a pixel was drawn, and after many: the last that was drawn there, or what
-- was there before.
abbrev pub shown_after : Pixel → (x y : ℕ) → (before : Option ℕ × Option ℕ) → Option ℕ × Option ℕ
shown_after p x y before =
    if is_at (to_usize p.x) x && is_at (to_usize p.y) y then colored p.color else before

abbrev pub shown : List Pixel → (x y : ℕ) → (before : Option ℕ × Option ℕ) → Option ℕ × Option ℕ
shown [] x y before = before
shown (p ∷ ps) x y before = shown ps x y (shown_after p x y before)

both : {a b c d : Option ℕ} → a ≡ c → b ≡ d → ◌≡◌ {A = Option ℕ × Option ℕ} (a, b) (c, d)
both e f i = (e i, f i)

same_place : (x y a b : ℕ) → ((x == a) && (y == b)) ≡ true → (x ≡ a) × (y ≡ b)
same_place x y a b h = (ground arith, ground arith)

-- Different points have different indices.
apart :
    (x y a b : ℕ)
    → x < width
    → a < width
    → ((x == a) && (y == b)) ≡ false
    → y * width + x ≢ b * width + a
apart x y a b hx ha h e =
    let rows : y ≡ b = omega (arith, hx, ha, e) in
    let columns : x ≡ a = omega (arith, rows, e) in absurd (ground arith)

put-pixel_at :
    (x y color : ℕ) (bytes : List ℕ)
    → length bytes ≡ buffer_size
    → x < width
    → y < height
    → (bytes' : List ℕ) × (put x y color bytes ≡ some bytes')
      × (length bytes' ≡ buffer_size)
      × ((a b : ℕ)
          → a < width
          → pixel_at bytes' a b
            ≡ (if (x == a) && (y == b) then colored color else pixel_at bytes a b))
put-pixel_at x y color bytes l hx hy =
    let i = pixel_index x y in
    let (ys, e, l1, first, others1) =
      set-get bytes i (high_byte color) (omega (arith, l, hx, hy)) in
    let (zs, f, l2, second, others2) =
      set-get ys (i + 1) (low_byte color) (omega (arith, l, l1, hx, hy)) in
    (
      zs,
      rw e f,
      l2 ∙ l1 ∙ l,
      λ a b ha. elim (Bool-cases ((x == a) && (y == b))) [
        | inl here ↦
            let (sx, sy) = same_place x y a b here in
            let drawn : pixel_at zs x y ≡ colored color =
              both (others2 i (λ e. omega (arith, e)) ∙ first) second in
            rw here
              (subst (λ (p : ℕ × ℕ). pixel_at zs p.0 p.1 ≡ colored color) (λ k. (sx k, sy k)) drawn)
        | inr there ↦
            let far : y * width + x ≢ b * width + a = apart x y a b hx ha there in
            let k = pixel_index a b in
            rw there (
              both (others2 k (omega (arith, far)) ∙ others1 k (omega (arith, far)))
                (others2 (k + 1) (omega (arith, far)) ∙ others1 (k + 1) (omega (arith, far))))
      ],
    )

-- A pixel off the screen changes nothing, and no point of the screen is where it is.
set_pixel-pixel_at :
    (p : Pixel) (bytes : List ℕ)
    → length bytes ≡ buffer_size
    → (bytes' : List ℕ) × (set_pixel p bytes ≡ some bytes')
      × (length bytes' ≡ buffer_size)
      × ((a b : ℕ)
          → a < width
          → b < height
          → pixel_at bytes' a b ≡ shown_after p a b (pixel_at bytes a b))
unfolding set_at
set_pixel-pixel_at p bytes l = placed (to_usize p.x) (to_usize p.y)
  where
    placed :
        (mx my : Option ℕ)
        → (bytes' : List ℕ) × (set_at mx my p.color bytes ≡ some bytes')
          × (length bytes' ≡ buffer_size)
          × ((a b : ℕ)
              → a < width
              → b < height
              → pixel_at bytes' a b
                ≡ (if is_at mx a && is_at my b then colored p.color else pixel_at bytes a b))
    placed none my = (bytes, refl, l, λ a b ha hb. refl)
    placed (some x) none = (bytes, refl, l, λ a b ha hb. ground arith)
    placed (some x) (some y) = elim (Bool-cases (leb width x || leb height y)) [
      | inl off ↦ (bytes, rw off refl, l, λ a b ha hb. ground arith)
      | inr on ↦
          let (bytes', e, l', h) = put-pixel_at x y p.color bytes l (ground arith) (ground arith) in
          (bytes', rw on e, l', λ a b ha hb. h a b ha)
    ]

-- Drawing any pixels, wherever they are, into a buffer of the screen's size writes inside the buffer
-- and keeps its size; each point of the screen then shows the colour, high byte first, of the last
-- pixel that was drawn there, and what it showed before if there was none.
pub draw_iter-shown :
    (ps : List Pixel) (bytes : List ℕ)
    → length bytes ≡ buffer_size
    → (bytes' : List ℕ) × (draw_iter ps bytes ≡ some bytes')
      × (length bytes' ≡ buffer_size)
      × ((a b : ℕ)
          → a < width
          → b < height
          → pixel_at bytes' a b ≡ shown ps a b (pixel_at bytes a b))
unfolding draw_iter
draw_iter-shown [] bytes l = (bytes, refl, l, λ a b ha hb. refl)
draw_iter-shown (p ∷ ps) bytes l =
    let (bytes1, e, l1, h) = set_pixel-pixel_at p bytes l in
    let (bytes2, f, l2, k) = draw_iter-shown ps bytes1 l1 in
    (bytes2, rw e f, l2, λ a b ha hb. k a b ha hb ∙ ap (shown ps a b) (h a b ha hb))
