-- ===== src/Host/Config/Pages/Guests.antt =====
-- host/src/config.rs: the pages of a paginated guest view.
use servatory.Prelude.{
  ℕ, zero, suc, ◌+◌, ◌*◌, ◌≤◌, ◌<◌, max, ◌≡◌, refl, ap, ◌∙◌, some, List, map, arith, Result, ok,
  length, get_elem?,
}
use servatory.Prelude.Text.{Text}
use servatory.Prelude.Words.{u32_max}
use servatory.Protocol.Display.{DisplayView, DisplayPage}
use servatory.Host.Config.Pages.{for_each, range, view_of, guest_page, guest_pages, div_ceil}

-- A loop none of whose rounds fails.
for_each-ok :
    {A E : Type 0} (f : ℕ → Result A E) (g : ℕ → A) (start count : ℕ)
    → ((i : ℕ) → i < start + count → f i ≡ ok (g i))
    → for_each f start count ≡ ok (map g (range start count))
unfolding for_each
for_each-ok f g start zero h = refl
for_each-ok f g start (suc count) h =
    rw (h start (omega arith), for_each-ok f g (start + 1) count (λ i b. h i (omega arith))) refl

pub length-map-range :
    {A : Type 0} (f : ℕ → A) (start count : ℕ) → length (map f (range start count)) ≡ count
length-map-range f start zero = refl
length-map-range f start (suc count) = ap suc (length-map-range f (start + 1) count)

get_elem-range :
    {A : Type 0} (g : ℕ → A) (start count k : ℕ)
    → k < count
    → get_elem? (map g (range start count)) k ≡ some (g (start + k))
get_elem-range g start zero k h = absurd (omega arith)
get_elem-range g start (suc count) zero h = ap (λ i. some (g i)) (plus_zero start)
  where
    plus_zero : (n : ℕ) → n ≡ n + 0
    plus_zero n = omega arith
get_elem-range g start (suc count) (suc k) h =
    get_elem-range g (start + 1) count k (omega arith) ∙ ap (λ i. some (g i)) (regroup start k)
  where
    regroup : (n k : ℕ) → n + 1 + k ≡ n + suc k
    regroup n k = omega arith

abbrev pub guests_from : Text → ℕ → DisplayView
guests_from title i = view_of title (DisplayPage.guests (i * 4) 4)

guest_page-ok :
    (title : Text) (i n : ℕ)
    → n ≤ u32_max
    → i < div_ceil (max n 1) 4
    → guest_page title i ≡ ok (guests_from title i)
unfolding guest_page
guest_page-ok title i n h b = ground arith

pub guest_pages-ok :
    (title : Text) (guest_count : ℕ)
    → guest_count ≤ u32_max
    → guest_pages title guest_count
      ≡ ok (map (guests_from title) (range 0 (div_ceil (max guest_count 1) 4)))
unfolding guest_pages
guest_pages-ok title n h =
    for_each-ok (guest_page title) (guests_from title) 0 (div_ceil (max n 1) 4)
      (λ i b. guest_page-ok title i n h (omega arith))

-- With less than 2^32 guests, a paginated guest view never fails. Its page `i` shows the four guests
-- from number `4 * i` on, for each `i` with `4 * i` below the number of guests, or below 1 if there
-- are none, and it has no other pages.
pub guest_pages-covers :
    (title : Text) (guest_count : ℕ)
    → guest_count ≤ u32_max
    → (pages : List DisplayView) × (guest_pages title guest_count ≡ ok pages)
      × ((i : ℕ)
          → i * 4 < max guest_count 1
          → get_elem? pages i ≡ some (view_of title (DisplayPage.guests (i * 4) 4)))
      × ((i : ℕ) → i < length pages → i * 4 < max guest_count 1)
guest_pages-covers title n h = (
  map (guests_from title) (range 0 (div_ceil (max n 1) 4)),
  guest_pages-ok title n h,
  (λ i b.
      get_elem-range (guests_from title) 0 (div_ceil (max n 1) 4) i (omega arith)
      ∙ ap (λ k. some (guests_from title k)) (plus i)),
  (λ i b. omega (arith, length-map-range (guests_from title) 0 (div_ceil (max n 1) 4), b)),
)
  where
    plus : (i : ℕ) → 0 + i ≡ i
    plus i = omega arith
