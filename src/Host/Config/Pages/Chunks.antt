-- ===== src/Host/Config/Pages/Chunks.antt =====
-- host/src/config.rs: the storage pages show every filesystem and device once, in order.
use servatory.Prelude.{
  ℕ, zero, suc, ◌+◌, ◌*◌, ◌≤◌, ◌<◌, ◌≡◌, refl, sym, ap, ◌∙◌, Bool, List, [], ◌∷◌, ◌++◌, map, arith,
  length, take, drop, All, zero_plus, suc_plus, drop-drop,
}
use servatory.Prelude.Text.{Text}
use servatory.Protocol.Display.{DisplayView, DisplayPage}
use servatory.Host.Config.Pages.{chunk, range, view_of, storage_pages, storage_page_count}
use servatory.Host.Config.Pages.Guests.{length-map-range}

-- What the pages show of each kind, one page after the other.
abbrev pub filesystems_of : List DisplayView → List ℕ
filesystems_of [] = []
filesystems_of (v ∷ vs) = filesystems_on v.page ++ filesystems_of vs
  where
    filesystems_on : DisplayPage → List ℕ
    filesystems_on (DisplayPage.storage left fs ss) = fs
    filesystems_on _ = []

abbrev pub devices_of : List DisplayView → List ℕ
devices_of [] = []
devices_of (v ∷ vs) = devices_on v.page ++ devices_of vs
  where
    devices_on : DisplayPage → List ℕ
    devices_on (DisplayPage.storage left fs ss) = ss
    devices_on _ = []

-- What a page has room for.
abbrev pub Fits : DisplayView → Type 0
Fits v = fits v.page
  where
    fits : DisplayPage → Type 0
    fits (DisplayPage.storage left fs ss) = (length fs ≤ 3) × (length ss ≤ 5)
    fits _ = Unit

module _ {A : Type 0} where
  length-take : (n : ℕ) (xs : List A) → length (take n xs) ≤ n
  length-take zero xs = omega arith
  length-take (suc n) [] = omega arith
  length-take (suc n) (x ∷ xs) = omega (arith, length-take n xs)

  take_nil : (n : ℕ) → take {A = A} n [] ≡ []
  take_nil zero = refl
  take_nil (suc n) = refl

  take_all : (n : ℕ) (xs : List A) → length xs ≤ n → take n xs ≡ xs
  take_all n [] h = take_nil n
  take_all zero (x ∷ xs) h = absurd (omega arith)
  take_all (suc n) (x ∷ xs) h = ap (◌∷◌ x) (take_all n xs (omega arith))

  take-append-drop : (m n : ℕ) (xs : List A) → take m xs ++ take n (drop m xs) ≡ take (m + n) xs
  take-append-drop zero n xs = ap (λ k. take k xs) (zero_plus n)
  take-append-drop (suc m) n [] = take_nil n ∙ sym (take_nil (suc m + n))
  take-append-drop (suc m) n (x ∷ xs) =
      ap (◌∷◌ x) (take-append-drop m n xs) ∙ ap (λ k. take k (x ∷ xs)) (suc_plus m n)

  concat : List (List A) → List A
  concat [] = []
  concat (xs ∷ xss) = xs ++ concat xss

  -- The chunks from `start` on are a piece of the list.
  concat-chunks :
      (size : ℕ) (xs : List A) (start count : ℕ)
      → concat (map (chunk size xs) (range start count))
        ≡ take (count * size) (drop (start * size) xs)
  unfolding concat
  concat-chunks size xs start zero = ap (λ k. take k (drop (start * size) xs)) (zero_times size)
    where
      zero_times : (s : ℕ) → 0 ≡ 0 * s
      zero_times s = grind arith
  concat-chunks size xs start (suc count) =
      let piece = drop (start * size) xs in
      ap (λ k. chunk size xs start ++ k) (concat-chunks size xs (start + 1) count)
      ∙ ap (λ k. take size piece ++ take (count * size) k) (next_piece start size)
      ∙ take-append-drop size (count * size) piece
      ∙ ap (λ k. take k piece) (suc_times count size)
    where
      suc_times : (c s : ℕ) → s + c * s ≡ suc c * s
      suc_times c s = grind arith

      next_piece : (i s : ℕ) → drop ((i + 1) * s) xs ≡ drop s (drop (i * s) xs)
      next_piece i s = ap (λ k. drop k xs) (next_start i s) ∙ sym (drop-drop (i * s) s xs)
        where
          next_start : (i s : ℕ) → (i + 1) * s ≡ i * s + s
          next_start i s = grind arith

  concat-all_chunks :
      (size : ℕ) (xs : List A) (count : ℕ)
      → length xs ≤ count * size
      → concat (map (chunk size xs) (range 0 count)) ≡ xs
  concat-all_chunks size xs count h =
      concat-chunks size xs 0 count
      ∙ ap (λ k. take (count * size) (drop k xs)) (zero_times size)
      ∙ take_all (count * size) xs h
    where
      zero_times : (s : ℕ) → 0 * s ≡ 0
      zero_times s = grind arith

module _ (title : Text) (left : Bool) (fs ss : List ℕ) where
  abbrev page_at : ℕ → DisplayView
  page_at i = view_of title (DisplayPage.storage left (chunk 3 fs i) (chunk 5 ss i))

  filesystems_of-map :
      (is : List ℕ) → filesystems_of (map page_at is) ≡ concat (map (chunk 3 fs) is)
  unfolding concat
  filesystems_of-map [] = refl
  filesystems_of-map (i ∷ is) = ap (λ k. chunk 3 fs i ++ k) (filesystems_of-map is)

  devices_of-map : (is : List ℕ) → devices_of (map page_at is) ≡ concat (map (chunk 5 ss) is)
  unfolding concat
  devices_of-map [] = refl
  devices_of-map (i ∷ is) = ap (λ k. chunk 5 ss i ++ k) (devices_of-map is)

  map-Fits : (is : List ℕ) → All Fits (map page_at is)
  map-Fits [] = tt
  map-Fits (i ∷ is) =
      ((length-take 3 (drop (i * 3) fs), length-take 5 (drop (i * 5) ss)), map-Fits is)

  -- The pages of a storage view show exactly its filesystems and its devices, each once and in order,
  -- with three filesystems and five devices on a page at most; there is at least one page.
  pub storage_pages_complete :
      (filesystems_of (storage_pages title left fs ss) ≡ fs)
      × (devices_of (storage_pages title left fs ss) ≡ ss)
      × All Fits (storage_pages title left fs ss)
      × (0 < length (storage_pages title left fs ss))
  unfolding storage_pages
  storage_pages_complete =
      let is = range 0 (storage_page_count fs ss) in
      (
        filesystems_of-map is ∙ concat-all_chunks 3 fs (storage_page_count fs ss) (grind arith),
        devices_of-map is ∙ concat-all_chunks 5 ss (storage_page_count fs ss) (grind arith),
        map-Fits is,
        length_pages,
      )
    where
      length_pages : 0 < length (map page_at (range 0 (storage_page_count fs ss)))
      length_pages = omega (arith, length-map-range page_at 0 (storage_page_count fs ss))
