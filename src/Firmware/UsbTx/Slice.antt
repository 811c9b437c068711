-- ===== src/Firmware/UsbTx/Slice.antt =====
-- firmware/src/main.rs: the part of the buffer of `UsbTx` that is still to be sent.
use servatory.Prelude.{
  ℕ, zero, suc, ◌+◌, ◌-◌, ◌≤◌, ◌<◌, ◌≡◌, refl, some, List, [], ◌∷◌, ◌++◌, arith, length, get_elem?,
  take, drop, take-append,
}

-- The frame's bytes from the cursor on.
abbrev pub slice : List ℕ → ℕ → ℕ → List ℕ
slice frame from to = take (to - from) (drop from frame)

drop-cons :
    (xs : List ℕ) (i : ℕ)
    → i < length xs
    → (b : ℕ) × (get_elem? xs i ≡ some b) × (drop i xs ≡ b ∷ drop (suc i) xs)
drop-cons [] i h = absurd (omega arith)
drop-cons (x ∷ xs) zero h = (x, refl, refl)
drop-cons (x ∷ xs) (suc i) h = drop-cons xs i (omega arith)

pub slice-cons :
    (xs : List ℕ) (i n : ℕ)
    → i < n
    → n ≤ length xs
    → (b : ℕ) × (get_elem? xs i ≡ some b) × (slice xs i n ≡ b ∷ slice xs (i + 1) n)
slice-cons xs i n h k =
    let (b, e, d) = drop-cons xs i (omega arith) in
    let count : n - i ≡ suc (n - (i + 1)) = omega arith in
    let next : suc i ≡ i + 1 = omega arith in (b, e, rw (count, d, next))

pub slice-nil : (xs : List ℕ) (i n : ℕ) → n ≤ i → slice xs i n ≡ []
slice-nil xs i n h = let count : n - i ≡ 0 = omega arith in rw count

pub slice-append : (f rest : List ℕ) → slice (f ++ rest) 0 (length f) ≡ f
slice-append f rest =
    let count : length f - 0 ≡ length f = omega arith in rw (count, take-append f rest)
