-- ===== src/Prelude/Decimal.antt =====
-- The decimal digits of a number as Rust's `Display` prints them, for every integer up to `u64`.
use Prim.Native.Nat.{ℕ, zero, suc, ◌+◌, ◌-◌, ◌*◌, ◌/◌, ◌%◌, ◌^◌, ◌<◌, ◌≤◌}
use mathlib.Core.Path.{◌≡◌, refl, ◌∙◌}
use mathlib.Core.List.{[], ◌∷◌, ◌++◌}
use native.Mathlib.Omega.{arith}
use servatory.Prelude.Tests.{ltb, leb, ◌==◌, if◌then◌else◌, ltb→lt, Bool-cases}
use mathlib.Core.Bool.{Bool, not, ◌&&◌, ◌||◌}
use mathlib.Core.Option.{Option, none, some}
use servatory.Prelude.Lists.{All, All-append, is_empty, all}
use mathlib.Core.Logic.{inl, inr}
use servatory.Prelude.Text.{Text}

abbrev pub digits : (fuel n : ℕ) → Text
digits zero n = []
digits (suc fuel) n =
    let high = digits fuel (n / 10) in (if ltb n 10 then [] else high) ++ (b'0' + n % 10) ∷ []

-- Twenty digits are enough for a `u64`.
unfoldable pub decimal : ℕ → Text
decimal n = digits 20 n

-- The number that a row of digits stands for, after `read`.
abbrev pub number_of : (read : ℕ) → Text → ℕ
number_of read [] = read
number_of read (c ∷ t) = number_of (read * 10 + (c - b'0')) t

number_of-append :
    (s : Text) (read c : ℕ) → number_of read (s ++ c ∷ []) ≡ number_of read s * 10 + (c - b'0')
number_of-append [] read c = refl
number_of-append (d ∷ s) read c = number_of-append s _ c

-- Enough digits are printed, so that the number can be read back.
pub number-digits : (fuel n : ℕ) → n < 10 ^ fuel → number_of 0 (digits fuel n) ≡ n
number-digits zero n h = omega (arith, h)
number-digits (suc fuel) n h =
    number_of-append (if ltb n 10 then [] else digits fuel (n / 10)) 0 (b'0' + n % 10)
    ∙ elim (Bool-cases (ltb n 10)) [
      | inl k ↦ rw k (omega (arith, ltb→lt n 10 k))
      | inr k ↦ rw (k, number-digits fuel (n / 10) (omega (arith, h))) (omega arith)
    ]

abbrev pub IsDigit : ℕ → Type 0
IsDigit c = (b'0' ≤ c) × (c ≤ b'9')

pub digits-IsDigit : (fuel n : ℕ) → All IsDigit (digits fuel n)
digits-IsDigit zero n = tt
digits-IsDigit (suc fuel) n =
    All-append IsDigit (if ltb n 10 then [] else digits fuel (n / 10)) _
      (elim (Bool-cases (ltb n 10)) [
        | inl k ↦ rw k tt
        | inr k ↦ rw k (digits-IsDigit fuel (n / 10))
      ])
      ((omega arith, omega arith), tt)

abbrev pub is_digit : ℕ → Bool
is_digit c = leb b'0' c && leb c b'9'

-- `parse` of an unsigned integer with this maximum: digits only, behind a plus sign or not.
abbrev pub unsigned : Text → Text
unsigned [] = []
unsigned (c ∷ t) = if (c == b'+') && not (is_empty t) then t else c ∷ t

unfoldable pub parse_decimal : (greatest : ℕ) → Text → Option ℕ
parse_decimal greatest t =
    let n = number_of 0 (unsigned t) in
    if is_empty t || not (all is_digit (unsigned t)) || ltb greatest n then none else some n
