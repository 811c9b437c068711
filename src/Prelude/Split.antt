-- ===== src/Prelude/Split.antt =====
-- How Rust's `str` cuts a text into parts.
use Prim.Native.Nat.{ℕ}
use mathlib.Core.Bool.{Bool, not}
use mathlib.Core.Option.{Option, none, some}
use mathlib.Core.List.{List, [], ◌∷◌}
use servatory.Prelude.Tests.{◌==◌, if◌then◌else◌}
use servatory.Prelude.Lists.{filter, is_empty}
use servatory.Prelude.Text.{Text, is_whitespace}

-- A character in front of the first part.
abbrev pub onto_first : ℕ → List Text → List Text
onto_first c [] = (c ∷ []) ∷ []
onto_first c (p ∷ ps) = (c ∷ p) ∷ ps

-- `lines`, without taking a carriage return off a line's end.
abbrev pub lines : Text → List Text
lines [] = []
lines (c ∷ t) = let rest = lines t in if c == 10 then [] ∷ rest else onto_first c rest

-- `split` at what satisfies the test.
abbrev pub split : (ℕ → Bool) → Text → List Text
split p [] = [] ∷ []
split p (c ∷ t) = let rest = split p t in if p c then [] ∷ rest else onto_first c rest

abbrev pub split_whitespace : Text → List Text
split_whitespace t = filter (λ part. not (is_empty part)) (split is_whitespace t)

abbrev pub before_first : ℕ → Option (Text × Text) → Option (Text × Text)
before_first c none = none
before_first c (some (s, t)) = some (c ∷ s, t)

-- `split_once`
abbrev pub split_once : ℕ → Text → Option (Text × Text)
split_once k [] = none
split_once k (c ∷ t) =
    let rest = split_once k t in if c == k then some ([], t) else before_first c rest
