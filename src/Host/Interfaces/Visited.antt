-- ===== src/Host/Interfaces/Visited.antt =====
-- host/src/health.rs: how many interfaces a search has not visited yet.
use servatory.Prelude.{
  ℕ, ◌+◌, ◌≤◌, ◌<◌, ◌≡◌, refl, ap, ◌∙◌, inl, inr, true, false, ◌||◌, List, [], ◌∷◌, ◌++◌, arith,
  if◌then◌else◌, Bool-cases, length,
}
use servatory.Prelude.Text.{Text, text_eq, text_eq_iff}
use servatory.Host.Interfaces.{contains}

-- How many of these names have not been visited.
abbrev pub unvisited : List Text → List Text → ℕ
unvisited [] visited = 0
unvisited (n ∷ ns) visited = (if contains visited n then 0 else 1) + unvisited ns visited

pub contains-append :
    (visited : List Text) (i n : Text)
    → contains (visited ++ i ∷ []) n ≡ (contains visited n || text_eq i n)
contains-append [] i n = ground arith
contains-append (v ∷ vs) i n = ground (arith, contains-append vs i n)

pub unvisited-append :
    (ns visited : List Text) (i : Text) → unvisited ns (visited ++ i ∷ []) ≤ unvisited ns visited
unvisited-append [] visited i = omega arith
unvisited-append (n ∷ ns) visited i =
    ground (arith, unvisited-append ns visited i, contains-append visited i n)

pub text_eq_refl : (t : Text) → text_eq t t ≡ true
text_eq_refl t = (text_eq_iff t t).1 refl

-- A name that is visited for the first time leaves fewer.
pub unvisited-visit :
    (ns visited : List Text) (i : Text)
    → contains visited i ≡ false
    → contains ns i ≡ true
    → unvisited ns (visited ++ i ∷ []) < unvisited ns visited
unvisited-visit [] visited i h k = ground arith
unvisited-visit (n ∷ ns) visited i h k = elim (Bool-cases (text_eq n i)) [
  | inl e ↦
      let same : n ≡ i = (text_eq_iff n i).0 e in
      let fresh : contains visited n ≡ false = ap (contains visited) same ∙ h in
      let stored : text_eq i n ≡ true = ap (text_eq i) same ∙ text_eq_refl i in
      ground (arith, unvisited-append ns visited i, contains-append visited i n, fresh, stored)
  | inr e ↦
      let later : contains ns i ≡ true = ground arith in
      ground (arith, contains-append visited i n, unvisited-visit ns visited i h later)
]

pub unvisited-le-length : (ns visited : List Text) → unvisited ns visited ≤ length ns
unvisited-le-length [] visited = omega arith
unvisited-le-length (n ∷ ns) visited = ground (arith, unvisited-le-length ns visited)
