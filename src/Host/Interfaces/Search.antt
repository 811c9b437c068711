-- ===== src/Host/Interfaces/Search.antt =====
-- host/src/health.rs: the search of `resolve_interface` comes to an end.
use servatory.Prelude.{
  ℕ, zero, suc, ◌≤◌, ◌<◌, ◌≡◌, refl, inl, inr, Bool, true, false, not, Option, none, some, List, [],
  ◌∷◌, ◌++◌, arith, if◌then◌else◌, Bool-cases, bind, length, is_empty, All,
}
use servatory.Prelude.Text.{Text, trim, text_leb}
use servatory.Host.Interfaces.{
  Sysfs, Answer, Search, contains, greatest, max_by_key, insert, sort, resolve_bond, candidates,
  find_lower, resolve_lower, resolve_ports, visit, resolve_interface, resolve_physical_interface,
  key_leb,
}
use servatory.Host.Interfaces.Visited.{
  unvisited-le-length, unvisited, unvisited-append, unvisited-visit,
}

module _ (s : Sysfs) (names : List Text) where
  -- The names have every interface that the files of one of them name.
  pub record IsClosed : Type 0 where
    pub bonds :
        (i text : Text)
        → contains names i ≡ true
        → s.active_slave i ≡ some text
        → is_empty (trim text) ≡ false
        → contains names (trim text) ≡ true
    pub bridges :
        (i : Text) (es : List Text)
        → contains names i ≡ true
        → s.brif i ≡ some es
        → All (λ e. contains names e ≡ true) es
    pub lowers :
        (i lower : Text)
        → contains names i ≡ true
        → bind (s.entries i) (find_lower s) ≡ some lower
        → contains names lower ≡ true

  -- A found interface has a directory.
  abbrev pub Exists : Option Text → Type 0
  Exists none = Unit
  Exists (some i) = s.exists i ≡ true

  -- The search has answered, and has left no more names unvisited than there were.
  abbrev pub Answered : (before : ℕ) → Answer → Type 0
  Answered before none = ⊥
  Answered before (some (found, visited)) = Exists found × (unvisited names visited ≤ before)

  abbrev pub Terminates : (fuel : ℕ) → Search → Type 0
  Terminates fuel search =
      (visited : List Text) (i : Text)
      → contains names i ≡ true
      → unvisited names visited < fuel
      → Answered (unvisited names visited) (search visited i)

  Answered-mono : (a b : ℕ) (r : Answer) → a ≤ b → Answered a r → Answered b r
  Answered-mono a b none l h = absurd h
  Answered-mono a b (some (found, visited)) l (e, k) = (e, omega (arith, k, l))

  -- What follows an answer.
  bind-Answered :
      (a b : ℕ) (r : Answer) (f : Option Text × List Text → Answer)
      → Answered a r
      → ((found : Option Text) (visited : List Text)
          → Exists found
          → unvisited names visited ≤ a
          → Answered b (f (found, visited)))
      → Answered b (bind r f)
  bind-Answered a b none f h k = absurd h
  bind-Answered a b (some (found, visited)) f (e, l) k = k found visited e l

  if-Answered :
      (t : Bool) (a : ℕ) (x y : Answer)
      → (t ≡ true → Answered a x)
      → (t ≡ false → Answered a y)
      → Answered a (if t then x else y)
  if-Answered true a x y h k = h refl
  if-Answered false a x y h k = k refl

  elim-Answered :
      {A : Type 0} (o : Option A) (a : ℕ) (x : Answer) (f : A → Answer)
      → Answered a x
      → ((v : A) → o ≡ some v → Answered a (f v))
      → Answered a (elim o [ none ↦ x | some v ↦ f v ])
  elim-Answered none a x f h k = h
  elim-Answered (some v) a x f h k = k v refl

  -- Candidates that all exist.
  abbrev Gathered : Option (List Text) → Type 0
  Gathered none = ⊥
  Gathered (some cs) = All (λ c. s.exists c ≡ true) cs

  insert-Exists :
      (c : Text) (cs : List Text)
      → s.exists c ≡ true
      → All (λ c. s.exists c ≡ true) cs
      → All (λ c. s.exists c ≡ true) (insert s c cs)
  insert-Exists c [] h hs = (h, tt)
  insert-Exists c (d ∷ ds) h hs = elim (Bool-cases (text_leb c d)) [
    | inl e ↦ rw e (h, hs)
    | inr e ↦ rw e (hs.0, insert-Exists c ds h hs.1)
  ]

  sort-Exists :
      (cs : List Text) → All (λ c. s.exists c ≡ true) cs → All (λ c. s.exists c ≡ true) (sort s cs)
  sort-Exists [] h = tt
  sort-Exists (c ∷ cs) h = insert-Exists c (sort s cs) h.0 (sort-Exists cs h.1)

  greatest-Exists :
      (cs : List Text) (best : Text)
      → s.exists best ≡ true
      → All (λ c. s.exists c ≡ true) cs
      → s.exists (greatest s best cs) ≡ true
  greatest-Exists [] best h hs = h
  greatest-Exists (c ∷ cs) best h hs = elim (Bool-cases (key_leb s best c)) [
    | inl e ↦ rw e (greatest-Exists cs c hs.0 hs.1)
    | inr e ↦ rw e (greatest-Exists cs best h hs.1)
  ]

  max_by_key-Exists : (cs : List Text) → All (λ c. s.exists c ≡ true) cs → Exists (max_by_key s cs)
  max_by_key-Exists [] h = tt
  max_by_key-Exists (c ∷ cs) h = greatest-Exists cs c h.0 h.1

  module _ (closed : IsClosed) (fuel : ℕ) (resolve : Search)
      (answers : Terminates fuel resolve) where
    candidates-Gathered :
        (es visited : List Text)
        → All (λ e. contains names e ≡ true) es
        → unvisited names visited < fuel
        → Gathered (candidates s resolve visited es)
    candidates-Gathered [] visited n l = tt
    candidates-Gathered (e ∷ es) visited n l =
        gathered (resolve visited e) (candidates s resolve visited es) (answers visited e n.0 l)
          (candidates-Gathered es visited n.1 l)
      where
        gathered :
            (r : Answer) (o : Option (List Text))
            → Answered (unvisited names visited) r
            → Gathered o
            → Gathered (
                bind r (λ (found, _).
                  bind o (λ others. some (elim found [ none ↦ others | some c ↦ c ∷ others ]))))
        gathered none o h k = absurd h
        gathered (some (found, v)) none h k = absurd k
        gathered (some (none, v)) (some cs) h k = k
        gathered (some (some c, v)) (some cs) h k = (h.0, k)

    resolve_bond-Answered :
        (visited : List Text) (i : Text)
        → contains names i ≡ true
        → unvisited names visited < fuel
        → Answered (unvisited names visited) (resolve_bond s resolve visited i)
    resolve_bond-Answered visited i n l =
        elim-Answered (s.active_slave i) _ _ _ (tt, omega arith)
          (λ text same.
            if-Answered (is_empty (trim text)) _ _ _ (λ e. (tt, omega arith))
              (λ e. answers visited (trim text) (closed.bonds i text n same e) l))

    resolve_lower-Answered :
        (visited : List Text) (i : Text)
        → contains names i ≡ true
        → s.exists i ≡ true
        → unvisited names visited < fuel
        → Answered (unvisited names visited) (resolve_lower s resolve visited i)
    resolve_lower-Answered visited i n e l =
        elim-Answered (bind (s.entries i) (find_lower s)) _ _ _ (e, omega arith)
          (λ lower same.
            bind-Answered _ _ _ _ (answers visited lower (closed.lowers i lower n same) l)
              (λ found visited' h k. (kept_found found h, k)))
      where
        kept_found :
            (found : Option Text)
            → Exists found
            → Exists (elim found [ none ↦ some i | some c ↦ some c ])
        kept_found none h = e
        kept_found (some c) h = h

    resolve_ports-Answered :
        (visited : List Text) (i : Text)
        → contains names i ≡ true
        → s.exists i ≡ true
        → unvisited names visited < fuel
        → Answered (unvisited names visited) (resolve_ports s resolve visited i)
    resolve_ports-Answered visited i n e l =
        elim-Answered (s.brif i) _ _ _ (resolve_lower-Answered visited i n e l) (λ es same.
          chosen (candidates s resolve visited es)
            (candidates-Gathered es visited (closed.bridges i es n same) l))
      where
        chosen :
            (o : Option (List Text))
            → Gathered o
            → Answered
                (unvisited names visited)
                (bind o (λ cs. some (max_by_key s (sort s cs), visited)))
        chosen none h = absurd h
        chosen (some cs) h = (max_by_key-Exists (sort s cs) (sort-Exists cs h), omega arith)

    visit-Answered : Terminates (suc fuel) (visit s resolve)
    unfolding visit
    visit-Answered visited i n l =
        if-Answered (contains visited i) _ _ _ (λ seen. (tt, omega arith))
          λ fresh.
            if-Answered (not (s.exists i)) _ _ _ (λ missing. (tt, unvisited-append names visited i))
              λ there.
                let e : s.exists i ≡ true = ground arith in
                let fewer = unvisited-visit names visited i fresh n in
                let lower : unvisited names (visited ++ i ∷ []) < fuel = omega (arith, fewer, l) in
                bind-Answered _ _ _ _ (resolve_bond-Answered (visited ++ i ∷ []) i n lower)
                  (after_bond e lower (omega (arith, fewer)))
      where
        after_bond :
            s.exists i ≡ true
            → unvisited names (visited ++ i ∷ []) < fuel
            → unvisited names (visited ++ i ∷ []) ≤ unvisited names visited
            → (found : Option Text) (visited' : List Text) → Exists found
            → unvisited names visited' ≤ unvisited names (visited ++ i ∷ [])
            → Answered (unvisited names visited) (elim found [
              | some c ↦ some (some c, visited')
              | none ↦ resolve_ports s resolve visited' i
            ])
        after_bond e lower fewer none visited' h k =
            Answered-mono _ _ _ (omega (arith, fewer, k))
              (resolve_ports-Answered visited' i n e (omega (arith, lower, k)))
        after_bond e lower fewer (some c) visited' h k = (h, omega (arith, fewer, k))

  resolve_interface-Terminates : (fuel : ℕ) → IsClosed → Terminates fuel (resolve_interface s fuel)
  unfolding resolve_interface
  resolve_interface-Terminates zero closed = λ visited i n l. absurd (ground arith)
  resolve_interface-Terminates (suc fuel) closed =
      visit-Answered closed fuel (resolve_interface s fuel)
        (resolve_interface-Terminates fuel closed)

-- Whatever the links between the interfaces, loops included: if the routed interface is among
-- `names`, and with each of them every one that its files name, then with more fuel than there are
-- names the search for the physical interface comes to an end, and an interface that it finds has a
-- directory.
pub resolve-terminates :
    (s : Sysfs) (names : List Text) (fuel : ℕ) (routed : Text)
    → IsClosed s names
    → contains names routed ≡ true
    → length names < fuel
    → (found : Option Text) × (resolve_physical_interface s fuel routed ≡ some found)
      × Exists s names found
resolve-terminates s names fuel routed closed n l = ended (resolve_interface s fuel [] routed) (
    resolve_interface-Terminates s names fuel closed [] routed n
      (omega (arith, unvisited-le-length names [], l)))
  where
    ended :
        (r : Answer)
        → Answered s names (unvisited names []) r
        → (found : Option Text) × (bind r (λ (found, _). some found) ≡ some found)
          × Exists s names found
    ended none h = absurd h
    ended (some (found, visited)) h = (found, refl, h.0)
