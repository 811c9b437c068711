-- ===== src/Host/Interfaces.antt =====
-- host/src/health.rs: which physical interface a routed one stands for. The files below
-- /sys/class/net are the parameter `Sysfs`, which does not change during a search.
pub mod Visited
pub mod Search
use servatory.Prelude.{
  ℕ, zero, suc, ◌+◌, ◌-◌, ◌*◌, ◌/◌, ◌%◌, ◌≤◌, ◌<◌, min, max, ◌≡◌, refl, sym, ap, ◌∙◌, ◌≢◌, ◌↔◌, ◌⊎◌,
  inl, inr, Bool, true, false, not, ◌&&◌, ◌||◌, Option, none, some, List, [], ◌∷◌, ◌++◌, map,
  append-nil, append_assoc, arith, ltb, leb, ◌==◌, if◌then◌else◌, ltb→lt, leb→le, ==_iff,
  Bool-cases, Option-cases, is_some, is_some_and, is_none_or, unwrap_or, Result, ok, err, and_then,
  ok_or, bind, is_ok, length, is_empty, get_elem?, set?, take?, take, drop, replicate, all, any,
  All, length-append, length-replicate, All-append, All-split, set-take, Result-cases, length-drop,
  take-append, nil_of_length, zero_plus, suc_plus, drop_nil, drop-drop, drop-append,
}
use servatory.Prelude.Text.{Text, codes, text_eq, trim, starts_with, text_leb}
use servatory.Prelude.Words.{u16_max, u32_max}
use servatory.Prelude.Decimal.{parse_decimal}

-- For each interface: whether its directory is there; the content of files in it, if they can be
-- read; the names in its directories, if there are such; and whether it has a `device`.
pub record Sysfs : Type 0 where
  pub exists : Text → Bool
  pub active_slave : Text → Option Text
  pub brif : Text → Option (List Text)
  pub entries : Text → Option (List Text)
  pub carrier : Text → Option Text
  pub operstate : Text → Option Text
  pub speed : Text → Option Text
  pub has_device : Text → Bool

-- What a search answers, with the list of the visited interfaces that it leaves. `none` is a search
-- that has used up its fuel.
abbrev pub Answer : Type 0
Answer = Option (Option Text × List Text)

abbrev pub Search : Type 0
Search = List Text → Text → Answer

abbrev pub contains : List Text → Text → Bool
contains visited i = any (λ seen. text_eq seen i) visited

-- A speed that fits an `u16`.
abbrev pub parse_speed : Text → Option ℕ
parse_speed text =
    bind (parse_decimal u32_max (trim text)) (λ n. if leb n u16_max then some n else none)

module _ (s : Sysfs) where
  -- `read_link`
  unfoldable pub read_link : Text → Bool × ℕ
  read_link i = (
    elim (s.carrier i) [
      | none ↦ is_some_and (s.operstate i) (λ state. text_eq (trim state) (codes "up"))
      | some carrier ↦ text_eq (trim carrier) (codes "1")
    ],
    unwrap_or (bind (s.speed i) parse_speed) 0,
  )

  -- The key by which candidates are compared: `device`, then up, then speed.
  abbrev pub key_leb : Text → Text → Bool
  key_leb a b =
      let (up_a, speed_a) = read_link a in
      let (up_b, speed_b) = read_link b in
      pair_leb (s.has_device a) (s.has_device b) (pair_leb up_a up_b (leb speed_a speed_b))
    where
      pair_leb : Bool → Bool → Bool → Bool
      pair_leb false true rest = true
      pair_leb true false rest = false
      pair_leb false false rest = rest
      pair_leb true true rest = rest

  -- `max_by_key`: the last of the greatest.
  abbrev pub greatest : Text → List Text → Text
  greatest best [] = best
  greatest best (c ∷ cs) = greatest (if key_leb best c then c else best) cs

  abbrev pub max_by_key : List Text → Option Text
  max_by_key [] = none
  max_by_key (c ∷ cs) = some (greatest c cs)

  -- `sort`
  abbrev pub insert : Text → List Text → List Text
  insert c [] = c ∷ []
  insert c (d ∷ ds) = let behind = insert c ds in if text_leb c d then c ∷ d ∷ ds else d ∷ behind

  abbrev pub sort : List Text → List Text
  sort [] = []
  sort (c ∷ cs) = insert c (sort cs)

  -- The active port of a bond.
  abbrev pub resolve_bond : Search → Search
  resolve_bond resolve visited i = elim (s.active_slave i) [
    | none ↦ some (none, visited)
    | some text ↦ if is_empty (trim text) then some (none, visited) else resolve visited (trim text)
  ]

  -- The candidates of a bridge, each searched with a list of its own.
  abbrev pub candidates : Search → List Text → List Text → Option (List Text)
  candidates resolve visited [] = some []
  candidates resolve visited (e ∷ es) = bind (resolve visited e) λ (found, _).
      bind (candidates resolve visited es)
        λ others. some (elim found [ none ↦ others | some c ↦ c ∷ others ])

  -- What is behind the first entry `lower_`.
  abbrev pub find_lower : List Text → Option Text
  find_lower [] = none
  find_lower (e ∷ es) =
      let later = find_lower es in if starts_with (codes "lower_") e then some (drop 6 e) else later

  abbrev pub resolve_lower : Search → Search
  resolve_lower resolve visited i = elim (bind (s.entries i) find_lower) [
    | none ↦ some (some i, visited)
    | some lower ↦
        bind (resolve visited lower)
          λ (found, visited'). some (elim found [ none ↦ some i | some c ↦ some c ], visited')
  ]

  -- What follows the bond.
  abbrev pub resolve_ports : Search → Search
  resolve_ports resolve visited i = elim (s.brif i) [
    | some es ↦ bind (candidates resolve visited es) (λ cs. some (max_by_key (sort cs), visited))
    | none ↦ resolve_lower resolve visited i
  ]

  -- `resolve_interface`, by means of itself.
  unfoldable pub visit : Search → Search
  visit resolve visited i =
      if contains visited i
      then some (none, visited)
      else if not (s.exists i)
      then some (none, visited ++ i ∷ [])
      else bind (resolve_bond resolve (visited ++ i ∷ []) i) λ (found, visited'). elim found [
        | some c ↦ some (some c, visited')
        | none ↦ resolve_ports resolve visited' i
      ]

  unfoldable pub resolve_interface : (fuel : ℕ) → Search
  resolve_interface zero visited i = none
  resolve_interface (suc fuel) visited i = visit (resolve_interface fuel) visited i

  -- `resolve_physical_interface`
  abbrev pub resolve_physical_interface : (fuel : ℕ) → Text → Option (Option Text)
  resolve_physical_interface fuel routed =
      bind (resolve_interface fuel [] routed) (λ (found, _). some found)
