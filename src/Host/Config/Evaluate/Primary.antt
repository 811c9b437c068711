-- ===== src/Host/Config/Evaluate/Primary.antt =====
-- host/src/config.rs: which incident the report shows.
use servatory.Prelude.{
  ℕ, ◌≤◌, ◌<◌, ◌≡◌, refl, ap, subst, inl, inr, true, false, Option, none, some, List, [], ◌∷◌, ◌++◌,
  arith, ltb, ltb→lt, Bool-cases, unwrap_or, bind, All,
}
use servatory.Protocol.Health.{priority, HealthReport, Incident}
use servatory.Protocol.Snapshot.{HealthSnapshot}
use servatory.Host.Config.{Config}
use servatory.Host.Config.Health.{Floats}
use servatory.Host.Config.Evaluate.{pick, report_of, incidents_of, evaluate_health}

abbrev pub rank : Incident → ℕ
rank i = priority i.level

-- The first incident of the highest rank, in its place.
pub record IsPrimary (is : List Incident) (i : Incident) : Type 0 where
  pub before : List Incident
  pub after : List Incident
  pub split : is ≡ before ++ i ∷ after
  pub lower : All (λ j. rank j < rank i) before
  pub bounded : All (λ j. rank j ≤ rank i) after

-- What `pick` makes of a current incident and the rest.
data Picks (k : Incident) (is : List Incident) : Type 0 where
  keeps : pick (some k) is ≡ some k → All (λ j. rank j ≤ rank k) is → Picks k is
  finds : (i : Incident) → pick (some k) is ≡ some i → rank k < rank i → IsPrimary is i → Picks k is

pick-Picks : (k : Incident) (is : List Incident) → Picks k is
unfolding pick
pick-Picks k [] = keeps refl tt
pick-Picks k (i ∷ is) = elim (Bool-cases (ltb (rank k) (rank i))) [
  | inl e ↦ higher e (pick-Picks i is)
  | inr e ↦ lower e (pick-Picks k is)
]
  where
    higher : ltb (rank k) (rank i) ≡ true → Picks i is → Picks k (i ∷ is)
    higher h (keeps e bound) =
        finds i (rw h e) (omega (arith, ltb→lt (rank k) (rank i) h))
          (record { before = []; after = is; split = refl; lower = tt; bounded = bound })
    higher h (finds m e l p) =
        finds m (rw h e) (omega (arith, ltb→lt (rank k) (rank i) h, l)) (record {
          before = i ∷ p.before;
          after = p.after;
          split = ap (◌∷◌ i) p.split;
          lower = (l, p.lower);
          bounded = p.bounded;
        })

    lower : ltb (rank k) (rank i) ≡ false → Picks k is → Picks k (i ∷ is)
    lower h (keeps e bound) = keeps (rw h e) (ground (arith, h), bound)
    lower h (finds m e l p) = finds m (rw h e) l (record {
      before = i ∷ p.before;
      after = p.after;
      split = ap (◌∷◌ i) p.split;
      lower = (ground (arith, h, l), p.lower);
      bounded = p.bounded;
    })

-- The report is the default one if no rule matches; otherwise it shows the first incident of the
-- highest priority.
pub data Reports (fl : Floats) (c : Config) (s : HealthSnapshot) (r : HealthReport)
    (is : List Incident) : Type 0 where
  usual : is ≡ [] → r ≡ report_of fl c s none → Reports fl c s r is
  shows : (i : Incident) → IsPrimary is i → r ≡ report_of fl c s (some i) → Reports fl c s r is

module _ (fl : Floats) (c : Config) (s : HealthSnapshot) where
  pick-Reports : (is : List Incident) → Reports fl c s (report_of fl c s (pick none is)) is
  unfolding pick
  pick-Reports [] = usual refl refl
  pick-Reports (i ∷ is) = picked (pick-Picks i is)
    where
      picked : Picks i is → Reports fl c s (report_of fl c s (pick (some i) is)) (i ∷ is)
      picked (keeps e bound) =
          shows i (record { before = []; after = is; split = refl; lower = tt; bounded = bound })
            (ap (report_of fl c s) e)
      picked (finds m e l p) =
          shows m
            (record {
              before = i ∷ p.before;
              after = p.after;
              split = ap (◌∷◌ i) p.split;
              lower = (l, p.lower);
              bounded = p.bounded;
            })
            (ap (report_of fl c s) e)

  -- When the rules were evaluated, the report is the default one if there is no incident, and
  -- otherwise that of an incident of the list such that those before it have a lower priority and
  -- those behind it no higher one.
  pub evaluate_health-Reports :
      {r : HealthReport} {is : List Incident}
      → evaluate_health fl c s ≡ some (r, is)
      → Reports fl c s r is
  unfolding evaluate_health
  evaluate_health-Reports {r} {is} e = reported (incidents_of fl c s c.health.rules) e
    where
      reported :
          (o : Option (List Incident))
          → bind {B = HealthReport × List Incident} o
              (λ js. some (report_of fl c s (pick none js), js))
            ≡ some (r, is)
          → Reports fl c s r is
      reported none h = absurd (ground arith)
      reported (some js) h =
          subst (λ p. Reports fl c s p.0 p.1) (ap (λ o. unwrap_or o (r, is)) h) (pick-Reports js)
