-- ===== src/Host/Shutdown/Order.antt =====
-- host/src/lib.rs: what comes before the host is powered off.
use servatory.Prelude.{
  ℕ, ◌≤◌, ◌<◌, ◌≡◌, refl, ap, ◌∙◌, subst, Bool, true, false, Option, List, [], ◌∷◌, ◌++◌, arith,
  unwrap_or,
}
use servatory.Protocol.Message.{
  HostMessage, DeviceMessage, shutdown_accepted, shutdown_progress, shutdown_requested,
  preparing_guests,
}
use servatory.Host.Shutdown.{Effect, sent, Outcome, World, Run, Env, and_do, poweroff, handle}
use servatory.Host.Shutdown.Log.{
  poweroffs, poweroffs-append, Adds, Adds-and_do, Sends, went, unflushed, failed, send-Sends,
  count_guests-Adds, call_poweroff-Adds, finish-Adds,
}

module _ (env : Env) where
  -- The log of a run that called `poweroff` once, or not at all.
  data Ordered (first : List Effect) : List Effect → Type 0 where
    quiet : (l : List Effect) → poweroffs l ≡ 0 → Ordered first l
    called : (rest : List Effect) → poweroffs rest ≤ 1 → Ordered first (first ++ rest)

  Adds-quiet : {l k : List Effect} → poweroffs l ≡ 0 → Adds 0 l k → poweroffs k ≡ 0
  Adds-quiet {l} h x = ap poweroffs x.log ∙ omega (arith, poweroffs-append l x.more, h, x.bound)

  -- What follows a message that goes first.
  first_sent :
      {A : Type 0} {first : List Effect} (m : HostMessage) (w : World) {out : Outcome Unit}
      (f : Unit → Run A)
      → Sends m w out
      → poweroffs w.log ≡ 0
      → ((v : World) → v.log ≡ w.log ++ sent m ∷ [] → Ordered first (f tt v).0.log)
      → Ordered first (and_do out f).0.log
  unfolding and_do
  first_sent m w f (went v e) h k = k v e
  first_sent m w f (unflushed v x e) h k =
      quiet v.log (ap poweroffs e ∙ omega (arith, poweroffs-append w.log (sent m ∷ []), h))
  first_sent m w f (failed v x e) h k = quiet v.log (ap poweroffs e ∙ h)

  Adds-called : {l k first : List Effect} → l ≡ first → Adds 1 l k → Ordered first k
  Adds-called {l} e x = rw (x.log, e) (called x.more x.bound)

  poweroff-Ordered :
      (w : World)
      → poweroffs w.log ≡ 0
      → Ordered (w.log ++ sent (shutdown_progress preparing_guests 0 0) ∷ []) (poweroff env w).0.log
  unfolding poweroff
  poweroff-Ordered w h = first_sent _ w _ (send-Sends env _ w) h λ v e. Adds-called e (
      Adds-and_do 0 1 v.log _ _ (count_guests-Adds env v) λ initial w2.
        Adds-and_do 1 0 w2.log _ _ (call_poweroff-Adds env (unwrap_or initial 0) w2)
          (λ u'. finish-Adds env initial))

  poweroff-after :
      (w : World) (l : List Effect)
      → w.log ≡ l
      → poweroffs l ≡ 0
      → Ordered (l ++ sent (shutdown_progress preparing_guests 0 0) ∷ []) (poweroff env w).0.log
  poweroff-after w l e h =
      subst
        (λ k.
          Ordered (k ++ sent (shutdown_progress preparing_guests 0 0) ∷ []) (poweroff env w).0.log)
        e (poweroff-Ordered w (ap poweroffs e ∙ h))

  handle-Ordered :
      (calls : ℕ) (counts : List (Option ℕ))
      → Ordered
          (sent shutdown_accepted ∷ sent (shutdown_progress preparing_guests 0 0) ∷ [])
          (handle env true shutdown_requested
            (record { log = []; calls = calls; counts = counts })).0.log
  unfolding handle
  handle-Ordered calls counts =
      first_sent shutdown_accepted _ _ (send-Sends env shutdown_accepted _) refl
        (λ v e. poweroff-after v _ e refl)

  Ordered-once :
      {first l : List Effect}
      → poweroffs first ≡ 0
      → Ordered first l
      → 0 < poweroffs l
      → (rest : List Effect) × (l ≡ first ++ rest) × (poweroffs rest ≡ 1)
  Ordered-once z (quiet l e) h = absurd (omega (arith, e, h))
  Ordered-once {first} z (called rest b) h =
      (rest, refl, omega (arith, poweroffs-append first rest, z, b, h))

  -- If handling a message powers the host off, then shutdowns are allowed, the message asked for one,
  -- and the log is the acceptance, the notice that guests are prepared, and then a part in which
  -- `systemctl poweroff` is called exactly once, whatever fails.
  pub handle-poweroffs :
      (allow : Bool) (m : DeviceMessage) (calls : ℕ) (counts : List (Option ℕ))
      → 0
        < poweroffs (handle env allow m (record { log = []; calls = calls; counts = counts })).0.log
      → (allow ≡ true)
        × (m ≡ shutdown_requested)
        × (rest : List Effect) × ((handle env allow m
              (record { log = []; calls = calls; counts = counts })).0.log
            ≡ sent shutdown_accepted ∷ sent (shutdown_progress preparing_guests 0 0) ∷ rest)
        × (poweroffs rest ≡ 1)
  unfolding handle
  handle-poweroffs allow (DeviceMessage.hello v s) calls counts h = absurd (omega arith)
  handle-poweroffs false shutdown_requested calls counts h = absurd (omega arith)
  handle-poweroffs true shutdown_requested calls counts h =
      let (rest, e, once) = Ordered-once refl (handle-Ordered calls counts) h in
      (refl, refl, rest, e, once)
