-- ===== src/Host/Shutdown/Log.antt =====
-- host/src/lib.rs: how many times an action of the shutdown powers the host off.
use servatory.Prelude.{
  ℕ, suc, ◌+◌, ◌≤◌, ◌≡◌, refl, sym, ap, ◌∙◌, inl, inr, Bool, true, false, Option, none, some, List,
  [], ◌∷◌, ◌++◌, append-nil, append_assoc, arith, ◌==◌, if◌then◌else◌, Bool-cases, ok, err, All,
  All-append, Result-cases,
}
use servatory.Protocol.Message.{
  HostMessage, shutdown_accepted, shutdown_progress, shutdown_failed, host_poweroff,
  stopping_guests, ShutdownPhase,
}
use servatory.Protocol.Frame.{encode_host, max_host_frame_len}
use servatory.Host.Shutdown.{
  flush, write_host_message, Effect, sent, poweroff_called, HostError, not_started, exited, Outcome,
  World, Run, Env, and_do, send, monitor, report_shutdown_failure, fail, call_poweroff, exited_with,
  report_count, finish, count_guests, next_count,
}

abbrev pub poweroffs : List Effect → ℕ
poweroffs [] = 0
poweroffs (sent m ∷ es) = poweroffs es
poweroffs (poweroff_called ∷ es) = suc (poweroffs es)

pub poweroffs-append : (xs ys : List Effect) → poweroffs (xs ++ ys) ≡ poweroffs xs + poweroffs ys
poweroffs-append [] ys = omega arith
poweroffs-append (sent m ∷ xs) ys = poweroffs-append xs ys
poweroffs-append (poweroff_called ∷ xs) ys = omega (arith, poweroffs-append xs ys)

-- What the handler of requests does, other than the daemon itself.
abbrev pub IsReport : Effect → Type 0
IsReport (sent shutdown_accepted) = Unit
IsReport (sent (shutdown_progress phase total remaining)) = Unit
IsReport (sent (shutdown_failed reason remaining)) = Unit
IsReport (sent _) = ⊥
IsReport poweroff_called = Unit

-- The log grows, by `n` power-offs at most, and by reports of the shutdown only.
pub record Adds (n : ℕ) (before after : List Effect) : Type 0 where
  pub more : List Effect
  pub log : after ≡ before ++ more
  pub bound : poweroffs more ≤ n
  pub reports : All IsReport more

pub Adds-refl : (l : List Effect) → Adds 0 l l
Adds-refl l = record { more = []; log = sym (append-nil l); bound = omega arith; reports = tt }

pub Adds-trans : {m n : ℕ} {l k j : List Effect} → Adds m l k → Adds n k j → Adds (m + n) l j
Adds-trans {l = l} x y = record {
  more = x.more ++ y.more;
  log = y.log ∙ ap (λ k. k ++ y.more) x.log ∙ append_assoc l x.more y.more;
  bound = omega (arith, poweroffs-append x.more y.more, x.bound, y.bound);
  reports = All-append IsReport x.more y.more x.reports y.reports;
}

pub Adds-and_do :
    {A B : Type 0} (m n : ℕ) (l : List Effect) (out : Outcome A) (f : A → Run B)
    → Adds m l out.0.log
    → ((a : A) (w : World) → Adds n w.log (f a w).0.log)
    → Adds (m + n) l (and_do out f).0.log
unfolding and_do
Adds-and_do m n l (w, ok a) f x y = Adds-trans x (y a w)
Adds-and_do m n l (w, err e) f x y = record {
  more = x.more;
  log = x.log;
  bound = omega (arith, x.bound);
  reports = x.reports;
}

-- A message that was written and flushed stands at the end of the log; a failed one may.
pub data Sends (m : HostMessage) (w : World) : Outcome Unit → Type 0 where
  went : (w' : World) → w'.log ≡ w.log ++ sent m ∷ [] → Sends m w (w', ok tt)
  unflushed : (w' : World) (e : HostError) → w'.log ≡ w.log ++ sent m ∷ [] → Sends m w (w', err e)
  failed : (w' : World) (e : HostError) → w'.log ≡ w.log → Sends m w (w', err e)

module _ (env : Env) where
  flush-Sends :
      (m : HostMessage) (w w' : World) → w'.log ≡ w.log ++ sent m ∷ [] → Sends m w (flush env w')
  unfolding flush
  flush-Sends m w w' h = elim (Bool-cases (env.succeeds w'.calls)) [
    | inl e ↦ rw e (went _ h)
    | inr e ↦ rw e (unflushed _ _ h)
  ]

  pub send-Sends : (m : HostMessage) (w : World) → Sends m w (send env m w)
  unfolding send write_host_message and_do
  send-Sends m w = elim (Result-cases (encode_host env.codec m max_host_frame_len)) [
    | inr (e, f) ↦ rw (write_host_message, f) (failed _ _ refl)
    | inl (frame, f) ↦ elim (Bool-cases (env.succeeds w.calls)) [
      | inl e ↦ rw (write_host_message, f, e) (flush-Sends m w _ refl)
      | inr e ↦ rw (write_host_message, f, e) (failed _ _ refl)
    ]
  ]

  pub send-Adds :
      (m : HostMessage) (w : World) → IsReport (sent m) → Adds 0 w.log (send env m w).0.log
  send-Adds m w r = sends_add w (send-Sends m w)
    where
      sends_add : (w : World) {out : Outcome Unit} → Sends m w out → Adds 0 w.log out.0.log
      sends_add w (went w' e) = record {
        more = sent m ∷ [];
        log = e;
        bound = omega arith;
        reports = (r, tt);
      }
      sends_add w (unflushed w' x e) = record {
        more = sent m ∷ [];
        log = e;
        bound = omega arith;
        reports = (r, tt);
      }
      sends_add w (failed w' x e) = record {
        more = [];
        log = e ∙ sym (append-nil w.log);
        bound = omega arith;
        reports = tt;
      }

  fail-log :
      (n : ℕ) (e : HostError) (w : World)
      → (fail env n e w).0.log ≡ (send env (shutdown_failed host_poweroff n) w).0.log
  unfolding fail report_shutdown_failure
  fail-log n e w = ground arith

  fail-Adds : (n : ℕ) (e : HostError) (w : World) → Adds 0 w.log (fail env n e w).0.log
  fail-Adds n e w = rw (fail-log n e w) (send-Adds (shutdown_failed host_poweroff n) w tt)

  exited_with-Adds :
      (n : ℕ) (status : Option Bool) (w : World) → Adds 0 w.log (exited_with env n status w).0.log
  unfolding exited_with
  exited_with-Adds n none w = fail-Adds n not_started w
  exited_with-Adds n (some true) w = Adds-refl w.log
  exited_with-Adds n (some false) w = fail-Adds n exited w

  pub call_poweroff-Adds : (n : ℕ) (w : World) → Adds 1 w.log (call_poweroff env n w).0.log
  unfolding call_poweroff
  call_poweroff-Adds n w =
      Adds-trans {m = 1}
        (record {
          more = poweroff_called ∷ [];
          log = refl;
          bound = omega arith;
          reports = (tt, tt);
        })
        (exited_with-Adds n env.systemctl (record w { log = w.log ++ poweroff_called ∷ [] }))

  monitor-Adds :
      (total last : ℕ) (ns : List (Option ℕ)) (w : World)
      → Adds 0 w.log (monitor env total last ns w).0.log
  unfolding monitor
  monitor-Adds total last [] w = Adds-refl w.log
  monitor-Adds total last (none ∷ ns) w = Adds-refl w.log
  monitor-Adds total last (some n ∷ ns) w =
      Adds-and_do 0 0 w.log _ _
        (send-Adds (shutdown_progress stopping_guests total n) (record w { counts = ns }) tt)
        (λ u w'. again w' (n == 0) (monitor-Adds total n ns w'))
    where
      again :
          (w' : World) (b : Bool)
          → Adds 0 w'.log (monitor env total n ns w').0.log
          → Adds 0 w'.log ((if b then (λ v. (v, ok 0)) else monitor env total n ns) w').0.log
      again w' true x = Adds-refl w'.log
      again w' false x = x

  pub finish-Adds : (initial : Option ℕ) (w : World) → Adds 0 w.log (finish env initial w).0.log
  unfolding finish
  finish-Adds none w = send-Adds (shutdown_progress ShutdownPhase.powering_off 0 0) w tt
  finish-Adds (some n) w = Adds-and_do 0 0 w.log _ _ (monitor-Adds n n w.counts w) (λ remaining w'.
      Adds-and_do 0 0 w'.log _ _ (stopped w' (remaining == 0))
        (λ u v. send-Adds (shutdown_progress ShutdownPhase.powering_off n remaining) v tt))
    where
      stopped :
          (w' : World) (b : Bool)
          → Adds 0 w'.log
              (if b
                then send env (shutdown_progress ShutdownPhase.guests_stopped n 0) w'
                else (w', ok tt)).0.log
      stopped w' true = send-Adds (shutdown_progress ShutdownPhase.guests_stopped n 0) w' tt
      stopped w' false = Adds-refl w'.log

  report_count-Adds :
      (w : World) (count : Option ℕ) → Adds 0 w.log (report_count env (w, count)).0.log
  unfolding report_count
  report_count-Adds w none = Adds-refl w.log
  report_count-Adds w (some n) =
      Adds-and_do 0 0 w.log _ _ (send-Adds (shutdown_progress stopping_guests n n) w tt)
        (λ u w'. Adds-refl w'.log)

  pub count_guests-Adds : (w : World) → Adds 0 w.log (count_guests env w).0.log
  unfolding count_guests
  count_guests-Adds w = counted w.counts
    where
      counted : (ns : List (Option ℕ)) → Adds 0 w.log (report_count env (next_count ns w)).0.log
      counted [] = Adds-refl w.log
      counted (n ∷ ns) = report_count-Adds (record w { counts = ns }) n
