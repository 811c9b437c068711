-- ===== src/Host/Shutdown/Success.antt =====
-- host/src/lib.rs: a shutdown in which nothing fails.
use servatory.Prelude.{
  ℕ, ◌+◌, ◌<◌, ◌≡◌, refl, sym, ap, ◌∙◌, subst, inl, inr, Bool, true, false, Option, some, List, [],
  ◌∷◌, ◌++◌, map, append-nil, append_assoc, arith, ◌==◌, if◌then◌else◌, ok, is_ok, drop, All,
  Result-cases,
}
use servatory.Protocol.Frame.{encode_host, max_host_frame_len}
use servatory.Protocol.Message.{
  HostMessage, ShutdownPhase, shutdown_accepted, shutdown_progress, shutdown_failed,
  shutdown_requested, preparing_guests, stopping_guests,
}
use servatory.Host.Shutdown.{
  Effect, sent, poweroff_called, World, Outcome, Run, Env, and_do, flush, write_host_message, send,
  monitor, call_poweroff, exited_with, finish, count_guests, report_count, poweroff, handle,
}

-- The messages of a shutdown.
abbrev pub is_report : HostMessage → Bool
is_report shutdown_accepted = true
is_report (shutdown_progress phase total remaining) = true
is_report (shutdown_failed reason remaining) = true
is_report _ = false

-- Every write succeeds, and every message of a shutdown fits into a frame.
pub record IsReliable (env : Env) : Type 0 where
  pub writes : (i : ℕ) → env.succeeds i ≡ true
  pub fits :
      (m : HostMessage)
      → is_report m ≡ true
      → is_ok (encode_host env.codec m max_host_frame_len) ≡ true

abbrev pub stopping : ℕ → ℕ → Effect
stopping total n = sent (shutdown_progress stopping_guests total n)

module _ (env : Env) (reliable : IsReliable env) where
  -- The action ends well, with these effects after `l`, this rest of the query's answers, and `a`.
  record Does {A : Type 0} (l es : List Effect) (cs : List (Option ℕ)) (a : A) (out : Outcome A)
      : Type 0 where
    final : World
    ends : out ≡ (final, ok a)
    log : final.log ≡ l ++ es
    left : final.counts ≡ cs

  send-Does :
      (m : HostMessage) (w : World) {cs : List (Option ℕ)}
      → is_report m ≡ true
      → w.counts ≡ cs
      → Does w.log (sent m ∷ []) cs tt (send env m w)
  unfolding send write_host_message flush and_do
  send-Does m w h k = elim (Result-cases (encode_host env.codec m max_host_frame_len)) [
    | inr (x, e) ↦ absurd (ground (arith, reliable.fits m h))
    | inl (frame, e) ↦ record {
      final = record w { calls = w.calls + 1 + 1; log = w.log ++ sent m ∷ [] };
      ends =
          rw (write_host_message, e)
            (ground (arith, reliable.writes w.calls, reliable.writes (w.calls + 1)));
      log = refl;
      left = k;
    }
  ]

  Does-and_do :
      {A B : Type 0} {l es fs : List Effect} {cs ds : List (Option ℕ)} {a : A} {b : B}
      {out : Outcome A} (f : A → Run B)
      → Does l es cs a out
      → ((v : World) → v.counts ≡ cs → Does v.log fs ds b (f a v))
      → Does l (es ++ fs) ds b (and_do out f)
  unfolding and_do
  Does-and_do {l = l} {es = es} {fs = fs} f x y =
      let z = y x.final x.left in
      record {
        final = z.final;
        ends = ap (λ o. and_do o f) x.ends ∙ z.ends;
        log = z.log ∙ ap (λ k. k ++ fs) x.log ∙ append_assoc l es fs;
        left = z.left;
      }

  pure :
      {A : Type 0} (w : World) {cs : List (Option ℕ)} (a : A)
      → w.counts ≡ cs
      → Does w.log [] cs a (w, ok a)
  pure w a e = record { final = w; ends = refl; log = sym (append-nil w.log); left = e }

  monitor-Does :
      (total last : ℕ) (ns : List ℕ) (later : List (Option ℕ)) (w : World)
      → All (λ n. 0 < n) ns
      → Does w.log
          (map (stopping total) ns ++ stopping total 0 ∷ [])
          later
          0
          (monitor env total last (map some ns ++ some 0 ∷ later) w)
  unfolding monitor
  monitor-Does total last [] later w h =
      Does-and_do _
        (send-Does (shutdown_progress stopping_guests total 0) (record w { counts = later }) refl
          refl)
        (λ v e. pure v 0 e)
  monitor-Does total last (n ∷ ns) later w h =
      Does-and_do _
        (send-Does (shutdown_progress stopping_guests total n)
          (record w { counts = map some ns ++ some 0 ∷ later }) refl refl)
        (λ v e. again v (ground arith) (monitor-Does total n ns later v h.1))
    where
      again :
          (v : World)
          → (n == 0) ≡ false
          → Does v.log
              (map (stopping total) ns ++ stopping total 0 ∷ [])
              later
              0
              (monitor env total n (map some ns ++ some 0 ∷ later) v)
          → Does v.log (map (stopping total) ns ++ stopping total 0 ∷ []) later 0 (
              (if n == 0
                  then (λ w'. (w', ok 0))
                  else monitor env total n (map some ns ++ some 0 ∷ later))
                v)
      again v nz x = rw nz x

  count_guests-Does :
      (n : ℕ) (cs : List (Option ℕ)) (w : World)
      → w.counts ≡ some n ∷ cs
      → Does w.log (stopping n n ∷ []) cs (some n) (count_guests env w)
  unfolding count_guests report_count
  count_guests-Does n cs w e = rw e (
      Does-and_do _
        (send-Does (shutdown_progress stopping_guests n n) (record w { counts = cs }) refl refl)
        (λ v h. pure v (some n) h))

  call_poweroff-Does :
      (n : ℕ) (w : World)
      → env.systemctl ≡ some true
      → Does w.log (poweroff_called ∷ []) w.counts tt (call_poweroff env n w)
  unfolding call_poweroff exited_with
  call_poweroff-Does n w e = record {
    final = record w { log = w.log ++ poweroff_called ∷ [] };
    ends = ap (λ s. exited_with env n s (record w { log = w.log ++ poweroff_called ∷ [] })) e;
    log = refl;
    left = refl;
  }

  finish-Does :
      (n : ℕ) (ns : List ℕ) (later : List (Option ℕ)) (w : World)
      → w.counts ≡ map some ns ++ some 0 ∷ later
      → All (λ k. 0 < k) ns
      → Does w.log
          ((map (stopping n) ns ++ stopping n 0 ∷ [])
            ++ sent (shutdown_progress ShutdownPhase.guests_stopped n 0)
              ∷ sent (shutdown_progress ShutdownPhase.powering_off n 0)
              ∷ [])
          later
          tt
          (finish env (some n) w)
  unfolding finish
  finish-Does n ns later w e h =
      Does-and_do _
        (subst
          (λ cs.
            Does w.log (map (stopping n) ns ++ stopping n 0 ∷ []) later 0 (monitor env n n cs w))
          (sym e) (monitor-Does n n ns later w h))
        (λ v k.
          Does-and_do _ (send-Does (shutdown_progress ShutdownPhase.guests_stopped n 0) v refl k)
            (λ u j. send-Does (shutdown_progress ShutdownPhase.powering_off n 0) u refl j))

  -- The effects of an orderly shutdown of `n` guests, while the queries answer `ns` and then 0.
  abbrev pub orderly : ℕ → List ℕ → List Effect
  orderly n ns =
      sent shutdown_accepted
      ∷ sent (shutdown_progress preparing_guests 0 0)
      ∷ stopping n n
      ∷ poweroff_called
      ∷ ((map (stopping n) ns ++ stopping n 0 ∷ [])
          ++ sent (shutdown_progress ShutdownPhase.guests_stopped n 0)
            ∷ sent (shutdown_progress ShutdownPhase.powering_off n 0)
            ∷ [])

  poweroff-Does :
      (n : ℕ) (ns : List ℕ) (later : List (Option ℕ)) (w : World)
      → env.systemctl ≡ some true
      → w.counts ≡ some n ∷ (map some ns ++ some 0 ∷ later)
      → All (λ k. 0 < k) ns
      → Does w.log (drop 1 (orderly n ns)) later tt (poweroff env w)
  unfolding poweroff
  poweroff-Does n ns later w s e h =
      Does-and_do _ (send-Does (shutdown_progress preparing_guests 0 0) w refl e) λ w1 e1.
        Does-and_do _ (count_guests-Does n _ w1 e1) λ w2 e2.
          Does-and_do _ (call_poweroff-Does n w2 s) λ w3 e3. finish-Does n ns later w3 (e3 ∙ e2) h

  -- If every write succeeds, every message of a shutdown fits into a frame, and `systemctl` succeeds,
  -- then an allowed request while `n` guests run, of which later queries count the positive numbers
  -- `ns` and then none, makes the daemon stop, after exactly these effects: the acceptance, the notices
  -- that guests are prepared and that `n` are stopping, the call of `systemctl`, a notice for each
  -- count, the notice that the guests have stopped, and the one that the host powers off.
  pub handle-orderly :
      (n : ℕ) (ns : List ℕ) (later : List (Option ℕ)) (calls : ℕ)
      → env.systemctl ≡ some true
      → All (λ k. 0 < k) ns
      → let out =
          handle env true shutdown_requested (record {
            log = [];
            calls = calls;
            counts = some n ∷ (map some ns ++ some 0 ∷ later);
          }) in
        (out.1 ≡ ok true) × (out.0.log ≡ orderly n ns)
  unfolding handle
  handle-orderly n ns later calls s h =
      let counts = some n ∷ (map some ns ++ some 0 ∷ later) in
      let start : World = record { log = []; calls = calls; counts = counts } in
      let all_done : Does [] (orderly n ns) later true (handle env true shutdown_requested start) =
        Does-and_do _ (send-Does shutdown_accepted start {cs = counts} refl refl)
          (λ v e. stops (poweroff-Does n ns later v s e h)) in
      (ap (λ o. o.1) all_done.ends, ap (λ o. o.0.log) all_done.ends ∙ all_done.log)
    where
      stops :
          {l es : List Effect} {cs : List (Option ℕ)} {out : Outcome Unit}
          → Does l es cs tt out
          → Does l es cs true (out.0, ok (is_ok out.1))
      stops x = record {
        final = x.final;
        ends = ap (λ o. (o.0, ok (is_ok o.1))) x.ends;
        log = x.log;
        left = x.left;
      }
