-- ===== src/Host/Shutdown.antt =====
-- host/src/lib.rs: what the daemon does with a message from the stick, and the system's shutdown.
-- Calls outside the program are parameters: whether each call of `write_all` or `flush` succeeds, by
-- its number; what `systemctl` does; and what the queries for running guests answer, one after the
-- other, where behind the list the query can no longer be executed.
pub mod Log
pub mod Reports
pub mod Order
pub mod Success
use servatory.Prelude.{
  ℕ, ◌+◌, Bool, true, false, Option, none, some, List, [], ◌∷◌, ◌++◌, ◌==◌, if◌then◌else◌,
  unwrap_or, Result, ok, err, is_ok,
}
use servatory.Protocol.Frame.{Codec, encode_host, max_host_frame_len}
use servatory.Protocol.Message.{
  HostMessage, DeviceMessage, ProtocolError, ShutdownPhase, ShutdownFailure, shutdown_accepted,
  shutdown_progress, shutdown_failed, shutdown_requested, preparing_guests, stopping_guests,
  host_poweroff,
}

-- What can be seen from outside, in order.
pub data Effect : Type 0 where
  sent : HostMessage → Effect
  poweroff_called : Effect

pub data HostError : Type 0 where
  encoding : ProtocolError → HostError
  io : HostError
  not_started : HostError
  exited : HostError
  also : (error report : HostError) → HostError

pub record World : Type 0 where
  pub log : List Effect
  pub calls : ℕ
  pub counts : List (Option ℕ)

abbrev pub Outcome : Type 0 → Type 0
Outcome A = World × Result A HostError

abbrev pub Run : Type 0 → Type 0
Run A = World → Outcome A

unfoldable pub and_do : {A B : Type 0} → Outcome A → (A → Run B) → Outcome B
and_do (w, ok a) f = f a w
and_do (w, err e) f = (w, err e)

-- The environment: the answers of `write_all` and `flush`, and of `systemctl`: `none` when it cannot be
-- started, else whether it succeeds.
pub record Env : Type 0 where
  pub codec : Codec HostMessage
  pub succeeds : ℕ → Bool
  pub systemctl : Option Bool

-- The query's next answer; `none` is an error.
abbrev pub next_count : List (Option ℕ) → World → World × Option ℕ
next_count [] w = (w, none)
next_count (n ∷ ns) w = (record w { counts = ns }, n)

abbrev pub running_guest_count : World → World × Option ℕ
running_guest_count w = next_count w.counts w

module _ (env : Env) where
  flush : Run Unit
  flush w = (record w { calls = w.calls + 1 }, if env.succeeds w.calls then ok tt else err io)

  -- A message is sent when its frame was encoded and written.
  unfoldable pub write_host_message : HostMessage → Run Unit
  write_host_message m w = elim (encode_host env.codec m max_host_frame_len) [
    | err e ↦ (w, err (encoding e))
    | ok frame ↦
        if env.succeeds w.calls
        then (record w { calls = w.calls + 1; log = w.log ++ sent m ∷ [] }, ok tt)
        else (record w { calls = w.calls + 1 }, err io)
  ]

  -- `write_host_message(…)?; output.flush()?`
  unfoldable pub send : HostMessage → Run Unit
  unfolding write_host_message flush
  send m w = and_do (write_host_message m w) (λ u. flush)

  abbrev pub write_shutdown_progress : ShutdownPhase → (total remaining : ℕ) → Run Unit
  write_shutdown_progress phase total remaining = send (shutdown_progress phase total remaining)

  -- The error that `poweroff` ends with, after it has been reported.
  unfoldable pub report_shutdown_failure :
      ShutdownFailure → ℕ → HostError → World → World × HostError
  report_shutdown_failure reason remaining e w =
      let (w', r) = send (shutdown_failed reason remaining) w in
      elim r [ ok u ↦ (w', e) | err e' ↦ (w', also e e') ]

  fail : ℕ → HostError → Run Unit
  unfolding report_shutdown_failure
  fail remaining e w =
      let (w', e') = report_shutdown_failure host_poweroff remaining e w in (w', err e')

  -- `status()?` and the exit status.
  exited_with : ℕ → Option Bool → Run Unit
  unfolding fail
  exited_with initial none w = fail initial not_started w
  exited_with initial (some true) w = (w, ok tt)
  exited_with initial (some false) w = fail initial exited w

  pub call_poweroff : ℕ → Run Unit
  unfolding exited_with
  call_poweroff initial w =
      exited_with initial env.systemctl (record w { log = w.log ++ poweroff_called ∷ [] })

  -- `monitor_system_guest_shutdown`: the queries' answers are the list.
  unfoldable pub monitor : (total last_remaining : ℕ) → List (Option ℕ) → Run ℕ
  monitor total last [] w = (record w { counts = [] }, ok last)
  monitor total last (none ∷ ns) w = (record w { counts = ns }, ok last)
  monitor total last (some n ∷ ns) w =
      and_do (write_shutdown_progress stopping_guests total n (record w { counts = ns }))
        (λ u. if n == 0 then (λ w'. (w', ok 0)) else monitor total n ns)

  -- The part of `poweroff` behind `systemctl`.
  pub finish : Option ℕ → Run Unit
  unfolding monitor
  finish none w = write_shutdown_progress ShutdownPhase.powering_off 0 0 w
  finish (some initial) w = and_do (monitor initial initial w.counts w) λ remaining w'.
      and_do
        (if remaining == 0
          then write_shutdown_progress ShutdownPhase.guests_stopped initial 0 w'
          else (w', ok tt))
        (λ u. write_shutdown_progress ShutdownPhase.powering_off initial remaining)

  -- The first count is reported when there is one.
  report_count : World × Option ℕ → Outcome (Option ℕ)
  report_count (w, none) = (w, ok none)
  report_count (w, some n) =
      and_do (write_shutdown_progress stopping_guests n n w) (λ u w'. (w', ok (some n)))

  pub count_guests : Run (Option ℕ)
  unfolding report_count
  count_guests w = report_count (running_guest_count w)

  -- `SystemdShutdown::poweroff`
  unfoldable pub poweroff : Run Unit
  unfolding count_guests call_poweroff finish
  poweroff w = and_do (write_shutdown_progress preparing_guests 0 0 w) λ u w1.
      and_do (count_guests w1)
        λ initial w2. and_do (call_poweroff (unwrap_or initial 0) w2) λ u'. finish initial

  -- `EventHandler::handle`: whether the process should stop.
  unfoldable pub handle : Bool → DeviceMessage → Run Bool
  unfolding poweroff
  handle allow_shutdown (DeviceMessage.hello v session) w = (w, ok false)
  handle allow_shutdown shutdown_requested w =
      if allow_shutdown then and_do (send shutdown_accepted w) (λ u. stop) else (w, ok false)
    where
      stop : Run Bool
      stop w' = let (w'', r) = poweroff w' in (w'', ok (is_ok r))
