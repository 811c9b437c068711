-- ===== src/Host/Shutdown/Reports.antt =====
-- host/src/lib.rs: what handling a message writes.
use servatory.Prelude.{Bool, true, false, List, arith, unwrap_or}
use servatory.Protocol.Message.{
  DeviceMessage, shutdown_accepted, shutdown_progress, shutdown_requested, preparing_guests,
}
use servatory.Host.Shutdown.{Effect, World, Env, poweroff, handle}
use servatory.Host.Shutdown.Log.{
  Adds, Adds-refl, Adds-and_do, send-Adds, count_guests-Adds, call_poweroff-Adds, finish-Adds,
}

Adds-one : {l k : List Effect} → Adds 0 l k → Adds 1 l k
Adds-one x = record {
  more = x.more;
  log = x.log;
  bound = omega (arith, x.bound);
  reports = x.reports;
}

module _ (env : Env) where
  poweroff-Adds : (w : World) → Adds 1 w.log (poweroff env w).0.log
  unfolding poweroff
  poweroff-Adds w =
      Adds-and_do 0 1 w.log _ _ (send-Adds env (shutdown_progress preparing_guests 0 0) w tt) λ u v.
        Adds-and_do 0 1 v.log _ _ (count_guests-Adds env v) λ initial w2.
          Adds-and_do 1 0 w2.log _ _ (call_poweroff-Adds env (unwrap_or initial 0) w2)
            (λ u'. finish-Adds env initial)

  pub handle-Adds :
      (allow : Bool) (m : DeviceMessage) (w : World) → Adds 1 w.log (handle env allow m w).0.log
  unfolding handle
  handle-Adds allow (DeviceMessage.hello v s) w = Adds-one (Adds-refl w.log)
  handle-Adds false shutdown_requested w = Adds-one (Adds-refl w.log)
  handle-Adds true shutdown_requested w =
      Adds-and_do 0 1 w.log _ _ (send-Adds env shutdown_accepted w tt) (λ u v. poweroff-Adds v)
