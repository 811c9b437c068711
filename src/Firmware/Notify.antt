-- ===== src/Firmware/Notify.antt =====
-- firmware/src/network.rs: which incidents are pushed as notifications, `notification_worker`.
pub mod Newest
pub mod Rounds
use servatory.Prelude.{
  ℕ, ◌+◌, ◌-◌, Bool, true, false, not, ◌&&◌, ◌||◌, Option, none, some, List, [], ◌∷◌, ◌++◌, ltb,
  leb, ◌==◌, if◌then◌else◌, is_some, is_none_or, unwrap_or, length, any, filter,
}
use servatory.Prelude.Text.{Text, codes}
use servatory.Prelude.Time.{Instant, Duration, secs}
use servatory.Protocol.Health.{
  warning, critical, priority, level_eq, host_offline, IncidentId, stick, incident_id_eq, Incident,
}
use servatory.Protocol.Network.{NotificationPriority, NtfyConfig}
use servatory.Protocol.Snapshot.{HealthSnapshot}
use servatory.Firmware.Network.{SharedState}

abbrev pub host_stale_after : Duration
host_stale_after = secs 15

abbrev pub max_pending_notifications : ℕ
max_pending_notifications = 8

abbrev offline : Incident
offline = record {
  id = stick host_offline;
  level = critical;
  message = codes "HOST CONNECTION LOST";
}

abbrev reported : Option HealthSnapshot → List Incident
reported none = []
reported (some s) = s.active_incidents

-- `active_incidents`, at the time at which it reads the clock.
unfoldable pub active_incidents : Instant → SharedState → List Incident
active_incidents now state =
    if is_none_or state.last_update (λ updated. leb host_stale_after (now - updated))
    then offline ∷ reported state.snapshot
    else reported state.snapshot

unfoldable pub notifiable_incidents : Instant → SharedState → List Incident
notifiable_incidents now state =
    filter (λ i. is_some state.snapshot || not (incident_id_eq i.id (stick host_offline)))
      (active_incidents now state)

pub record PendingNotification : Type 0 where
  pub message : Text
  pub priority : NotificationPriority
  pub recovery : Bool

abbrev pub Queue : Type 0
Queue = List PendingNotification

abbrev pub pop : Queue → Queue
pop [] = []
pop (n ∷ q) = q

unfoldable pub push_pending : Queue → PendingNotification → Queue
push_pending q n = if length q == max_pending_notifications then pop q ++ n ∷ [] else q ++ n ∷ []

-- A loop that pushes what `f` gives for some of the incidents.
unfoldable pub push_where : (Incident → Option PendingNotification) → Queue → List Incident → Queue
push_where f q [] = q
push_where f q (i ∷ is) = push_where f (elim (f i) [ none ↦ q | some n ↦ push_pending q n ]) is

find_incident : IncidentId → List Incident → Option Incident
find_incident id [] = none
find_incident id (i ∷ is) =
    let rest = find_incident id is in if incident_id_eq i.id id then some i else rest

-- New or worse than in the last round, and of a severity that is to be notified.
unfoldable pub news : NtfyConfig → List Incident → Incident → Option PendingNotification
unfolding find_incident
news config previous i =
    if is_none_or (find_incident i.id previous) (λ old. ltb (priority old.level) (priority i.level))
      && ((level_eq i.level warning && config.severities.warning)
          || (level_eq i.level critical && config.severities.critical))
    then some (record {
      message = i.message;
      priority =
          if level_eq i.level critical then config.critical_priority else config.warning_priority;
      recovery = false;
    })
    else none

unfoldable pub reminder : NtfyConfig → Incident → Option PendingNotification
reminder config i = some (record {
  message = codes "STILL ACTIVE: " ++ i.message;
  priority = config.critical_priority;
  recovery = false;
})

unfoldable pub recovered : NtfyConfig → List Incident → Incident → Option PendingNotification
recovered config current i =
    if any (λ (new : Incident). incident_id_eq new.id i.id) current
    then none
    else some (record {
      message = codes "RECOVERED: " ++ i.message;
      priority = config.recovery_priority;
      recovery = true;
    })

pub record Worker : Type 0 where
  pub previous : List Incident
  pub pending : Queue
  pub next_critical_repeat : Option Instant

-- What a round reads: the clock, at each of its readings, the test signal, and whether the publication
-- of the first notification succeeds.
pub record Round : Type 0 where
  pub state : SharedState
  pub age_now : Instant
  pub insert_now : Instant
  pub due_now : Instant
  pub reset_now : Instant
  pub test : Bool
  pub published : Bool

abbrev test_notification : PendingNotification
test_notification = record {
  message = codes "Servatory test notification";
  priority = NotificationPriority.default;
  recovery = false;
}

-- The reminders of what is critical, and when the next ones are due.
unfoldable pub remind_every :
    NtfyConfig
    → Round
    → Option ℕ
    → (criticals : List Incident) → Queue × Option Instant
    → Queue × Option Instant
remind_every config r none criticals (q, next) = (q, none)
remind_every config r (some seconds) [] (q, next) = (q, none)
remind_every config r (some seconds) (i ∷ is) (q, next) =
    let due = unwrap_or next (r.insert_now + secs seconds) in
    if leb due r.due_now
    then (push_where (reminder config) q (i ∷ is), some (r.reset_now + secs seconds))
    else (q, some due)

abbrev pub criticals_of : List Incident → List Incident
criticals_of = filter (λ i. level_eq i.level critical)

unfoldable pub remind :
    NtfyConfig → Round → List Incident → Queue × Option Instant → Queue × Option Instant
unfolding remind_every
remind config r current =
    remind_every config r config.repeat_critical_seconds (criticals_of current)

-- Publishing: `none` for the topic means that there is none to publish to.
unfoldable pub publish : Option Text → Bool → Queue → Queue
publish topic published q = if is_some topic && published then pop q else q

-- A round under an enabled configuration.
unfoldable pub notify : NtfyConfig → Round → List Incident → Worker → Worker
notify config r current w =
    let q0 = if r.test then push_pending w.pending test_notification else w.pending in
    let q1 = push_where (news config w.previous) q0 current in
    let (q2, next) = remind config r current (q1, w.next_critical_repeat) in
    let q3 =
      if config.notify_recovery then push_where (recovered config current) q2 w.previous else q2 in
    record {
      previous = current;
      pending = publish r.state.ntfy_topic r.published q3;
      next_critical_repeat = next;
    }

-- `notification_worker`, one round of its loop.
unfoldable pub step : Round → Worker → Worker
step r w =
    let current = notifiable_incidents r.age_now r.state in
    elim r.state.manifest [
      | none ↦ record w { previous = current }
      | some manifest ↦
          if manifest.ntfy.enabled
          then notify manifest.ntfy r current w
          else record w { previous = current }
    ]
